-- ===== src/Server/Accepted.antt =====
-- What `accept_session` of include/llfix/fix_server.h leaves of a peer without a session.
use llfix.Session.SequenceStore.{reset_numbers}
use llfix.Session.Record.{reset_flags}
use llfix.Session.State.{pending_logon, is_state_live, ◌=state◌, disabled}
use llfix.Constants.{no_code}
use llfix.Server.Connectors.{get_session, get_peer_index, update, lookup}
use llfix.Message.{IncomingFixMessage, has_tag, get_tag_value_as_char}
use llfix.Server.Logon.{start_session, has_required_tags, accept_session, is_now_valid}
use llfix.Server.{ServerEnvironment, FixServer, focus, session_at}
use mathlib.Core.Option
use llfix.Server.Acceptance.{
  MayStart, IsAddressed, identifiers_of, find_by, accept_session-cases, find_session_lem,
}
use llfix.Common.{
  ℕ, true, false, refl, sym, ap, subst, inl, inr, none, some, [], arith, if◌then◌else◌, All, ℕ, ◌≡◌,
  ◌⊎◌, ◌∙◌, ◌∷◌, ◌==◌, ◌&&◌, eq_self,
}

-- The first message of a peer that is a logon for the session `k`: tags 8, 34, 49, 56 and 35 are there.
pub record IsLogonFor (env : ServerEnvironment) (sv : FixServer) (m : IncomingFixMessage)
    (code k : ℕ) : Type 0 where
  pub well_formed : code ≡ no_code
  pub tags : All (λ t. has_tag m t ≡ true) (8 ∷ 34 ∷ 49 ∷ 56 ∷ 35 ∷ [])
  pub logon : get_tag_value_as_char m 35 ≡ b'A'
  pub found : find_by sv sv.sessions (identifiers_of m) ≡ some k
  pub offline : is_state_live (session_at sv k).session.state ≡ false
  pub enabled : ((session_at sv k).session.state =state disabled) ≡ false
  pub in_time : is_now_valid env sv (session_at sv k).session ≡ true

-- The server works on the session `k`, which the peer serves and which waits for the check of its logon
-- with no request open. Its numbers are zero if the logon asks for that, and else they stay.
pub record IsStarted (sv t : FixServer) (peer : ℕ) (m : IncomingFixMessage) (k : ℕ) : Type 0 where
  pub id : t.session_id ≡ k
  pub state : t.session.state ≡ pending_logon
  pub served : get_session t.connectors peer ≡ some k
  pub peer_index : get_peer_index t.connectors k ≡ some peer
  pub numbers : t.session.sequence_store ≡ (
      if has_tag m 141 && get_tag_value_as_char m 141 == b'Y'
      then record { outgoing_seq_no = 0; incoming_seq_no = 0 }
      else (session_at sv k).session.sequence_store)
  pub idle :
      (t.session.needs_responding_to_incoming_resend_request ≡ false)
      × (t.session.needs_to_send_resend_request ≡ false)
      × (t.session.expecting_response_for_outgoing_test_request ≡ false)
  pub others : (j : ℕ) → (j == k) ≡ false → session_at t j ≡ session_at sv j
  pub quiet : (t.sent ≡ sv.sent) × (t.events ≡ sv.events) × (t.closed ≡ sv.closed)

start_session-IsStarted :
    (sv : FixServer) (peer : ℕ) (m : IncomingFixMessage) (k : ℕ)
    → IsStarted sv (start_session (focus sv k) peer m) peer m k
unfolding start_session focus session_at update get_session get_peer_index lookup reset_flags
    reset_numbers
start_session-IsStarted sv peer m k =
    let same = eq_self k in
    let same_peer = eq_self peer in
    record {
      id = refl;
      state = refl;
      served = rw same_peer refl;
      peer_index = rw same refl;
      numbers = refl;
      idle = (refl, refl, refl);
      others = λ j ne. rw ne refl;
      quiet = (refl, refl, refl);
    }

abbrev HasHeader : IncomingFixMessage → Type 0
HasHeader m = All (λ t. has_tag m t ≡ true) (8 ∷ 34 ∷ 49 ∷ 56 ∷ 35 ∷ [])

required_lem :
    (m : IncomingFixMessage)
    → (has_required_tags m ≡ true → HasHeader m) × (HasHeader m → has_required_tags m ≡ true)
unfolding has_required_tags
required_lem m = (λ h. ground (arith, h), λ h. ground (arith, h))

IsLogonFor-MayStart :
    (env : ServerEnvironment) (sv : FixServer) (m : IncomingFixMessage) (code k : ℕ)
    → (IsLogonFor env sv m code k → MayStart env sv m code k)
      × (MayStart env sv m code k → IsLogonFor env sv m code k)
IsLogonFor-MayStart env sv m code k = (
  λ h. record {
    well_formed = h.well_formed;
    tags = (required_lem m).1 h.tags;
    logon = h.logon;
    found = h.found;
    offline = h.offline;
    enabled = h.enabled;
    in_time = h.in_time;
  },
  λ h. record {
    well_formed = h.well_formed;
    tags = (required_lem m).0 h.tags;
    logon = h.logon;
    found = h.found;
    offline = h.offline;
    enabled = h.enabled;
    in_time = h.in_time;
  },
)

-- A peer without a session gets one exactly if its message was parsed without an error, has the five tags
-- of the header and the type of a logon, has the identifiers of a session of the server, and that session
-- is not live, is not disabled and is within its schedule. The session is then served by the peer and
-- pending its logon, no request is open, its numbers are zero if the logon asks for that and else
-- stay, nothing is sent or reported, and every other session stays. In every other case the connection
-- is closed, and nothing else changes.
pub accept_session_lem :
    (env : ServerEnvironment) (sv : FixServer) (peer : ℕ) (m : IncomingFixMessage) (code : ℕ)
    → get_session sv.connectors peer ≡ none
    → let (t, ok) = accept_session env sv peer m code in
      ((k : ℕ) × IsLogonFor env sv m code k
        × IsAddressed sv (identifiers_of m) k
        × (ok ≡ true)
        × IsStarted sv t peer m k)
      ⊎ (((k : ℕ) → ¬ IsLogonFor env sv m code k)
          × (ok ≡ false)
          × (t ≡ record sv { closed = some peer ∷ sv.closed }))
accept_session_lem env sv peer m code free = elim (accept_session-cases env sv peer m code free) [
  | inl (k, may, h) ↦ inl (
    k,
    (IsLogonFor-MayStart env sv m code k).1 may,
    elim (find_session_lem sv sv.sessions (identifiers_of m)) [
      | inl (j, g, there, addressed) ↦
          subst (IsAddressed sv (identifiers_of m)) (Option.some-injective j k (sym g ∙ may.found))
            addressed
      | inr (g, none_of) ↦ absurd (ground (arith, g, may.found))
    ],
    ap (λ r. r.1) h,
    subst (λ t. IsStarted sv t peer m k) (sym (ap (λ r. r.0) h))
        (start_session-IsStarted sv peer m k),
  )
  | inr (none_may, h) ↦ inr (
    λ k l. none_may k ((IsLogonFor-MayStart env sv m code k).0 l),
    ap (λ r. r.1) h,
    ap (λ r. r.0) h,
  )
]
