-- ===== src/Server/Acceptance.antt =====
-- Which sessions `accept_session` of include/llfix/fix_server.h accepts for a peer without one.
use llfix.Session.State.{is_state_live, ◌=state◌, disabled}
use llfix.Utilities.MessageType.{msg_type_logon}
use llfix.Server.Isolation.{on_client_disconnected-free}
use llfix.Server.Connectors.{get_session}
use llfix.Constants.{
  no_code, tag_begin_string, tag_target_comp_id, tag_sender_comp_id, tag_msg_type,
}
use llfix.StringView.{equals}
use llfix.Server.Send.{process_connection_closure}
use llfix.Server.Logon.{
  find_session, accept_session, start_session, accept_found, has_required_tags, is_acceptable,
  process_invalid_logon, is_now_valid,
}
use llfix.Server.{FixServer, ServerEnvironment, session_at, close_connection, focus}
use llfix.Message.{IncomingFixMessage, get_tag_value, get_tag_value_as_char}
use mathlib.Core.List.Memᴰ
use mathlib.Core.List.{Memᴰ}
use mathlib.Core.Option
use llfix.Common.{
  ℕ, Bool, true, false, refl, sym, ap, subst, inl, inr, Option, none, some, List, [], arith,
  Bool-cases, Option-cases, ◌≡◌, ◌⊎◌, ◌∙◌, ◌∷◌, ◌==◌,
}

-- The identifiers of a logon; the sender of the message is the target of the session.
pub record Identifiers : Type 0 where
  pub version : List ℕ
  pub sender : List ℕ
  pub target : List ℕ

abbrev pub identifiers_of : IncomingFixMessage → Identifiers
identifiers_of m = record {
  version = get_tag_value m tag_begin_string;
  sender = get_tag_value m tag_target_comp_id;
  target = get_tag_value m tag_sender_comp_id;
}

pub record IsAddressed (sv : FixServer) (i : Identifiers) (k : ℕ) : Type 0 where
  pub sender : equals (session_at sv k).session.settings.sender_comp_id i.sender ≡ true
  pub target : equals (session_at sv k).session.settings.target_comp_id i.target ≡ true
  pub version : equals (session_at sv k).session.settings.begin_string i.version ≡ true

abbrev pub find_by : FixServer → List ℕ → Identifiers → Option ℕ
find_by sv ks i = find_session sv ks i.version i.sender i.target

found-here :
    (sv : FixServer) (k : ℕ) (ks : List ℕ) (i : Identifiers)
    → ((find_by sv (k ∷ ks) i ≡ some k) × IsAddressed sv i k)
      ⊎ ((find_by sv (k ∷ ks) i ≡ find_by sv ks i) × ¬ IsAddressed sv i k)
unfolding find_session
found-here sv k ks i =
    let s = (session_at sv k).session.settings in
    elim (Bool-cases (equals s.sender_comp_id i.sender)) [
      | inr a ↦ inr (ground (arith, a), λ h. ground (arith, a, h.sender))
      | inl a ↦ elim (Bool-cases (equals s.target_comp_id i.target)) [
        | inr b ↦ inr (ground (arith, a, b), λ h. ground (arith, b, h.target))
        | inl b ↦ elim (Bool-cases (equals s.begin_string i.version)) [
          | inr c ↦ inr (ground (arith, a, b, c), λ h. ground (arith, c, h.version))
          | inl c ↦ inl (ground (arith, a, b, c), record { sender = a; target = b; version = c })
        ]
      ]
    ]

-- The session that is found is one of the server's with the identifiers of the message, and where none is
-- found no session of the server has them.
pub find_session_lem :
    (sv : FixServer) (ks : List ℕ) (i : Identifiers)
    → ((k : ℕ) × (find_by sv ks i ≡ some k) × Memᴰ k ks × IsAddressed sv i k)
      ⊎ ((find_by sv ks i ≡ none) × ((k : ℕ) → Memᴰ k ks → ¬ IsAddressed sv i k))
unfolding find_session
find_session_lem sv [] i = inr (refl, λ k m. elim (Memᴰ.not-nil m) [ ])
find_session_lem sv (k ∷ ks) i = elim (found-here sv k ks i) [
  | inl (f, h) ↦ inl (k, f, Memᴰ.head refl, h)
  | inr (f, other) ↦ elim (find_session_lem sv ks i) [
    | inl (j, g, m, h) ↦ inl (j, f ∙ g, Memᴰ.tail m, h)
    | inr (g, none_of) ↦ inr (
      f ∙ g,
      λ j m h. elim (Memᴰ.cases_cons m) [
        | inl e ↦ other (subst (IsAddressed sv i) e h)
        | inr n ↦ none_of j n h
      ],
    )
  ]
]

-- The first message of a peer that may have the session `k`.
pub record MayStart (env : ServerEnvironment) (sv : FixServer) (m : IncomingFixMessage) (code k : ℕ)
    : Type 0 where
  pub well_formed : code ≡ no_code
  pub tags : has_required_tags m ≡ true
  pub logon : get_tag_value_as_char m tag_msg_type ≡ msg_type_logon
  pub found : find_by sv sv.sessions (identifiers_of m) ≡ some k
  pub offline : is_state_live (session_at sv k).session.state ≡ false
  pub enabled : ((session_at sv k).session.state =state disabled) ≡ false
  pub in_time : is_now_valid env sv (session_at sv k).session ≡ true

-- A server that closed the connection of a peer without a session, and that is otherwise unchanged.
abbrev pub turned_away : FixServer → ℕ → FixServer
turned_away sv peer = record sv { closed = some peer ∷ sv.closed }

abbrev pub Outcome :
    ServerEnvironment → FixServer → ℕ → IncomingFixMessage → ℕ → FixServer × Bool → Type 0
Outcome env sv peer m code r =
    ((k : ℕ) × MayStart env sv m code k × (r ≡ (start_session (focus sv k) peer m, true)))
    ⊎ (((k : ℕ) → ¬ MayStart env sv m code k) × (r ≡ (turned_away sv peer, false)))

process_invalid_logon-free :
    (env : ServerEnvironment) (sv : FixServer) (peer : ℕ)
    → get_session sv.connectors peer ≡ none
    → process_invalid_logon env sv peer ≡ turned_away sv peer
unfolding process_connection_closure close_connection
process_invalid_logon-free env sv peer free = on_client_disconnected-free sv peer free

-- No session may start, since the one that was found may not.
not-found :
    (env : ServerEnvironment) (sv : FixServer) (m : IncomingFixMessage) (code k : ℕ)
    → find_by sv sv.sessions (identifiers_of m) ≡ some k
    → ¬ MayStart env sv m code k
    → (j : ℕ) → ¬ MayStart env sv m code j
not-found env sv m code k found no_start j h =
    let same : j ≡ k = Option.some-injective j k (sym h.found ∙ found) in
    no_start (subst (MayStart env sv m code) same h)

accept_found_lem :
    (env : ServerEnvironment) (sv : FixServer) (peer : ℕ) (m : IncomingFixMessage) (code k : ℕ)
    → get_session sv.connectors peer ≡ none
    → code ≡ no_code
    → has_required_tags m ≡ true
    → get_tag_value_as_char m tag_msg_type ≡ msg_type_logon
    → find_by sv sv.sessions (identifiers_of m) ≡ some k
    → Outcome env sv peer m code (accept_found env sv peer m (some k))
unfolding accept_found is_acceptable
accept_found_lem env sv peer m code k free a b c d =
    let refused =
      ap (λ (t : FixServer). (t, false)) (process_invalid_logon-free env sv peer free) in
    let s = (session_at sv k).session in
    let no = not-found env sv m code k d in
    elim (Bool-cases (is_state_live s.state)) [
      | inl e ↦ inr (no (λ h. ground (arith, e, h.offline)), rw (e) refused)
      | inr e ↦ elim (Bool-cases (s.state =state disabled)) [
        | inl f ↦ inr (no (λ h. ground (arith, f, h.enabled)), rw (e, f) refused)
        | inr f ↦ elim (Bool-cases (is_now_valid env sv s)) [
          | inr g ↦ inr (no (λ h. ground (arith, g, h.in_time)), rw (e, f, g) refused)
          | inl g ↦ inl (
            k,
            record {
              well_formed = a;
              tags = b;
              logon = c;
              found = d;
              offline = e;
              enabled = f;
              in_time = g;
            },
            rw (e, f, g) refl,
          )
        ]
      ]
    ]

-- The two ways in which the code goes on with a peer without a session.
pub accept_session-cases :
    (env : ServerEnvironment) (sv : FixServer) (peer : ℕ) (m : IncomingFixMessage) (code : ℕ)
    → get_session sv.connectors peer ≡ none
    → Outcome env sv peer m code (accept_session env sv peer m code)
unfolding accept_session accept_found is_acceptable
accept_session-cases env sv peer m code free =
    let closed = process_invalid_logon-free env sv peer free in
    let refused = ap (λ (t : FixServer). (t, false)) closed in
    let i = identifiers_of m in
    elim (Bool-cases (code == no_code)) [
      | inr a ↦ inr (λ k h. ground (arith, a, h.well_formed), rw (a) refused)
      | inl a ↦ elim (Bool-cases (has_required_tags m)) [
        | inr b ↦ inr (λ k h. ground (arith, b, h.tags), rw (a, b) refused)
        | inl b ↦ elim (Bool-cases (get_tag_value_as_char m tag_msg_type == msg_type_logon)) [
          | inr c ↦ inr (λ k h. ground (arith, c, h.logon), rw (a, b, c) refused)
          | inl c ↦ elim (Option-cases (find_by sv sv.sessions i)) [
            | inl d ↦ inr (λ k h. ground (arith, d, h.found), rw (a, b, c, d) refused)
            | inr (k, d) ↦
                rw (a, b, c, d)
                  (accept_found_lem env sv peer m code k free (ground (arith, a)) b
                    (ground (arith, c)) d)
          ]
        ]
      ]
    ]
