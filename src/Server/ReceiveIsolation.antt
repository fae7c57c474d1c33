-- ===== src/Server/ReceiveIsolation.antt =====
-- The receive loop of include/llfix/fix_server.h works on one session alone.
use llfix.Server.Only.{Only, same-Only, focused-Only, start_session-IsOwn, started-Only}
use llfix.Message.{is_some}
use mathlib.Core.Option.{IsSome}
use llfix.Server.Acceptance.{accept_session-cases, find_by, identifiers_of, Identifiers}
use llfix.Server.Connectors.{get_session}
use llfix.Server.Logon.{start_session, accept_session, find_session, is_now_valid}
use llfix.Session.State.{◌=state◌, is_state_live, disabled}
use llfix.Utilities.Framing.{
  find_begin_string_position, find_delimiter_from_end, find_tag10_start_from_end,
}
use llfix.Server.WorkIsolation.{same-Isolated}
use llfix.Server.MessageIsolation.{process_incoming_fix_message-Isolated}
use llfix.Parser.{
  Rest, parse_message, start_parsing, kept, emptied, untouched,
  minimum_required_initial_buffer_for_parsing,
}
use llfix.Server.Receive.{
  after_message, process_message, process_messages, process_rx_buffer, focus_if_known,
}
use llfix.GroupSpecs.{IncomingFixRepeatingGroupSpecs}
use llfix.Server.Isolation.{Isolated, IsOwn, then-Isolated, kept-Isolated}
use llfix.Server.Tables.{IsInverse}
use llfix.Server.{FixServer, session_at, ServerEnvironment, disconnected, focus, IncomingFixMessage}
use mathlib.Core.Option
use llfix.Common.{
  if-case, option-case, zero, suc, ℕ, Bool, true, false, subst, Option, none, some, List,
  if◌then◌else◌, take, drop, ◌+◌, ◌-◌, ◌≡◌, ◌==◌, ltb, refl, length, inr, arith, inl, ◌∙◌, ◌⊎◌, sym,
  ◌∷◌, [],
}

module _ (env : ServerEnvironment) (specs : IncomingFixRepeatingGroupSpecs) (sv : FixServer) where
  after_message-Isolated :
      (rest : FixServer → FixServer × Rest) (v : FixServer) (buffer : List ℕ) (next final : ℕ)
      → Isolated sv v
      → Isolated sv ((rest v).0)
      → Isolated sv ((after_message env specs rest v buffer next final).0)
  unfolding after_message
  after_message-Isolated rest v buffer next final h r =
      let P = λ (x : FixServer × Rest). Isolated sv x.0 in
      let more = if ltb final next then (v, kept (drop next buffer)) else rest v in
      let next_one = if next == length buffer then (v, emptied) else more in
      if-case P (v.session.state =state disconnected) (v, untouched) next_one h
        (if-case P (next == length buffer) (v, emptied) more h
          (if-case P (ltb final next) (v, kept (drop next buffer)) (rest v) h r))

  process_message-Isolated :
      (rest : FixServer → FixServer × Rest) (u : FixServer) (go_on : Bool) (peer : ℕ)
      → (buffer : List ℕ) (start e code final : ℕ) → Isolated sv u
      → IsOwn u.connectors u.session_id peer
      → ((v : FixServer)
          → Isolated sv v
          → IsOwn v.connectors v.session_id peer
          → Isolated sv ((rest v).0))
      → Isolated sv ((process_message env specs rest u go_on peer buffer start e code final).0)
  unfolding process_message
  process_message-Isolated rest u false peer buffer start e code final h own r = h
  process_message-Isolated rest u true peer buffer start e code final h own r =
      let one =
        process_incoming_fix_message-Isolated env peer u (take (e + 1 - start) (drop start buffer))
          code h.inverse own in
      let all = then-Isolated sv u _ h one in
      after_message-Isolated rest _ buffer (e + 1) final all (r _ all (one.own peer own))

module _ (env : ServerEnvironment) (specs : IncomingFixRepeatingGroupSpecs) (peer : ℕ) where
  known-Isolated :
      (fuel : ℕ) (sv : FixServer) (buffer : List ℕ) (read_index final : ℕ)
      → IsInverse sv.connectors
      → IsOwn sv.connectors sv.session_id peer
      → Isolated sv ((process_messages env specs fuel sv peer true buffer read_index final).0)
  unfolding process_messages
  known-Isolated zero sv buffer read_index final inv own = same-Isolated sv inv
  known-Isolated (suc fuel) sv buffer read_index final inv own =
      let P = λ (x : FixServer × Rest). Isolated sv x.0 in
      option-case P (find_begin_string_position (drop read_index buffer)) _ _ (same-Isolated sv inv)
        (λ offset.
          (let start = read_index + offset in
            let r =
              parse_message specs (start_parsing sv.incoming_fix_message start) start
                (drop start buffer) in
            let t = record sv { incoming_fix_message = r.0.message } in
            let first = kept-Isolated sv t inv refl refl refl in
            option-case P r.1 _ _ first (λ e.
              process_message-Isolated env specs sv
                (λ v. process_messages env specs fuel v peer true buffer (e + 1) final) t true peer
                buffer start e r.0.parser_reject_code final first own
                (λ v h o.
                  then-Isolated sv v _ h
                    (known-Isolated fuel v buffer (e + 1) final h.inverse o)))))

-- What becomes of the sessions when a peer without one sends bytes: none changes, or the one that changes
-- has the identifiers of a message and was neither live nor disabled, but within its schedule.
abbrev pub IsGuarded : ServerEnvironment → FixServer → FixServer → Type 0
IsGuarded env sv t =
    ((j : ℕ) → session_at t j ≡ session_at sv j)
    ⊎ ((m : IncomingFixMessage) × (find_by sv sv.sessions (identifiers_of m) ≡ some t.session_id)
        × (is_state_live (session_at sv t.session_id).session.state ≡ false)
        × (((session_at sv t.session_id).session.state =state disabled) ≡ false)
        × (is_now_valid env sv (session_at sv t.session_id).session ≡ true))

abbrev Guarded : ServerEnvironment → FixServer → FixServer → Type 0
Guarded env sv t = Only sv t × IsGuarded env sv t

-- The message of the unknown peer has no part in the search for a session.
find_by-unknown :
    (sv : FixServer) (m : IncomingFixMessage) (ks : List ℕ) (i : Identifiers)
    → find_by (record sv { unknown_fix_message = m }) ks i ≡ find_by sv ks i
unfolding find_session session_at
find_by-unknown sv m [] i = refl
find_by-unknown sv m (k ∷ ks) i = rw (find_by-unknown sv m ks i) refl

same-Guarded :
    (env : ServerEnvironment) (sv : FixServer) (m : IncomingFixMessage)
    → IsInverse sv.connectors
    → Guarded env sv (record sv { unknown_fix_message = m })
unfolding session_at
same-Guarded env sv m inv = (same-Only sv _ refl refl refl inv, inl (λ j. refl))

module _ (env : ServerEnvironment) (specs : IncomingFixRepeatingGroupSpecs) (peer : ℕ) where
  first_message-Only :
      (rest : FixServer → FixServer × Rest) (sv : FixServer) (m : IncomingFixMessage) (code : ℕ)
      → (buffer : List ℕ) (start e final : ℕ) → IsInverse sv.connectors
      → get_session sv.connectors peer ≡ none
      → ((v : FixServer)
          → IsInverse v.connectors
          → IsOwn v.connectors v.session_id peer
          → Isolated v ((rest v).0))
      → let t = record sv { unknown_fix_message = m } in
        let r = accept_session env t peer m code in
        Guarded env sv ((process_message env specs rest r.0 r.1 peer buffer start e code final).0)
  unfolding process_message session_at focus start_session
  first_message-Only rest sv m code buffer start e final inv free r =
      let t = record sv { unknown_fix_message = m } in
      elim (accept_session-cases env t peer m code free) [
        | inr (none_may, h) ↦ rw h (same-Only sv _ refl refl refl inv, inl (λ j. refl))
        | inl (k, may, h) ↦
            (let u = start_session (focus t k) peer m in
              let (inv', own) = start_session-IsOwn (focus t k) peer m inv free in
              let all =
                process_message-Isolated env specs u rest u true peer buffer start e code final
                  (same-Isolated u inv') own (λ v i o. then-Isolated u v _ i (r v i.inverse o)) in
              let only = started-Only t k peer m inv free _ all in
              let (found, offline, enabled, in_time) =
                subst
                  (λ x.
                    (find_by sv sv.sessions (identifiers_of m) ≡ some x)
                    × (is_state_live (session_at sv x).session.state ≡ false)
                    × (((session_at sv x).session.state =state disabled) ≡ false)
                    × (is_now_valid env sv (session_at sv x).session ≡ true))
                  (sym all.id)
                  (
                    sym (find_by-unknown sv m sv.sessions (identifiers_of m)) ∙ may.found,
                    may.offline,
                    may.enabled,
                    may.in_time,
                  ) in
              rw h (
                record { others = only.others; inverse = only.inverse },
                inr (m, found, offline, enabled, in_time),
              ))
      ]

  unknown-Only :
      (fuel : ℕ) (sv : FixServer) (buffer : List ℕ) (read_index final : ℕ)
      → IsInverse sv.connectors
      → get_session sv.connectors peer ≡ none
      → Guarded env sv ((process_messages env specs fuel sv peer false buffer read_index final).0)
  unfolding process_messages
  unknown-Only zero sv buffer read_index final inv free =
      same-Guarded env sv sv.unknown_fix_message inv
  unknown-Only (suc fuel) sv buffer read_index final inv free =
      let P = λ (x : FixServer × Rest). Guarded env sv x.0 in
      option-case P (find_begin_string_position (drop read_index buffer)) _ _
        (same-Guarded env sv sv.unknown_fix_message inv)
        (λ offset.
          (let start = read_index + offset in
            let r =
              parse_message specs (start_parsing sv.unknown_fix_message start) start
                (drop start buffer) in
            option-case P r.1 _ _ (same-Guarded env sv _ inv) (λ e.
              first_message-Only
                (λ v. process_messages env specs fuel v peer true buffer (e + 1) final) sv
                r.0.message r.0.parser_reject_code buffer start e final inv free
                (λ v i o. known-Isolated env specs peer fuel v buffer (e + 1) final i o))))

served-Only :
    (env : ServerEnvironment) (specs : IncomingFixRepeatingGroupSpecs) (sv : FixServer)
    → (peer fuel final : ℕ) (buffer : List ℕ) (o : Option ℕ) → IsInverse sv.connectors
    → get_session sv.connectors peer ≡ o
    → let u = focus_if_known env specs sv o in
      let t = (process_messages env specs fuel u peer (is_some o) buffer 0 final).0 in
      Only sv t × (o ≡ none → IsGuarded env sv t) × ((k : ℕ) → o ≡ some k → t.session_id ≡ k)
unfolding focus
served-Only env specs sv peer fuel final buffer none inv e =
    (let (only, guarded) = unknown-Only env specs peer fuel sv buffer 0 final inv e in
      (only, λ n. guarded, λ k h. ground (arith, h)))
served-Only env specs sv peer fuel final buffer (some k) inv e =
    let i = known-Isolated env specs peer fuel (focus sv k) buffer 0 final inv (inr e) in
    (focused-Only sv k _ i, λ n. ground (arith, n), λ j h. i.id ∙ Option.some-injective k j h)

-- The sessions but one.
abbrev pub AllBut : FixServer → FixServer → ℕ → Type 0
AllBut sv t k = (j : ℕ) → (j == k) ≡ false → session_at t j ≡ session_at sv j

-- While the tables of peers and sessions are inverse to each other, they stay so whatever bytes a peer
-- sends, and at most one session of the server changes. For a peer that has a session it is that one.
-- For a peer without one it is a session that is found by the identifiers of a message and that was
-- neither live nor disabled, but within its schedule, if any session changes at all.
pub process_rx_buffer-Only :
    (env : ServerEnvironment) (specs : IncomingFixRepeatingGroupSpecs) (sv : FixServer)
    → (peer : ℕ) (buffer : List ℕ) → IsInverse sv.connectors
    → let t = (process_rx_buffer env specs sv peer buffer).0 in
      IsInverse t.connectors
      × AllBut sv t t.session_id
      × (get_session sv.connectors peer ≡ none → IsGuarded env sv t)
      × ((k : ℕ) → get_session sv.connectors peer ≡ some k → AllBut sv t k)
unfolding process_rx_buffer
process_rx_buffer-Only env specs sv peer buffer inv =
    let Q = λ (x : FixServer × Rest).
      IsInverse x.0.connectors
      × AllBut sv x.0 x.0.session_id
      × (get_session sv.connectors peer ≡ none → IsGuarded env sv x.0)
      × ((k : ℕ) → get_session sv.connectors peer ≡ some k → AllBut sv x.0 k) in
    let idle : (r : Rest) → Q (sv, r) =
      λ r. (inv, (λ j ne. refl), (λ n. inl (λ j. refl)), λ k h j ne. refl) in
    if-case Q (ltb (length buffer) minimum_required_initial_buffer_for_parsing) _ _
      (idle (kept buffer))
      (option-case Q (find_delimiter_from_end buffer) _ _ (idle (kept buffer)) (λ index.
        option-case Q (find_tag10_start_from_end buffer index) _ _ (idle (kept buffer)) (λ final.
          (let (only, guarded, id) =
              served-Only env specs sv peer (length buffer) final buffer _ inv refl in
            (
              only.inverse,
              only.others,
              guarded,
              λ k h. subst (AllBut sv _) (id k h) only.others,
            )))))
