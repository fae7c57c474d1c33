-- ===== src/Server/Runs.antt =====
-- The receive loop of include/llfix/fix_server.h as a run over the messages of a peer.
use llfix.Session.State.{◌=state◌}
use llfix.Parser.Rounds.{parse_message-Within, drop-all}
use llfix.Parser.{Rest, Parsing, parse_message, start_parsing, kept, emptied, untouched}
use llfix.Utilities.Framing.{find_begin_string_position}
use llfix.GroupSpecs.{IncomingFixRepeatingGroupSpecs}
use llfix.Server.Dispatch.{process_incoming_fix_message}
use llfix.Server.Logon.{accept_session}
use llfix.Server.Receive.{process_message, process_messages, after_message}
use llfix.Server.{ServerEnvironment, FixServer, disconnected}
use llfix.Common.{
  ℕ, zero, suc, Bool, true, false, refl, inl, inr, Option, none, some, List, [], arith, ltb,
  if◌then◌else◌, length, take, drop, Bool-cases, Option-cases, ◌+◌, ◌-◌, ◌≤◌, ◌<◌, ◌≡◌, ◌≢◌, ◌==◌,
}

module _ (env : ServerEnvironment) (specs : IncomingFixRepeatingGroupSpecs) (peer : ℕ)
    (buffer : List ℕ) where
  -- The parser's result for the next message from `r` on, which starts behind `offset` bytes. The message
  -- of a peer without a session goes to the message of the context.
  abbrev pub parsed : FixServer → Bool → ℕ → ℕ → Parsing × Option ℕ
  parsed sv known r offset =
      let start = r + offset in
      let m = if known then sv.incoming_fix_message else sv.unknown_fix_message in
      parse_message specs (start_parsing m start) start (drop start buffer)

  abbrev pub with_message : FixServer → Bool → Parsing → FixServer
  with_message sv known p =
      if known
      then record sv { incoming_fix_message = p.message }
      else record sv { unknown_fix_message = p.message }

  -- The server that goes on with the message, and whether the peer has a session then.
  abbrev pub admitted : FixServer → Bool → ℕ → ℕ → FixServer × Bool
  admitted sv known r offset =
      let p = (parsed sv known r offset).0 in
      let t = with_message sv known p in
      if known then (t, true) else accept_session env t peer p.message p.parser_reject_code

  -- The next message from `r` on ends at `e`.
  pub record IsFound (sv : FixServer) (known : Bool) (r offset e : ℕ) : Type 0 where
    pub found : find_begin_string_position (drop r buffer) ≡ some offset
    pub ended : (parsed sv known r offset).1 ≡ some e

  -- The message was processed for a peer that had a session or got one, which led to `u`.
  pub record IsProcessed (sv : FixServer) (known : Bool) (r e : ℕ) (u : FixServer) : Type 0 where
    pub offset : ℕ
    pub message : IsFound sv known r offset e
    pub served : (admitted sv known r offset).1 ≡ true
    pub result :
        u
        ≡ process_incoming_fix_message env
            (admitted sv known r offset).0
            peer
            (take (e + 1 - (r + offset)) (drop (r + offset) buffer))
            (parsed sv known r offset).0.parser_reject_code

  -- The complete runs from `r` on, and what they leave. A run ends only where no further message begins,
  -- where the last one is incomplete, where a peer gets no session, where the session was
  -- disconnected, at the end of the buffer, or behind the last position at which a message ends.
  pub data Run (final : ℕ) : FixServer → Bool → ℕ → FixServer × Rest → Type 0 where
    nothing :
        {sv : FixServer} {known : Bool} {r : ℕ}
        → find_begin_string_position (drop r buffer) ≡ none
        → Run final sv known r (sv, untouched)
    incomplete :
        {sv : FixServer} {known : Bool} {r offset : ℕ}
        → find_begin_string_position (drop r buffer) ≡ some offset
        → (parsed sv known r offset).1 ≡ none
        → Run final sv known r
            (with_message sv known (parsed sv known r offset).0, kept (drop (r + offset) buffer))
    refused :
        {sv : FixServer} {known : Bool} {r offset e : ℕ}
        → IsFound sv known r offset e
        → (admitted sv known r offset).1 ≡ false
        → Run final sv known r ((admitted sv known r offset).0, untouched)
    dropped :
        {sv u : FixServer} {known : Bool} {r e : ℕ}
        → IsProcessed sv known r e u
        → (u.session.state =state disconnected) ≡ true
        → Run final sv known r (u, untouched)
    at_end :
        {sv u : FixServer} {known : Bool} {r e : ℕ}
        → IsProcessed sv known r e u
        → (u.session.state =state disconnected) ≡ false
        → e + 1 ≡ length buffer
        → Run final sv known r (u, emptied)
    behind :
        {sv u : FixServer} {known : Bool} {r e : ℕ}
        → IsProcessed sv known r e u
        → (u.session.state =state disconnected) ≡ false
        → e + 1 ≢ length buffer
        → final < e + 1
        → Run final sv known r (u, kept (drop (e + 1) buffer))
    next :
        {sv u : FixServer} {known : Bool} {r e : ℕ} {x : FixServer × Rest}
        → IsProcessed sv known r e u
        → (u.session.state =state disconnected) ≡ false
        → e + 1 ≢ length buffer
        → e + 1 ≤ final
        → Run final u true (e + 1) x
        → Run final sv known r x

  after_message-Run :
      (rest : FixServer → FixServer × Rest) (sv u : FixServer) (known : Bool) (r e final : ℕ)
      → IsProcessed sv known r e u
      → Run final u true (e + 1) (rest u)
      → Run final sv known r (after_message env specs rest u buffer (e + 1) final)
  unfolding after_message
  after_message-Run rest sv u known r e final h more =
      elim (Bool-cases (u.session.state =state disconnected)) [
        | inl d ↦ rw d (dropped h d)
        | inr d ↦ elim (Bool-cases (e + 1 == length buffer)) [
          | inl last ↦ rw (d, last) (at_end h d (ground (arith, last)))
          | inr left ↦ elim (Bool-cases (ltb final (e + 1))) [
            | inl b ↦
                rw (d, left, b) (behind h d (λ q. ground (arith, left, q)) (ground (arith, b)))
            | inr b ↦
                rw (d, left, b) (next h d (λ q. ground (arith, left, q)) (ground (arith, b)) more)
          ]
        ]
      ]

  process_message-Run :
      (rest : FixServer → FixServer × Rest) (sv : FixServer) (known : Bool) (r offset e final : ℕ)
      → IsFound sv known r offset e
      → ((u : FixServer) → Run final u true (e + 1) (rest u))
      → Run final sv known r (
          process_message env specs rest
            (admitted sv known r offset).0
            (admitted sv known r offset).1
            peer
            buffer
            (r + offset)
            e
            (parsed sv known r offset).0.parser_reject_code
            final)
  unfolding process_message
  process_message-Run rest sv known r offset e final h more =
      elim (Bool-cases (admitted sv known r offset).1) [
        | inl a ↦ rw a (
            after_message-Run rest sv _ known r e final
              (record { offset = offset; message = h; served = a; result = refl }) (more _))
        | inr a ↦ rw a (refused h a)
      ]

-- With as many rounds as there are bytes left, the receive loop is a complete run: it processes one message
-- after the other, each parsed from where the last one ended and the first one of a peer without a
-- session only if it gets one, and stops only where no further message begins, where the last one is
-- incomplete, where a peer gets no session, when the session was disconnected, at the end of the
-- buffer, or behind the last position at which a message ends.
pub server_messages-Run :
    (env : ServerEnvironment) (specs : IncomingFixRepeatingGroupSpecs) (fuel : ℕ) (sv : FixServer)
    (peer : ℕ) (known : Bool) (buffer : List ℕ) (r final : ℕ)
    → length buffer ≤ r + fuel
    → Run env specs peer buffer final sv known r
        (process_messages env specs fuel sv peer known buffer r final)
unfolding process_messages find_begin_string_position
server_messages-Run env specs zero sv peer known buffer r final h =
    let e : drop r buffer ≡ [] = drop-all r buffer (omega arith) in nothing (rw e refl)
server_messages-Run env specs (suc fuel) sv peer known buffer r final h =
    elim (Option-cases (find_begin_string_position (drop r buffer))) [
      | inl q ↦ rw (process_messages, q) (nothing q)
      | inr (offset, q) ↦ elim (Option-cases (parsed env specs peer buffer sv known r offset).1) [
        | inl p ↦ rw (process_messages, q, p) (incomplete q p)
        | inr (e, p) ↦
            (let (low, high) = parse_message-Within specs _ _ (r + offset) e p in
              rw (process_messages, q, p)
                (process_message-Run env specs peer buffer
                  (λ v. process_messages env specs fuel v peer true buffer (e + 1) final) sv known r
                  offset e final (record { found = q; ended = p })
                  (λ u.
                    server_messages-Run env specs fuel u peer true buffer (e + 1) final
                      (omega arith))))
      ]
    ]
