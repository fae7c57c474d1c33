-- ===== src/Parser/Runs.antt =====
-- The outer loop of process_rx_buffer of include/llfix/fix_client.h as a run over the messages.
use llfix.Session.State.{◌=state◌}
use llfix.Parser.{
  process_messages, Parsing, Rest, parse_message, untouched, ◌=state◌, start_parsing, kept,
  disconnected, emptied,
}
use llfix.GroupSpecs.{IncomingFixRepeatingGroupSpecs}
use llfix.Utilities.Framing.{find_begin_string_position}
use llfix.Client.Dispatch.{process_incoming_fix_message}
use llfix.Client.{Environment, FixClient}
use llfix.Parser.Rounds.{parse_message-Within, drop-all}
use llfix.Common.{
  ℕ, zero, suc, true, false, refl, inl, inr, Option, none, some, List, [], arith, ltb,
  if◌then◌else◌, length, take, drop, Bool-cases, Option-cases, ℕ, zero, suc, ◌+◌, ◌-◌, ◌≤◌, ◌<◌,
  ◌≡◌, ◌≢◌, ◌==◌,
}

module _ (env : Environment) (specs : IncomingFixRepeatingGroupSpecs) (buffer : List ℕ) where
  -- The next message from `r` on starts behind `offset` bytes, and the parser's result for it.
  abbrev pub parsed : FixClient → ℕ → ℕ → Parsing × Option ℕ
  parsed c r offset =
      let start = r + offset in
      parse_message specs (start_parsing c.incoming_fix_message start) start (drop start buffer)

  -- The next message from `r` on ends at `e`, and `u` is the client that has processed it.
  pub record IsProcessed (c : FixClient) (r e : ℕ) (u : FixClient) : Type 0 where
    pub offset : ℕ
    pub found : find_begin_string_position (drop r buffer) ≡ some offset
    pub ended : (parsed c r offset).1 ≡ some e
    pub result : u ≡ (
        let p = (parsed c r offset).0 in
        process_incoming_fix_message env
          (record c { incoming_fix_message = p.message })
          p.message
          (take (e + 1 - (r + offset)) (drop (r + offset) buffer))
          p.parser_reject_code)

  -- The complete runs from `r` on, and what they leave. A run ends only where no further message begins,
  -- where the last one is incomplete, where the session was disconnected, at the end of the buffer, or
  -- behind the last position at which a message ends.
  pub data Run (final : ℕ) : FixClient → ℕ → FixClient × Rest → Type 0 where
    nothing :
        {c : FixClient} {r : ℕ}
        → find_begin_string_position (drop r buffer) ≡ none
        → Run final c r (c, untouched)
    incomplete :
        {c : FixClient} {r offset : ℕ}
        → find_begin_string_position (drop r buffer) ≡ some offset
        → (parsed c r offset).1 ≡ none
        → Run final c r (
          record c { incoming_fix_message = (parsed c r offset).0.message },
          kept (drop (r + offset) buffer),
        )
    dropped :
        {c u : FixClient} {r e : ℕ}
        → IsProcessed c r e u
        → (u.session.state =state disconnected) ≡ true
        → Run final c r (u, untouched)
    at_end :
        {c u : FixClient} {r e : ℕ}
        → IsProcessed c r e u
        → (u.session.state =state disconnected) ≡ false
        → e + 1 ≡ length buffer
        → Run final c r (u, emptied)
    behind :
        {c u : FixClient} {r e : ℕ}
        → IsProcessed c r e u
        → (u.session.state =state disconnected) ≡ false
        → e + 1 ≢ length buffer
        → final < e + 1
        → Run final c r (u, kept (drop (e + 1) buffer))
    next :
        {c u : FixClient} {r e : ℕ} {x : FixClient × Rest}
        → IsProcessed c r e u
        → (u.session.state =state disconnected) ≡ false
        → e + 1 ≢ length buffer
        → e + 1 ≤ final
        → Run final u (e + 1) x
        → Run final c r x

  after_processed :
      (c u : FixClient) (r e final : ℕ) (x : FixClient × Rest)
      → IsProcessed c r e u
      → Run final u (e + 1) x
      → Run final c r (
          if u.session.state =state disconnected
          then (u, untouched)
          else if e + 1 == length buffer
          then (u, emptied)
          else if ltb final (e + 1)
          then (u, kept (drop (e + 1) buffer))
          else x)
  after_processed c u r e final x h more = elim (Bool-cases (u.session.state =state disconnected)) [
    | inl d ↦ rw d (dropped h d)
    | inr d ↦ elim (Bool-cases (e + 1 == length buffer)) [
      | inl last ↦ rw (d, last) (at_end h d (ground (arith, last)))
      | inr more_bytes ↦ elim (Bool-cases (ltb final (e + 1))) [
        | inl b ↦
            rw (d, more_bytes, b)
              (behind h d (λ q. ground (arith, more_bytes, q)) (ground (arith, b)))
        | inr b ↦
            rw (d, more_bytes, b)
              (next h d (λ q. ground (arith, more_bytes, q)) (ground (arith, b)) more)
      ]
    ]
  ]

-- With as many rounds as there are bytes left, the outer loop is a complete run: it processes one message
-- after the other, each parsed from where the last one ended, and stops only where no further message
-- begins, where the last one is incomplete, when the session was disconnected, at the end of the
-- buffer, or behind the last position at which a message ends.
pub process_messages-Run :
    (env : Environment) (specs : IncomingFixRepeatingGroupSpecs) (fuel : ℕ) (c : FixClient)
    (buffer : List ℕ) (r final : ℕ)
    → length buffer ≤ r + fuel
    → Run env specs buffer final c r (process_messages env specs fuel c buffer r final)
unfolding process_messages find_begin_string_position
process_messages-Run env specs zero c buffer r final h =
    let e : drop r buffer ≡ [] = drop-all r buffer (omega arith) in nothing (rw e refl)
process_messages-Run env specs (suc fuel) c buffer r final h =
    elim (Option-cases (find_begin_string_position (drop r buffer))) [
      | inl q ↦ rw (process_messages, q) (nothing q)
      | inr (offset, q) ↦ elim (Option-cases (parsed env specs buffer c r offset).1) [
        | inl p ↦ rw (process_messages, q, p) (incomplete q p)
        | inr (e, p) ↦
            (let (low, high) = parse_message-Within specs _ _ (r + offset) e p in
              rw (process_messages, q, p)
                (after_processed env specs buffer c _ r e final _
                  (record { offset = offset; found = q; ended = p; result = refl })
                  (process_messages-Run env specs fuel _ buffer (e + 1) final (omega arith))))
      ]
    ]
