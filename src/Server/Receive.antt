-- ===== src/Server/Receive.antt =====
-- process_rx_buffer of include/llfix/fix_server.h: the loop over the messages that a peer sent, each
-- parsed as the client parses it. The first message of a peer without a session has to be a logon.
use llfix.Message.{is_some}
use llfix.Session.State.{◌=state◌}
use llfix.Server.Dispatch.{process_incoming_fix_message}
use llfix.Utilities.Framing.{
  find_begin_string_position, find_delimiter_from_end, find_tag10_start_from_end,
}
use llfix.Server.Logon.{accept_session}
use llfix.Parser.{
  Rest, untouched, minimum_required_initial_buffer_for_parsing, kept, parse_message, start_parsing,
  emptied,
}
use llfix.GroupSpecs.{IncomingFixRepeatingGroupSpecs}
use llfix.Server.{
  ServerEnvironment, FixServer, IncomingFixMessage, focus, get_session, disconnected,
}
use llfix.Common.{
  ℕ, zero, suc, Bool, true, false, Option, none, some, List, ltb, if◌then◌else◌, length, take, drop,
  ◌+◌, ◌-◌, ◌==◌,
}

module _ (env : ServerEnvironment) (specs : IncomingFixRepeatingGroupSpecs) where
  abbrev pub take_message : FixServer → Bool → IncomingFixMessage → FixServer
  take_message sv known m =
      if known
      then record sv { incoming_fix_message = m }
      else record sv { unknown_fix_message = m }

  abbrev pub accept_if_unknown : FixServer → Bool → ℕ → IncomingFixMessage → ℕ → FixServer × Bool
  accept_if_unknown sv known peer_index m code =
      if known then (sv, true) else accept_session env sv peer_index m code

  -- What follows a message that was processed, up to the position `next`.
  unfoldable pub after_message :
      (FixServer → FixServer × Rest) → FixServer → List ℕ → ℕ → ℕ → FixServer × Rest
  after_message rest sv buffer next final =
      if sv.session.state =state disconnected
      then (sv, untouched)
      else if next == length buffer
      then (sv, emptied)
      else if ltb final next
      then (sv, kept (drop next buffer))
      else rest sv

  -- A message that ends at `e`; the flag says whether the peer has a session or got one.
  unfoldable pub process_message :
      (FixServer → FixServer × Rest)
      → FixServer
      → Bool
      → ℕ
      → List ℕ
      → ℕ
      → ℕ
      → ℕ
      → ℕ
      → FixServer × Rest
  unfolding after_message
  process_message rest sv false peer_index buffer start e code final = (sv, untouched)
  process_message rest sv true peer_index buffer start e code final =
      after_message rest
        (process_incoming_fix_message env sv peer_index (take (e + 1 - start) (drop start buffer))
          code)
        buffer (e + 1) final

  -- One round for each message; `known` says whether the peer has a session, which is then the one that
  -- is worked on.
  unfoldable pub process_messages : ℕ → FixServer → ℕ → Bool → List ℕ → ℕ → ℕ → FixServer × Rest
  unfolding process_message
  process_messages zero sv peer_index known buffer read_index final = (sv, untouched)
  process_messages (suc fuel) sv peer_index known buffer read_index final =
      elim (find_begin_string_position (drop read_index buffer)) [
        | none ↦ (sv, untouched)
        | some offset ↦
            (let start = read_index + offset in
              let m = if known then sv.incoming_fix_message else sv.unknown_fix_message in
              let (p, ended) =
                parse_message specs (start_parsing m start) start (drop start buffer) in
              let t = take_message sv known p.message in
              elim ended [
                | none ↦ (t, kept (drop start buffer))
                | some e ↦
                    (let (u, go_on) =
                        accept_if_unknown t known peer_index p.message p.parser_reject_code in
                      process_message
                        (λ v. process_messages fuel v peer_index true buffer (e + 1) final) u go_on
                        peer_index buffer start e p.parser_reject_code final)
              ])
      ]

  abbrev pub focus_if_known : FixServer → Option ℕ → FixServer
  focus_if_known sv none = sv
  focus_if_known sv (some k) = focus sv k

  unfoldable pub process_rx_buffer : FixServer → ℕ → List ℕ → FixServer × Rest
  unfolding process_messages
  process_rx_buffer sv peer_index buffer =
      if ltb (length buffer) minimum_required_initial_buffer_for_parsing
      then (sv, kept buffer)
      else elim (find_delimiter_from_end buffer) [
        | none ↦ (sv, kept buffer)
        | some index ↦ elim (find_tag10_start_from_end buffer index) [
          | none ↦ (sv, kept buffer)
          | some final ↦
              (let session = get_session sv.connectors peer_index in
                process_messages (length buffer) (focus_if_known sv session) peer_index
                  (is_some session) buffer 0 final)
        ]
      ]
