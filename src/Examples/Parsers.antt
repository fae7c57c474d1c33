-- ===== src/Examples/Parsers.antt =====
-- Parsing, group specifications and loading at concrete inputs.
use llfix.Common.{ℕ, List, [], arith, ◌∷◌}
use llfix.Examples.Clients.{env, client}
use llfix.Examples.Sessions.{empty_message}
use llfix.GroupSpecs.{IncomingFixRepeatingGroupSpecs}
use llfix.Parser.{Parsing, start_parsing, process_messages}
use llfix.Parser.Runs.{Run, process_messages-Run}

abbrev pub specs : IncomingFixRepeatingGroupSpecs
specs = record { count_tags = []; repeating_group_tags = [] }

abbrev parsing : Parsing
parsing = start_parsing empty_message 0

process_messages-Run_example :
    Run env specs
      (b'8' ∷ b'=' ∷ b'F' ∷ 1 ∷ [])
      3
      client
      0
      (process_messages env specs 4 client (b'8' ∷ b'=' ∷ b'F' ∷ 1 ∷ []) 0 3)
process_messages-Run_example =
    process_messages-Run env specs 4 client (b'8' ∷ b'=' ∷ b'F' ∷ 1 ∷ []) 0 3 (omega arith)

abbrev heartbeat : List (ℕ × List ℕ)
heartbeat =
    (8, b'F' ∷ []) ∷ (9, b'5' ∷ []) ∷ (35, b'0' ∷ []) ∷ (34, b'7' ∷ []) ∷ (112, b'a' ∷ []) ∷ []
