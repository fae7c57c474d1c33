-- ===== src/Server/Connectors.antt =====
-- FixServerConnectors of include/llfix/fix_server.h: which peer of the transport serves which session.
-- A session's address is a number, and the hash tables are lists of entries with one entry for a key.
use llfix.Common.{ℕ, Option, none, some, List, [], if◌then◌else◌, ◌∷◌, ◌==◌}

unfoldable pub lookup : List (ℕ × ℕ) → ℕ → Option ℕ
lookup [] key = none
lookup ((k, v) ∷ table) key = if k == key then some v else lookup table key

unfoldable pub erase : List (ℕ × ℕ) → ℕ → List (ℕ × ℕ)
erase [] key = []
erase ((k, v) ∷ table) key = let rest = erase table key in if k == key then rest else (k, v) ∷ rest

abbrev pub put : List (ℕ × ℕ) → ℕ → ℕ → List (ℕ × ℕ)
put table key value = (key, value) ∷ erase table key

pub record FixServerConnectors : Type 0 where
  pub peer_index_session_table : List (ℕ × ℕ)
  pub session_peer_index_table : List (ℕ × ℕ)

unfoldable pub get_session : FixServerConnectors → ℕ → Option ℕ
get_session c peer_index = lookup c.peer_index_session_table peer_index

-- None is the index -1.
unfoldable pub get_peer_index : FixServerConnectors → ℕ → Option ℕ
get_peer_index c session = lookup c.session_peer_index_table session

-- The peers without the one that served the session before, unless it is the same.
abbrev pub without_existing : List (ℕ × ℕ) → Option ℕ → ℕ → List (ℕ × ℕ)
without_existing peers none peer_index = peers
without_existing peers (some existing) peer_index =
    if existing == peer_index then peers else erase peers existing

unfoldable pub update : FixServerConnectors → ℕ → ℕ → FixServerConnectors
update c peer_index session = record {
  peer_index_session_table =
      put
        (without_existing c.peer_index_session_table (lookup c.session_peer_index_table session)
          peer_index)
        peer_index session;
  session_peer_index_table = put c.session_peer_index_table session peer_index;
}

unfoldable pub remove : FixServerConnectors → ℕ → ℕ → FixServerConnectors
remove c peer_index session = record {
  peer_index_session_table = erase c.peer_index_session_table peer_index;
  session_peer_index_table = erase c.session_peer_index_table session;
}
