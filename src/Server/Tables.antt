-- ===== src/Server/Tables.antt =====
-- The two tables of FixServerConnectors of include/llfix/fix_server.h are inverse to each other.
use llfix.Server.Connectors.{
  lookup, FixServerConnectors, erase, put, get_session, get_peer_index, update, without_existing,
  remove,
}
use llfix.Common.{ℕ, refl, Option, none, some, List, [], arith, if◌then◌else◌, ◌≡◌, ◌∷◌, ◌==◌}

pub lookup-erase :
    (table : List (ℕ × ℕ)) (key k : ℕ)
    → lookup (erase table key) k ≡ (if key == k then none else lookup table k)
unfolding lookup erase
lookup-erase [] key k = ground arith
lookup-erase ((j, v) ∷ table) key k = ground (arith, lookup-erase table key k)

pub lookup-put :
    (table : List (ℕ × ℕ)) (key v k : ℕ)
    → lookup (put table key v) k ≡ (if key == k then some v else lookup table k)
unfolding lookup
lookup-put table key v k = ground (arith, lookup-erase table key k)

-- A peer serves a session exactly if the session is served by the peer.
pub record IsInverse (c : FixServerConnectors) : Type 0 where
  pub there : (p s : ℕ) → get_session c p ≡ some s → get_peer_index c s ≡ some p
  pub back : (p s : ℕ) → get_peer_index c s ≡ some p → get_session c p ≡ some s

module _ (c : FixServerConnectors) (peer session : ℕ) where
  update-there :
      (p s : ℕ) (existing : Option ℕ)
      → IsInverse c
      → get_peer_index c session ≡ existing
      → get_session (update c peer session) p ≡ some s
      → get_peer_index (update c peer session) s ≡ some p
  unfolding get_session get_peer_index update
  update-there p s existing inv served h =
      let peers = c.peer_index_session_table in
      let sessions = c.session_peer_index_table in
      let from = inv.there p s in
      let put_peer = λ (o : Option ℕ). lookup-put (without_existing peers o peer) peer session p in
      let put_session = lookup-put sessions session peer s in
      elim existing
          as (λ o.
            lookup sessions session ≡ o → get_peer_index (update c peer session) s ≡ some p) [
              | none ↦ λ e. ground (arith, put_peer none, put_session, from)
              | some q ↦
                  λ e. ground (arith, put_peer (some q), put_session, from, lookup-erase peers q p)
            ]
        served

  update-back :
      (p s : ℕ) (existing : Option ℕ)
      → IsInverse c
      → get_session c peer ≡ none
      → get_peer_index c session ≡ existing
      → get_peer_index (update c peer session) s ≡ some p
      → get_session (update c peer session) p ≡ some s
  unfolding get_session get_peer_index update
  update-back p s existing inv free served h =
      let peers = c.peer_index_session_table in
      let sessions = c.session_peer_index_table in
      let from = inv.back p s in
      let put_peer = λ (o : Option ℕ). lookup-put (without_existing peers o peer) peer session p in
      let put_session = lookup-put sessions session peer s in
      elim existing
          as (λ o. lookup sessions session ≡ o → get_session (update c peer session) p ≡ some s) [
            | none ↦ λ e. ground (arith, put_peer none, put_session, from)
            | some q ↦ λ e. ground (
              arith,
              put_peer (some q),
              put_session,
              from,
              inv.back q session,
              lookup-erase peers q p,
            )
          ]
        served

  update-peer :
      (s : ℕ)
      → get_peer_index (update c peer session) s
        ≡ (if session == s then some peer else get_peer_index c s)
  unfolding get_peer_index update
  update-peer s = lookup-put c.session_peer_index_table session peer s

  remove-peer :
      (s : ℕ)
      → get_peer_index (remove c peer session) s
        ≡ (if session == s then none else get_peer_index c s)
  unfolding get_peer_index remove
  remove-peer s = lookup-erase c.session_peer_index_table session s

  -- While the tables are inverse to each other, they stay so when a peer that serves no session logs on,
  -- also with a session that another peer served. The session is then served by that peer, and the peers
  -- of all other sessions are as before.
  pub update-IsInverse :
      IsInverse c
      → get_session c peer ≡ none
      → IsInverse (update c peer session)
        × ((s : ℕ)
            → get_peer_index (update c peer session) s
              ≡ (if session == s then some peer else get_peer_index c s))
  update-IsInverse inv free = (
    record {
      there = λ p s. update-there p s (get_peer_index c session) inv refl;
      back = λ p s. update-back p s (get_peer_index c session) inv free refl;
    },
    update-peer,
  )

  -- So too when a peer is lost with the session that it served, which no peer serves any more.
  pub remove-IsInverse :
      IsInverse c
      → get_session c peer ≡ some session
      → IsInverse (remove c peer session)
        × ((s : ℕ)
            → get_peer_index (remove c peer session) s
              ≡ (if session == s then none else get_peer_index c s))
  unfolding get_session get_peer_index remove
  remove-IsInverse inv served =
      let at_peer = lookup-erase c.peer_index_session_table peer in
      let at_session = lookup-erase c.session_peer_index_table session in
      (
        record {
          there = λ p s h.
              ground (arith, at_peer p, at_session s, inv.there p s, inv.there peer session);
          back = λ p s h.
              ground (arith, at_peer p, at_session s, inv.back p s, inv.there peer session);
        },
        remove-peer,
      )
