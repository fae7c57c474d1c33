-- ===== src/Server/Isolation.antt =====
-- What the work on one session of include/llfix/fix_server.h leaves alone: the other sessions, and the
-- peers that serve them.
use llfix.Server.Connectors.{
  get_session, get_peer_index, remove, lookup, erase, FixServerConnectors,
}
use llfix.Server.Tables.{IsInverse, remove-IsInverse, lookup-erase}
use llfix.Server.{
  FixServer, on_client_disconnected, disconnect_session, set_server_state, peer_of,
  close_connection, disconnected,
}
use llfix.Common.{
  eq_self, ℕ, false, refl, sym, ap, subst, inl, inr, none, some, arith, Bool-cases, Option-cases,
  ◌≡◌, ◌⊎◌, ◌∙◌, ◌∷◌, ◌==◌,
}

-- The peer serves the session, or none.
abbrev pub IsOwn : FixServerConnectors → ℕ → ℕ → Type 0
IsOwn c id p = (get_session c p ≡ none) ⊎ (get_session c p ≡ some id)

pub record Isolated (sv t : FixServer) : Type 0 where
  pub id : t.session_id ≡ sv.session_id
  pub others : (k : ℕ) → (k == sv.session_id) ≡ false → t.stored k ≡ sv.stored k
  pub peers :
      (k : ℕ)
      → (k == sv.session_id) ≡ false
      → get_peer_index t.connectors k ≡ get_peer_index sv.connectors k
  pub own : (p : ℕ) → IsOwn sv.connectors sv.session_id p → IsOwn t.connectors t.session_id p
  pub inverse : IsInverse t.connectors

-- Steps that change neither the store nor the tables.
pub kept-Isolated :
    (sv t : FixServer)
    → IsInverse sv.connectors
    → t.session_id ≡ sv.session_id
    → t.stored ≡ sv.stored
    → t.connectors ≡ sv.connectors
    → Isolated sv t
kept-Isolated sv t inv i s c = record {
  id = i;
  others = λ k ne. ap (λ f. f k) s;
  peers = λ k ne. ap (λ d. get_peer_index d k) c;
  own = λ p h.
      subst (λ d. IsOwn d t.session_id p) (sym c) (subst (λ j. IsOwn sv.connectors j p) (sym i) h);
  inverse = subst IsInverse (sym c) inv;
}

pub then-Isolated : (sv t u : FixServer) → Isolated sv t → Isolated t u → Isolated sv u
then-Isolated sv t u a b = record {
  id = b.id ∙ a.id;
  others = λ k ne. b.others k (subst (λ j. (k == j) ≡ false) (sym a.id) ne) ∙ a.others k ne;
  peers = λ k ne. b.peers k (subst (λ j. (k == j) ≡ false) (sym a.id) ne) ∙ a.peers k ne;
  own = λ p h. b.own p (a.own p h);
  inverse = b.inverse;
}

remove-IsOwn : (c : FixServerConnectors) (id p q : ℕ) → IsOwn c id q → IsOwn (remove c p id) id q
unfolding get_session remove
remove-IsOwn c id p q h =
    let e = lookup-erase c.peer_index_session_table p q in
    elim (Bool-cases (p == q)) [
      | inl b ↦ inl (ground (arith, e))
      | inr b ↦
          (let keep : lookup (erase c.peer_index_session_table p) q
                ≡ lookup c.peer_index_session_table q =
              ground (arith, e) in
            elim h [ inl f ↦ inl (keep ∙ f) | inr f ↦ inr (keep ∙ f) ])
    ]

-- The server after the loss of a peer that serves the session.
abbrev pub lost_own : FixServer → ℕ → FixServer
lost_own sv p =
    let t = set_server_state (record sv { closed = some p ∷ sv.closed }) disconnected in
    record t { connectors = remove sv.connectors p sv.session_id }

pub on_client_disconnected-own :
    (sv : FixServer) (p : ℕ)
    → get_session sv.connectors p ≡ some sv.session_id
    → on_client_disconnected sv p ≡ lost_own sv p
unfolding on_client_disconnected disconnect_session
on_client_disconnected-own sv p served =
    rw (served, on_client_disconnected, eq_self sv.session_id) refl

pub on_client_disconnected-free :
    (sv : FixServer) (p : ℕ)
    → get_session sv.connectors p ≡ none
    → on_client_disconnected sv p ≡ record sv { closed = some p ∷ sv.closed }
unfolding on_client_disconnected
on_client_disconnected-free sv p free = rw (free, on_client_disconnected) refl

pub on_client_disconnected-Isolated :
    (sv : FixServer) (p : ℕ)
    → IsInverse sv.connectors
    → IsOwn sv.connectors sv.session_id p
    → Isolated sv (on_client_disconnected sv p)
on_client_disconnected-Isolated sv p inv (inl free) =
    rw (on_client_disconnected-free sv p free) (kept-Isolated sv _ inv refl refl refl)
on_client_disconnected-Isolated sv p inv (inr served) =
    let (inv', peers) = remove-IsInverse sv.connectors p sv.session_id inv served in
    rw (on_client_disconnected-own sv p served) (record {
      id = refl;
      others = λ k ne. refl;
      peers = λ k ne. (let q = peers k in ground (arith, q));
      own = λ q h. remove-IsOwn sv.connectors sv.session_id p q h;
      inverse = inv';
    })

-- The peer of the session is its own.
pub peer_of-IsOwn :
    (sv : FixServer) (p : ℕ)
    → IsInverse sv.connectors
    → peer_of sv ≡ some p
    → IsOwn sv.connectors sv.session_id p
peer_of-IsOwn sv p inv h = inr (inv.back p sv.session_id h)

pub close_connection-Isolated :
    (sv : FixServer) → IsInverse sv.connectors → Isolated sv (close_connection sv (peer_of sv))
unfolding close_connection
close_connection-Isolated sv inv = elim (Option-cases (peer_of sv)) [
  | inl h ↦ rw (h, close_connection) (kept-Isolated sv _ inv refl refl refl)
  | inr (p, h) ↦
      rw (h, close_connection) (on_client_disconnected-Isolated sv p inv (peer_of-IsOwn sv p inv h))
]
