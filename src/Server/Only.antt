-- ===== src/Server/Only.antt =====
-- A step of include/llfix/fix_server.h that changes at most the session that it ends on.
use llfix.Server.Connectors.{get_session}
use llfix.Server.Isolation.{Isolated, kept-Isolated, IsOwn}
use llfix.Server.Tables.{IsInverse, update-IsInverse}
use llfix.Server.Logon.{start_session}
use llfix.Server.{FixServer, session_at, IncomingFixMessage, focus}
use llfix.Common.{eq_self, ℕ, false, subst, inr, none, arith, ◌≡◌, ◌==◌}

pub record Only (sv t : FixServer) : Type 0 where
  pub others : (k : ℕ) → (k == t.session_id) ≡ false → session_at t k ≡ session_at sv k
  pub inverse : IsInverse t.connectors

pub Isolated-Only : (sv t : FixServer) → Isolated sv t → Only sv t
unfolding session_at
Isolated-Only sv t i = record {
  others = λ k ne.
      (let ne' : (k == sv.session_id) ≡ false = subst (λ j. (k == j) ≡ false) i.id ne in
        rw (ne, ne') (i.others k ne'));
  inverse = i.inverse;
}

pub start_session-IsOwn :
    (sv : FixServer) (peer : ℕ) (m : IncomingFixMessage)
    → IsInverse sv.connectors
    → get_session sv.connectors peer ≡ none
    → let t = start_session sv peer m in
      IsInverse t.connectors × IsOwn t.connectors t.session_id peer
unfolding start_session
start_session-IsOwn sv peer m inv free =
    let (inverse, peers) = update-IsInverse sv.connectors peer sv.session_id inv free in
    let here = peers sv.session_id in
    let same = eq_self sv.session_id in
    (inverse, inr (inverse.back peer sv.session_id (ground (arith, here, same))))

-- The session of a peer that started one is the only one that changed.
pub started-Only :
    (sv : FixServer) (k peer : ℕ) (m : IncomingFixMessage)
    → IsInverse sv.connectors
    → get_session sv.connectors peer ≡ none
    → (t : FixServer) → Isolated (start_session (focus sv k) peer m) t
    → Only sv t
unfolding session_at focus start_session
started-Only sv k peer m inv free t i = record {
  others = λ j ne.
      (let ne' : (j == k) ≡ false = subst (λ x. (j == x) ≡ false) i.id ne in
        rw ne (i.others j ne'));
  inverse = i.inverse;
}

pub focused-Only : (sv : FixServer) (k : ℕ) (t : FixServer) → Isolated (focus sv k) t → Only sv t
unfolding session_at focus
focused-Only sv k t i = record {
  others = λ j ne.
      (let ne' : (j == k) ≡ false = subst (λ x. (j == x) ≡ false) i.id ne in
        rw ne (i.others j ne'));
  inverse = i.inverse;
}

pub same-Only :
    (sv t : FixServer)
    → t.session_id ≡ sv.session_id
    → t.stored ≡ sv.stored
    → t.connectors ≡ sv.connectors
    → IsInverse sv.connectors
    → Only sv t
same-Only sv t i s c inv = Isolated-Only sv t (kept-Isolated sv t inv i s c)
