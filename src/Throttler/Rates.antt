-- ===== src/Throttler/Rates.antt =====
-- How far apart the messages are that pass the throttler of
-- include/llfix/electronic_trading/session/throttler.h.
use llfix.Throttler.Window.{IsWindow, push-IsWindow}
use llfix.Throttler.{
  initialise, create, prefill, past_time, push, Throttler, reached_limit, RingBuffer,
}
use llfix.Common.{
  length-replicate, none, some, false, true, length, replicate, append_assoc, append-nil, sym,
  subst, arith, ◌++◌, ◌∙◌, List, ℕ, ◌≡◌, ◌∷◌, refl, suc, zero, ◌+◌, ◌<◌, [], ◌^◌,
}
use native.Mathlib.Nat.{mod-eq_of_lt, zero-mod}

push-index :
    (r : RingBuffer) (v : ℕ)
    → r.index + 1 < 2 ^ 64
    → ((push r v).0.index ≡ r.index + 1) × ((push r v).0.capacity ≡ r.capacity)
unfolding push
push-index r v small = (mod-eq_of_lt small, refl)

prefill-IsWindow :
    (n past : ℕ) (r : RingBuffer) (olds news : List ℕ)
    → IsWindow r (olds ++ news)
    → length olds ≡ n
    → r.index + n < 2 ^ 64
    → IsWindow (prefill n r past) (news ++ replicate n past)
      × ((prefill n r past).capacity ≡ r.capacity)
      × ((prefill n r past).index ≡ r.index + n)
unfolding prefill
prefill-IsWindow zero past r [] news h n small =
    (subst (IsWindow r) (sym (append-nil news)) h, refl, omega arith)
prefill-IsWindow zero past r (o ∷ olds) news h n small = absurd (omega (arith, n))
prefill-IsWindow (suc n) past r [] news h e small = absurd (omega (arith, e))
prefill-IsWindow (suc n) past r (o ∷ olds) news h e small =
    let (next, _) = push-IsWindow r o past (olds ++ news) h (omega arith) in
    let next' = subst (IsWindow (push r past).0) (append_assoc olds news (past ∷ [])) next in
    let (index, capacity) = push-index r past (omega arith) in
    let (ih, c, i) =
      prefill-IsWindow n past (push r past).0 olds (news ++ past ∷ []) next' (omega (arith, e))
        (omega (arith, index)) in
    (
      subst (IsWindow (prefill n (push r past).0 past))
          (append_assoc news (past ∷ []) (replicate n past)) ih,
      c ∙ capacity,
      omega (arith, i, index),
    )

-- A throttler that was set up has a ring of as many times as its limit is, all of them the window's time
-- in the past or 0 if the clock is not that far yet, and it asks for no wait. It is set up unless the
-- allocation fails.
pub initialise-IsWindow :
    (now window limit : ℕ)
    → 0 < limit
    → limit < 2 ^ 64
    → (initialise false now window limit ≡ none)
      × ((t : Throttler) × (initialise true now window limit ≡ some t)
          × IsWindow t.event_times (replicate limit (past_time now window))
          × (t.event_times.capacity ≡ t.limit)
          × (t.event_times.index ≡ limit)
          × (reached_limit t ≡ false))
unfolding initialise create reached_limit
initialise-IsWindow now window limit pos small =
    let zeros : List ℕ = replicate limit 0 in
    let ring : RingBuffer = record { buffer = zeros; capacity = limit; index = 0 } in
    let n : length zeros ≡ limit = length-replicate limit 0 in
    let start : IsWindow ring (zeros ++ []) = record {
      front = [];
      back = zeros;
      content = refl;
      window = refl;
      slot = sym (zero-mod limit);
      size = omega (arith, n);
      some_back = omega (arith, n);
    } in
    let (w, c, i) =
      prefill-IsWindow limit (past_time now window) ring zeros [] start n (omega arith) in
    (refl, (_, refl, w, c, omega (arith, i), refl))
