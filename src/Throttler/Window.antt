-- ===== src/Throttler/Window.antt =====
-- The ring of include/llfix/core/utilities/ring_buffer.h as a sliding window, and what the throttler of
-- include/llfix/electronic_trading/session/throttler.h makes of it.
use llfix.Common.{
  ℕ, suc, refl, sym, ap, List, [], arith, length, length-append, set, get_or, append-nil,
  append_assoc, ◌+◌, ◌%◌, ◌^◌, ◌<◌, ◌≡◌, ◌∙◌, ◌++◌, ◌∷◌,
}
use llfix.Throttler.{RingBuffer, calculate_index, push, get, first_message_index}
use native.Mathlib.Nat.{suc-mod, mod_self, mod-eq_of_lt, mod-eq-sub-div-mul}

-- A ring that stands for a window of times, the oldest first: the times behind the next slot are older
-- than those before it.
pub record IsWindow (r : RingBuffer) (w : List ℕ) : Type 0 where
  pub front : List ℕ
  pub back : List ℕ
  pub content : r.buffer ≡ front ++ back
  pub window : w ≡ back ++ front
  pub slot : length front ≡ r.index % r.capacity
  pub size : r.capacity ≡ length front + length back
  pub some_back : 0 < length back

set-append :
    (front : List ℕ) (x : ℕ) (back : List ℕ) (v : ℕ)
    → set (front ++ x ∷ back) (length front) v ≡ front ++ v ∷ back
set-append [] x back v = refl
set-append (y ∷ front) x back v = ap (λ l. y ∷ l) (set-append front x back v)

get_or-append :
    (front : List ℕ) (x : ℕ) (back : List ℕ) → get_or (front ++ x ∷ back) (length front) 0 ≡ x
get_or-append [] x back = refl
get_or-append (y ∷ front) x back = get_or-append front x back

calculate_index-mod : (r : RingBuffer) → calculate_index r ≡ r.index % r.capacity
unfolding calculate_index
calculate_index-mod r = sym (mod-eq-sub-div-mul r.index r.capacity)

suc_one : (n : ℕ) → suc n ≡ n + 1
suc_one n = omega arith

next_slot :
    (index capacity n : ℕ)
    → n ≡ index % capacity
    → index + 1 < 2 ^ 64
    → suc n < capacity
    → suc n ≡ (index + 1) % 2 ^ 64 % capacity
next_slot index capacity n e small h =
    sym (mod-eq_of_lt h)
    ∙ (ap (λ k. suc k % capacity) e)
    ∙ sym (suc-mod index capacity)
    ∙ (ap (λ k. k % capacity) (suc_one index ∙ sym (mod-eq_of_lt small)))

wrapped_slot :
    (index capacity n : ℕ)
    → n ≡ index % capacity
    → index + 1 < 2 ^ 64
    → suc n ≡ capacity
    → 0 ≡ (index + 1) % 2 ^ 64 % capacity
wrapped_slot index capacity n e small h =
    sym (mod_self capacity)
    ∙ (ap (λ k. k % capacity) (sym h))
    ∙ (ap (λ k. suc k % capacity) e)
    ∙ sym (suc-mod index capacity)
    ∙ (ap (λ k. k % capacity) (suc_one index ∙ sym (mod-eq_of_lt small)))

written :
    (r : RingBuffer) (y v : ℕ) (front back : List ℕ)
    → r.buffer ≡ front ++ y ∷ back
    → calculate_index r ≡ length front
    → set r.buffer (calculate_index r) v ≡ front ++ v ∷ back
written r y v front back content at =
    ap (λ b. set b (calculate_index r) v) content
    ∙ (ap (λ i. set (front ++ y ∷ back) i v) at)
    ∙ set-append front y back v

first-wrapped :
    (capacity latest : ℕ) → capacity ≡ latest + 1 → first_message_index capacity latest ≡ 0
unfolding first_message_index
first-wrapped capacity latest e = ground arith

first-next :
    (capacity latest : ℕ) → latest + 1 < capacity → first_message_index capacity latest ≡ latest + 1
unfolding first_message_index
first-next capacity latest e = ground arith

push_split :
    (r : RingBuffer) (x v : ℕ) (w front back : List ℕ)
    → r.buffer ≡ front ++ back
    → x ∷ w ≡ back ++ front
    → length front ≡ r.index % r.capacity
    → r.capacity ≡ length front + length back
    → 0 < length back
    → r.index + 1 < 2 ^ 64
    → IsWindow (push r v).0 (w ++ v ∷ [])
      × (get (push r v).0 (first_message_index r.capacity (push r v).1) ≡ get_or (w ++ v ∷ []) 0 0)
unfolding push get first_message_index
push_split r x v w front [] content window slot size some small = absurd (omega arith)
push_split r x v w front (y ∷ []) content window slot size some small =
    let at = calculate_index-mod r ∙ sym slot in
    let kept : w ≡ front = cc in
    let write = written r y v front [] content at in
    let first = first-wrapped r.capacity (calculate_index r) (omega (arith, at)) in
    (
      record {
        front = [];
        back = front ++ v ∷ [];
        content = write;
        window = ap (λ l. l ++ v ∷ []) kept ∙ sym (append-nil (front ++ v ∷ []));
        slot = wrapped_slot r.index r.capacity (length front) slot small (omega arith);
        size = omega (arith, length-append front (v ∷ []));
        some_back = omega (arith, length-append front (v ∷ []));
      },
      ap (λ b. get_or b (first_message_index r.capacity (calculate_index r)) 0) write
          ∙ ap (λ i. get_or (front ++ v ∷ []) i 0) first
          ∙ sym (ap (λ l. get_or (l ++ v ∷ []) 0 0) kept),
    )
push_split r x v w front (y ∷ z ∷ back) content window slot size some small =
    let at = calculate_index-mod r ∙ sym slot in
    let kept : w ≡ z ∷ back ++ front = cc in
    let write =
      written r y v front (z ∷ back) content at ∙ sym (append_assoc front (v ∷ []) (z ∷ back)) in
    let n = length-append front (v ∷ []) in
    let first = first-next r.capacity (calculate_index r) (omega (arith, at)) in
    (
      record {
        front = front ++ v ∷ [];
        back = z ∷ back;
        content = write;
        window = ap (λ l. l ++ v ∷ []) kept ∙ append_assoc (z ∷ back) front (v ∷ []);
        slot =
            n
            ∙ sym (suc_one (length front))
            ∙ next_slot r.index r.capacity (length front) slot small (omega arith);
        size = omega (arith, n);
        some_back = omega arith;
      },
      ap (λ b. get_or b (first_message_index r.capacity (calculate_index r)) 0) write
          ∙ ap (λ i. get_or ((front ++ v ∷ []) ++ z ∷ back) i 0)
              (first ∙ ap (λ k. k + 1) at ∙ sym n)
          ∙ get_or-append (front ++ v ∷ []) z back
          ∙ sym (ap (λ l. get_or (l ++ v ∷ []) 0 0) kept),
    )

-- A push drops the oldest time, and the slot behind the new one then holds the oldest that is left.
pub push-IsWindow :
    (r : RingBuffer) (x v : ℕ) (w : List ℕ)
    → IsWindow r (x ∷ w)
    → r.index + 1 < 2 ^ 64
    → IsWindow (push r v).0 (w ++ v ∷ [])
      × (get (push r v).0 (first_message_index r.capacity (push r v).1) ≡ get_or (w ++ v ∷ []) 0 0)
push-IsWindow r x v w h small =
    push_split r x v w h.front h.back h.content h.window h.slot h.size h.some_back small
