-- ===== src/Throttler.antt =====
-- include/llfix/electronic_trading/session/throttler.h and its ring buffer,
-- include/llfix/core/utilities/ring_buffer.h. The clock's readings are arguments, and so is whether the
-- allocation succeeds. A read behind the buffer's end, which the source does not define, gives 0.
pub mod Window
pub mod Rates
use llfix.Common.{
  ℕ, zero, suc, Bool, Option, none, some, List, leb, ltb, if◌then◌else◌, set, get_or, replicate,
  ◌+◌, ◌-◌, ◌*◌, ◌/◌, ◌%◌, ◌^◌,
}

pub record RingBuffer : Type 0 where
  pub buffer : List ℕ
  pub capacity : ℕ
  pub index : ℕ

unfoldable pub create : Bool → ℕ → Option RingBuffer
create allocated capacity =
    if allocated
    then some (record { buffer = replicate capacity 0; capacity = capacity; index = 0 })
    else none

unfoldable pub calculate_index : RingBuffer → ℕ
calculate_index r = r.index - r.index / r.capacity * r.capacity

-- The index of the new item comes with the ring.
unfoldable pub push : RingBuffer → ℕ → RingBuffer × ℕ
push r t =
    let new_item_index = calculate_index r in
    (
      record r { buffer = set r.buffer new_item_index t; index = (r.index + 1) % 2 ^ 64 },
      new_item_index,
    )

unfoldable pub get : RingBuffer → ℕ → ℕ
get r i = get_or r.buffer i 0

unfoldable pub set_at : RingBuffer → ℕ → ℕ → RingBuffer
set_at r i v = record r { buffer = set r.buffer i v }

pub record Throttler : Type 0 where
  pub event_times : RingBuffer
  pub limit : ℕ
  pub window_in_nanoseconds : ℕ
  pub wait_time_nano_seconds : ℕ
  pub latest_event_time_index : ℕ

unfoldable pub prefill : ℕ → RingBuffer → ℕ → RingBuffer
prefill zero r past = r
prefill (suc n) r past = prefill n (push r past).0 past

abbrev pub past_time : ℕ → ℕ → ℕ
past_time now window = if ltb window now then now - window else 0

-- None if the ring cannot be allocated.
unfoldable pub initialise : Bool → ℕ → ℕ → ℕ → Option Throttler
initialise allocated now window_in_nanoseconds limit = elim (create allocated limit) [
  | none ↦ none
  | some ring ↦ some (record {
    event_times = prefill limit ring (past_time now window_in_nanoseconds);
    limit = limit;
    window_in_nanoseconds = window_in_nanoseconds;
    wait_time_nano_seconds = 0;
    latest_event_time_index = 0;
  })
]

-- The index behind the latest one, where the oldest time of the ring is.
unfoldable pub first_message_index : ℕ → ℕ → ℕ
first_message_index limit latest = if leb limit (latest + 1) then latest + 1 - limit else latest + 1

unfoldable pub update : Throttler → ℕ → Throttler
update t now =
    let (ring, latest) = push t.event_times now in
    let timestamp_first = get ring (first_message_index t.limit latest) in
    let delta_time = (now + 2 ^ 64 - timestamp_first) % 2 ^ 64 in
    record t {
      event_times = ring;
      latest_event_time_index = latest;
      wait_time_nano_seconds =
          if ltb delta_time t.window_in_nanoseconds
          then t.window_in_nanoseconds - delta_time
          else 0;
    }

-- `after` is the clock's reading after the sleep.
unfoldable pub wait : Throttler → ℕ → Throttler
wait t after =
    if ltb 0 t.wait_time_nano_seconds
    then record t { event_times = set_at t.event_times t.latest_event_time_index after }
    else t

unfoldable pub reached_limit : Throttler → Bool
reached_limit t = ltb 0 t.wait_time_nano_seconds
