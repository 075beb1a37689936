-- ===== src/Core/SpscQueue.antt =====
-- src/fsw/core/SPSCQueue.hpp: a ring of `capacity` cells between one producer and one consumer.
use Prim.Native.Nat.{bit_and}
use cubesat_fsw_gnc.Prelude.{
  ℕ, ◌+◌, ◌-◌, ◌^◌, Bool, true, false, List, length, set, get_or, replicate, if◌then◌else◌, ◌==◌,
  leb,
}
pub mod Mask
pub mod Ring
pub mod Threads
pub mod Invariant
pub mod Push
pub mod Pop
pub mod Fifo
pub mod Unread
pub mod Tests

pub record SpscQueue {ℓ} (A : Type ℓ) : Type ℓ where
  pub capacity : ℕ
  pub head : ℕ
  pub tail : ℕ
  pub buffer : List A

-- The difference of two indices in the ring.
unfoldable pub distance : ℕ → ℕ → ℕ → ℕ
distance capacity head tail = if leb head tail then tail - head else capacity - (head - tail)

module _ {ℓ} {A : Type ℓ} where
  -- The cells of a new queue hold what the default constructor of their type makes.
  unfoldable pub init : ℕ → A → SpscQueue A
  init capacity cell = record {
    capacity = capacity;
    head = 0;
    tail = 0;
    buffer = replicate capacity cell;
  }

  -- The index after `i`, as both ends compute it.
  unfoldable pub after : SpscQueue A → ℕ → ℕ
  after q i = bit_and (i + 1) (q.capacity - 1)

  unfoldable pub push : SpscQueue A → A → SpscQueue A × Bool
  push q item =
      let next_tail = after q q.tail in
      if next_tail == q.head
      then (q, false)
      else (record q { buffer = set q.buffer q.tail item; tail = next_tail }, true)

  -- `out_item` is what the caller's variable holds before and after the call.
  unfoldable pub pop : SpscQueue A → A → SpscQueue A × A × Bool
  pop q out_item =
      if q.head == q.tail
      then (q, out_item, false)
      else (record q { head = after q q.head }, get_or q.buffer q.head out_item, true)

  unfoldable pub empty : SpscQueue A → Bool
  empty q = q.head == q.tail

  unfoldable pub size : SpscQueue A → ℕ
  unfolding distance
  size q = distance q.capacity q.head q.tail
