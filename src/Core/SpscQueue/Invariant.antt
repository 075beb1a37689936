-- ===== src/Core/SpscQueue/Invariant.antt =====
-- What stays true of the ring of src/fsw/core/SPSCQueue.hpp while the two threads run.
use cubesat_fsw_gnc.Prelude.{ℕ, ◌^◌, ◌<◌, ◌≡◌, ◌≢◌, some, List, ◌++◌, length, get_elem?}
use cubesat_fsw_gnc.Core.SpscQueue.{SpscQueue, after, distance}
use cubesat_fsw_gnc.Core.SpscQueue.Mask.{step, bit_and-step}
use cubesat_fsw_gnc.Core.SpscQueue.Ring.{Holds}
use cubesat_fsw_gnc.Core.SpscQueue.Threads.{
  Producer, ready, has_room, has_written, Consumer, waiting, has_item, has_read, Threads,
}

module _ {A : Type 0} where
  -- What the producer knows in the middle of a call stays true whatever the consumer does.
  unfoldable pub Producing : ℕ → SpscQueue A → Producer A → Type 0
  Producing k q ready = Unit
  Producing k q (has_room item current_tail next_tail) =
      (current_tail ≡ q.tail) × (next_tail ≡ step (2 ^ k) q.tail) × (next_tail ≢ q.head)
  Producing k q (has_written item next_tail) =
      (next_tail ≡ step (2 ^ k) q.tail)
      × (next_tail ≢ q.head)
      × (get_elem? q.buffer q.tail ≡ some item)

  unfoldable pub Consuming : SpscQueue A → Consumer A → Type 0
  Consuming q waiting = Unit
  Consuming q (has_item out_item current_head) = (current_head ≡ q.head) × (q.head ≢ q.tail)
  Consuming q (has_read item current_head) =
      (current_head ≡ q.head) × (q.head ≢ q.tail) × (get_elem? q.buffer q.head ≡ some item)

  -- The ring is well formed.
  pub record IsRing (k : ℕ) (q : SpscQueue A) : Type 0 where
    pub capacity_eq : q.capacity ≡ 2 ^ k
    pub length_eq : length q.buffer ≡ 2 ^ k
    pub head_lt : q.head < 2 ^ k
    pub tail_lt : q.tail < 2 ^ k

  -- What was pushed is what was popped, and then what the ring holds.
  pub record IsFifo (k : ℕ) (t : Threads A) : Type 0 where
    pub ring : IsRing k t.queue
    pub items : List A
    pub items_length : length items ≡ distance (2 ^ k) t.queue.head t.queue.tail
    pub items_held : Holds t.queue.buffer (2 ^ k) t.queue.head items
    pub items_order : t.popped ++ items ≡ t.pushed
    pub producing : Producing k t.queue t.producer
    pub consuming : Consuming t.queue t.consumer

  pub after-step :
      (k : ℕ) (q : SpscQueue A) (i : ℕ) → IsRing k q → i < 2 ^ k → after q i ≡ step (2 ^ k) i
  unfolding after
  after-step k q i r h = rw r.capacity_eq (bit_and-step k i h)
