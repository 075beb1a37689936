-- ===== src/Core/SpscQueue/Fifo.antt =====
-- src/fsw/core/SPSCQueue.hpp: the two threads together are a first-in first-out queue.
use cubesat_fsw_gnc.Prelude.{
  ℕ, suc, ◌^◌, ◌<◌, ◌≡◌, refl, List, [], ◌∷◌, ◌++◌, arith, length, length-replicate, ltb,
}
use cubesat_fsw_gnc.Core.SpscQueue.{SpscQueue, distance, size, push, pop}
use cubesat_fsw_gnc.Core.SpscQueue.Mask.{step, power-positive}
use cubesat_fsw_gnc.Core.SpscQueue.Ring.{Holds, distance-bound}
use cubesat_fsw_gnc.Core.SpscQueue.Threads.{
  Event, check_room, write_cell, store_tail, check_item, read_cell, store_head, Threads, start, act,
  run,
}
use cubesat_fsw_gnc.Core.SpscQueue.Invariant.{Producing, Consuming, IsRing, IsFifo, after-step}
use cubesat_fsw_gnc.Core.SpscQueue.Push.{room-IsFifo, write-IsFifo, store_tail-IsFifo}
use cubesat_fsw_gnc.Core.SpscQueue.Pop.{item-IsFifo, read-IsFifo, store_head-IsFifo}

module _ {A : Type 0} where
  act-IsFifo : (k : ℕ) (e : Event A) (t : Threads A) → IsFifo k t → IsFifo k (act e t)
  unfolding act
  act-IsFifo k (check_room item) t f = room-IsFifo k t item t.producer f
  act-IsFifo k write_cell t f = write-IsFifo k t t.producer f.producing f
  act-IsFifo k store_tail t f = store_tail-IsFifo k t t.producer f.producing f
  act-IsFifo k (check_item out_item) t f = item-IsFifo k t out_item t.consumer f
  act-IsFifo k read_cell t f = read-IsFifo k t t.consumer f.consuming f
  act-IsFifo k store_head t f = store_head-IsFifo k t t.consumer f.consuming f

  pub run-IsFifo : (k : ℕ) (es : List (Event A)) (t : Threads A) → IsFifo k t → IsFifo k (run es t)
  unfolding run
  run-IsFifo k [] t f = f
  run-IsFifo k (e ∷ es) t f = run-IsFifo k es (act e t) (act-IsFifo k e t f)

  pub start-IsFifo : (k : ℕ) (cell : A) → IsFifo k (start (2 ^ k) cell)
  unfolding start Producing Consuming Holds distance
  start-IsFifo k cell = record {
    ring = record {
      capacity_eq = refl;
      length_eq = length-replicate (2 ^ k) cell;
      head_lt = omega (arith, power-positive k);
      tail_lt = omega (arith, power-positive k);
    };
    items = [];
    items_length = refl;
    items_held = refl;
    items_order = refl;
    producing = tt;
    consuming = tt;
  }

  -- However the steps of the producer and of the consumer interleave, in a ring whose capacity is a
  -- power of two, the items pushed are the items popped and then those waiting in the ring, in
  -- order; `size` counts the waiting ones, and stays below the capacity.
  pub run-start :
      (k : ℕ) (cell : A) (es : List (Event A))
      → let t = run es (start (2 ^ k) cell) in
        (items : List A) × (t.popped ++ items ≡ t.pushed)
        × (length items ≡ size t.queue)
        × (size t.queue < 2 ^ k)
  unfolding size
  run-start k cell es =
      let f = run-IsFifo k es (start (2 ^ k) cell) (start-IsFifo k cell) in
      (
        f.items,
        f.items_order,
        rw f.ring.capacity_eq f.items_length,
        rw f.ring.capacity_eq (distance-bound (2 ^ k) _ _ f.ring.head_lt f.ring.tail_lt),
      )

  push-IsRing :
      (k : ℕ) (q : SpscQueue A) (item : A)
      → IsRing k q
      → (push q item).1 ≡ ltb (suc (size q)) (2 ^ k)
  unfolding push size distance step
  push-IsRing k q item r =
      rw (after-step k q q.tail r r.tail_lt, r.capacity_eq) ground (arith, r.head_lt, r.tail_lt)

  pop-IsRing :
      (k : ℕ) (q : SpscQueue A) (out_item : A) → IsRing k q → (pop q out_item).2 ≡ ltb 0 (size q)
  unfolding pop size distance
  pop-IsRing k q out_item r = rw r.capacity_eq ground (arith, r.head_lt, r.tail_lt)

  -- After any interleaving of the two threads on such a ring, a push is refused exactly if it holds
  -- one item less than its capacity, and a pop exactly if it holds none.
  pub push-run-start :
      (k : ℕ) (cell item : A) (es : List (Event A))
      → let q = (run es (start (2 ^ k) cell)).queue in
        ((push q item).1 ≡ ltb (suc (size q)) (2 ^ k)) × ((pop q item).2 ≡ ltb 0 (size q))
  push-run-start k cell item es =
      let r = (run-IsFifo k es (start (2 ^ k) cell) (start-IsFifo k cell)).ring in
      (push-IsRing k _ item r, pop-IsRing k _ item r)
