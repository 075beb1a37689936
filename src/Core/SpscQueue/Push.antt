-- ===== src/Core/SpscQueue/Push.antt =====
-- The steps of `push` of src/fsw/core/SPSCQueue.hpp, at any moment of the consumer.
use mathlib.Core.List.{append_assoc}
use cubesat_fsw_gnc.Prelude.{
  ℕ, ◌^◌, refl, sym, ap, ◌∙◌, ◌≢◌, inl, inr, [], ◌∷◌, ◌++◌, arith, set, get_elem?-set_self,
  get_elem?-set_ne, length-set, length-append, ◌==◌, Bool-cases,
}
use cubesat_fsw_gnc.Core.SpscQueue.{SpscQueue, after}
use cubesat_fsw_gnc.Core.SpscQueue.Ring.{Holds-set, Holds-snoc, distance-step, step-bound}
use cubesat_fsw_gnc.Core.SpscQueue.Threads.{
  Producer, ready, has_room, has_written, Consumer, waiting, has_item, has_read, check_room,
  write_cell, store_tail, Threads, produce,
}
use cubesat_fsw_gnc.Core.SpscQueue.Invariant.{Producing, Consuming, IsFifo, after-step}

module _ {A : Type 0} where
  -- The steps of the producer.
  pub room-IsFifo :
      (k : ℕ) (t : Threads A) (item : A) (p : Producer A)
      → IsFifo k t
      → IsFifo k (produce (check_room item) p t)
  unfolding produce Producing
  room-IsFifo k t item ready f = elim (Bool-cases (after t.queue t.queue.tail == t.queue.head)) [
    | inl h ↦ rw h f
    | inr h ↦ rw h record {
      ring = f.ring;
      items = f.items;
      items_length = f.items_length;
      items_held = f.items_held;
      items_order = f.items_order;
      producing = (
        refl,
        after-step k t.queue t.queue.tail f.ring f.ring.tail_lt,
        (λ e. ground (arith, h, e)),
      );
      consuming = f.consuming;
    }
  ]
  room-IsFifo k t item (has_room i a b) f = f
  room-IsFifo k t item (has_written i a) f = f

  -- A write at the tail keeps what the consumer knows of the head.
  Consuming-write :
      (q : SpscQueue A) (c : Consumer A) (item : A)
      → Consuming q c
      → Consuming (record q { buffer = set q.buffer q.tail item }) c
  unfolding Consuming
  Consuming-write q waiting item h = tt
  Consuming-write q (has_item o a) item h = h
  Consuming-write q (has_read i a) item (e, n, g) =
      (e, n, get_elem?-set_ne q.buffer item (λ z. n (sym z)) ∙ g)

  pub write-IsFifo :
      (k : ℕ) (t : Threads A) (p : Producer A)
      → Producing k t.queue p
      → IsFifo k t
      → IsFifo k (produce write_cell p t)
  unfolding produce Producing
  write-IsFifo k t ready e f = f
  write-IsFifo k t (has_room item current_tail next_tail) (e, n, o) f = rw e record {
    ring = record {
      capacity_eq = f.ring.capacity_eq;
      length_eq = length-set t.queue.buffer t.queue.tail item ∙ f.ring.length_eq;
      head_lt = f.ring.head_lt;
      tail_lt = f.ring.tail_lt;
    };
    items = f.items;
    items_length = f.items_length;
    items_held =
        Holds-set t.queue.buffer f.items (2 ^ k) t.queue.head t.queue.tail item f.ring.head_lt
          f.ring.tail_lt f.items_length f.items_held;
    items_order = f.items_order;
    producing = (
      n,
      o,
      get_elem?-set_self t.queue.buffer t.queue.tail item
          (omega (arith, f.ring.tail_lt, f.ring.length_eq)),
    );
    consuming = Consuming-write t.queue t.consumer item f.consuming;
  }
  write-IsFifo k t (has_written i a) e f = f

  -- A tail that steps, and does not meet the head, keeps it too.
  Consuming-tail :
      (q : SpscQueue A) (c : Consumer A) (next_tail : ℕ)
      → next_tail ≢ q.head
      → Consuming q c
      → Consuming (record q { tail = next_tail }) c
  unfolding Consuming
  Consuming-tail q waiting next_tail n h = tt
  Consuming-tail q (has_item o a) next_tail n (e, m) = (e, (λ z. n (sym z)))
  Consuming-tail q (has_read i a) next_tail n (e, m, g) = (e, (λ z. n (sym z)), g)

  pub store_tail-IsFifo :
      (k : ℕ) (t : Threads A) (p : Producer A)
      → Producing k t.queue p
      → IsFifo k t
      → IsFifo k (produce store_tail p t)
  unfolding produce Producing
  store_tail-IsFifo k t ready e f = f
  store_tail-IsFifo k t (has_room i a b) e f = f
  store_tail-IsFifo k t (has_written item next_tail) (e, n, g) f = record {
    ring = record {
      capacity_eq = f.ring.capacity_eq;
      length_eq = f.ring.length_eq;
      head_lt = f.ring.head_lt;
      tail_lt = rw e (step-bound (2 ^ k) t.queue.tail f.ring.tail_lt);
    };
    items = f.items ++ item ∷ [];
    items_length = rw e (
        omega (
          arith,
          length-append f.items (item ∷ []),
          f.items_length,
          distance-step (2 ^ k) t.queue.head t.queue.tail f.ring.head_lt f.ring.tail_lt
              (λ z. n (e ∙ z)),
        ));
    items_held =
        Holds-snoc t.queue.buffer f.items (2 ^ k) t.queue.head t.queue.tail item f.ring.head_lt
          f.ring.tail_lt f.items_length g f.items_held;
    items_order =
        sym (append_assoc t.popped f.items (item ∷ [])) ∙ ap (λ l. l ++ item ∷ []) f.items_order;
    producing = tt;
    consuming = Consuming-tail t.queue t.consumer next_tail n f.consuming;
  }
