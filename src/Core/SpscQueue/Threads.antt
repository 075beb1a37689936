-- ===== src/Core/SpscQueue/Threads.antt =====
-- SPSCQueue.hpp as two threads: each call of `push` or `pop` is three steps, between which the other
-- thread may run. The acquire and release orders are what makes a step see the other thread's
-- earlier ones. `pushed` and `popped` record the calls that succeeded.
use cubesat_fsw_gnc.Prelude.{ℕ, List, [], ◌∷◌, ◌++◌, set, get_or, if◌then◌else◌, ◌==◌, ◌≡◌, arith}
use cubesat_fsw_gnc.Core.SpscQueue.{SpscQueue, init, after, push, pop}

-- Where the producer stands in `push`.
pub data Producer {ℓ} (A : Type ℓ) : Type ℓ where
  ready : Producer A
  has_room : A → ℕ → ℕ → Producer A
  has_written : A → ℕ → Producer A

-- Where the consumer stands in `pop`.
pub data Consumer {ℓ} (A : Type ℓ) : Type ℓ where
  waiting : Consumer A
  has_item : A → ℕ → Consumer A
  has_read : A → ℕ → Consumer A

pub data Event {ℓ} (A : Type ℓ) : Type ℓ where
  check_room : A → Event A
  write_cell : Event A
  store_tail : Event A
  check_item : A → Event A
  read_cell : Event A
  store_head : Event A

pub record Threads {ℓ} (A : Type ℓ) : Type ℓ where
  pub queue : SpscQueue A
  pub producer : Producer A
  pub consumer : Consumer A
  pub pushed : List A
  pub popped : List A

module _ {ℓ} {A : Type ℓ} where
  unfoldable pub start : ℕ → A → Threads A
  unfolding init
  start capacity cell = record {
    queue = init capacity cell;
    producer = ready;
    consumer = waiting;
    pushed = [];
    popped = [];
  }

  -- A step of the producer; a step that is not its next one does nothing.
  unfoldable pub produce : Event A → Producer A → Threads A → Threads A
  produce (check_room item) ready t =
      let current_tail = t.queue.tail in
      let next_tail = after t.queue current_tail in
      if next_tail == t.queue.head
      then t
      else record t { producer = has_room item current_tail next_tail }
  produce write_cell (has_room item current_tail next_tail) t = record t {
    queue = record t.queue { buffer = set t.queue.buffer current_tail item };
    producer = has_written item next_tail;
  }
  produce store_tail (has_written item next_tail) t = record t {
    queue = record t.queue { tail = next_tail };
    producer = ready;
    pushed = t.pushed ++ item ∷ [];
  }
  produce e p t = t

  -- A step of the consumer.
  unfoldable pub consume : Event A → Consumer A → Threads A → Threads A
  consume (check_item out_item) waiting t =
      let current_head = t.queue.head in
      if current_head == t.queue.tail
      then t
      else record t { consumer = has_item out_item current_head }
  consume read_cell (has_item out_item current_head) t = record t {
    consumer = has_read (get_or t.queue.buffer current_head out_item) current_head;
  }
  consume store_head (has_read item current_head) t = record t {
    queue = record t.queue { head = after t.queue current_head };
    consumer = waiting;
    popped = t.popped ++ item ∷ [];
  }
  consume e c t = t

  unfoldable pub act : Event A → Threads A → Threads A
  unfolding produce consume
  act (check_room item) t = produce (check_room item) t.producer t
  act write_cell t = produce write_cell t.producer t
  act store_tail t = produce store_tail t.producer t
  act (check_item out_item) t = consume (check_item out_item) t.consumer t
  act read_cell t = consume read_cell t.consumer t
  act store_head t = consume store_head t.consumer t

  -- Any interleaving of the two threads.
  unfoldable pub run : List (Event A) → Threads A → Threads A
  run [] t = t
  run (e ∷ es) t = run es (act e t)

  -- The three steps of a push without interruption leave the queue as `push` does, and record the
  -- item exactly if `push` reports success.
  pub run-push :
      (t : Threads A) (item : A)
      → t.producer ≡ ready
      → let t' = run (check_room item ∷ write_cell ∷ store_tail ∷ []) t in
        (t'.queue ≡ (push t.queue item).0)
        × (t'.pushed ≡ (if (push t.queue item).1 then t.pushed ++ item ∷ [] else t.pushed))
  unfolding run act push
  run-push t item h = rw h ground arith

  -- The three steps of a pop without interruption leave the queue as `pop` does, and record the
  -- item that it returns exactly if it reports success.
  pub run-pop :
      (t : Threads A) (out_item : A)
      → t.consumer ≡ waiting
      → let t' = run (check_item out_item ∷ read_cell ∷ store_head ∷ []) t in
        let (q, item, ok) = pop t.queue out_item in
        (t'.queue ≡ q) × (t'.popped ≡ (if ok then t.popped ++ item ∷ [] else t.popped))
  unfolding run act pop
  run-pop t out_item h = rw h ground arith
