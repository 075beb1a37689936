-- ===== src/Core/SpscQueue/Tests.antt =====
-- Runs of the queue of src/fsw/core/SPSCQueue.hpp, and concrete cases of its theorems.
use cubesat_fsw_gnc.Prelude.{ℕ, ◌^◌, ◌≡◌, ◌<◌, refl, List, [], ◌∷◌, ◌++◌, length}
use cubesat_fsw_gnc.Core.SpscQueue.{after, size}
use cubesat_fsw_gnc.Core.SpscQueue.Threads.{
  Event, check_room, write_cell, store_tail, check_item, read_cell, store_head, Threads, start, run,
  act,
}
use cubesat_fsw_gnc.Core.SpscQueue.Fifo.{run-start}

-- A pop that overlaps two pushes, in a ring of four cells.
abbrev overlapped : List (Event ℕ)
overlapped =
    check_room 7
    ∷ check_item 0
    ∷ write_cell
    ∷ store_tail
    ∷ check_item 0
    ∷ check_room 8
    ∷ read_cell
    ∷ write_cell
    ∷ store_head
    ∷ store_tail
    ∷ []

abbrev threads : Threads ℕ
unfolding run start
threads = run overlapped (start (2 ^ 2) 0)

abbrev fresh : Threads ℕ
unfolding start
fresh = start 4 0

run_overlapped : (threads.pushed ≡ 7 ∷ 8 ∷ []) × (threads.popped ≡ 7 ∷ [])
unfolding threads run start act after
run_overlapped = (refl, refl)

run-start_example :
    (items : List ℕ) × (threads.popped ++ items ≡ threads.pushed)
    × (length items ≡ size threads.queue)
    × (size threads.queue < 4)
unfolding threads
run-start_example = run-start 2 0 overlapped
