-- ===== src/Semaphore/ProdCons4/Tests.antt =====
-- Runs of prodcons4.c by a given schedule, and the theorems at them.
use unpvol.Base.{
  ℕ, zero, suc, ◌+◌, ◌%◌, ◌<◌, ◌≤◌, ◌≡◌, inl, inr, refl, arith, Option, none, some, List, [], ◌∷◌,
  dec_lt, total,
}
use unpvol.Semaphore.ProdCons4.Defs.{
  nbuff, produce, consume, Local, System, Step, produces, consumes, Reach, start, later, main,
}
use unpvol.Semaphore.ProdCons4.Good.{put_by, got_by}
use unpvol.Semaphore.ProdCons4.Safety.{ring_holds_items, HasReturned, all_items_pass}
use unpvol.Semaphore.ProdCons4.Progress.{items_keep_moving}

record Run (nitems np nc : ℕ) : Type 0 where
  last : System
  reach : Reach nitems np nc last

module _ {nitems np nc : ℕ} (r : Run nitems np nc) (i : ℕ) (lt : i < np + nc) where
  by_consume :
      (o : Option Local) → consume nitems r.last.mem (r.last.threads i).at ≡ o → Run nitems np nc
  by_consume none e = r
  by_consume (some l) e = record { last = _; reach = later r.reach (consumes i lt e) }

  by_produce :
      (o : Option Local) → produce nitems r.last.mem (r.last.threads i).at ≡ o → Run nitems np nc
  unfolding by_consume
  by_produce none e = by_consume (consume nitems r.last.mem (r.last.threads i).at) refl
  by_produce (some l) e = record { last = _; reach = later r.reach (produces i lt e) }

-- Thread `i` takes a step if it can.
turn : {nitems np nc : ℕ} → Run nitems np nc → ℕ → Run nitems np nc
unfolding by_produce produce consume dec_lt
turn {nitems} {np} {nc} r i = elim (dec_lt i (np + nc)) [
  | yes lt ↦ by_produce r i lt (produce nitems r.last.mem (r.last.threads i).at) refl
  | no _ ↦ r
]

run : {nitems np nc : ℕ} → Run nitems np nc → List ℕ → Run nitems np nc
unfolding turn
run r [] = r
run r (i ∷ is) = run (turn r i) is

abbrev times : ℕ → ℕ → List ℕ → List ℕ
times zero i rest = rest
times (suc k) i rest = i ∷ times k i rest

abbrev fresh : Run 1 1 1
fresh = record { last = main 1 1; reach = start }

-- The producer has put the one item and has the mutex; the consumer waits.
abbrev putting : Run 1 1 1
putting = run fresh (times 6 0 (1 ∷ []))

ring_holds_items_example :
    (putting.last.mem.nput ≤ putting.last.mem.nget + nbuff)
    × ((j : ℕ)
        → putting.last.mem.nget ≤ j
        → j < putting.last.mem.nput
        → putting.last.mem.buff (j % nbuff) ≡ j)
    × (putting.last.mem.errors ≡ 0)
ring_holds_items_example = ring_holds_items putting.reach

items_keep_moving_example : (t : System) × Step 1 2 putting.last t
unfolding run
items_keep_moving_example =
    items_keep_moving putting.reach (omega arith) (omega arith) 1 (omega arith) (λ e. cc) (λ e. cc)

-- One item from a producer to a consumer, and both return.
abbrev finished : Run 1 1 1
finished = run fresh (times 15 0 (times 14 1 []))

finished_returned : (i : ℕ) → i < 2 → HasReturned (finished.last.threads i).at
unfolding run
finished_returned zero lt = inl refl
finished_returned (suc zero) lt = inr refl
finished_returned (suc (suc i)) lt = absurd (omega arith)

all_items_pass_example :
    (finished.last.mem.nput ≡ 1)
    × (finished.last.mem.nget ≡ 1)
    × (total put_by (1 + 1) finished.last.threads ≡ 1)
    × (total got_by (1 + 1) finished.last.threads ≡ 1)
    × (finished.last.mem.nempty ≡ nbuff)
    × (finished.last.mem.mutex ≡ 1)
    × (finished.last.mem.errors ≡ 0)
all_items_pass_example = all_items_pass finished.reach (omega arith) (omega arith) finished_returned
