-- ===== src/Semaphore/ProdCons3/Tests.antt =====
-- Runs of prodcons3.c over semaphores, and the theorems at them.
use unpvol.Base.{ℕ, zero, suc, ◌+◌, ◌%◌, ◌<◌, ◌≤◌, ◌≡◌, ◌⊎◌, refl, arith, total}
use unpvol.Semaphore.ProdCons3.Defs.{
  p_returned, c_returned, nbuff, produce, consume, System, Step, produces, consumes, Reach, start,
  later,
}
use unpvol.Semaphore.ProdCons3.Good.{count_of}
use unpvol.Semaphore.ProdCons3.Progress.{many_keep_moving}

-- One item and one producer, which has put it and waits for a slot.
abbrev one_put : (s : System) × Reach 1 1 s
unfolding produce consume
one_put = (
  _,
  (later
      (later
        (later
          (later
            (later
              (later
                (later
                  (later (later (later start (consumes refl)) (produces 0 (omega arith) refl))
                    (produces 0 (omega arith) refl))
                  (produces 0 (omega arith) refl))
                (produces 0 (omega arith) refl))
              (produces 0 (omega arith) refl))
            (produces 0 (omega arith) refl))
          (produces 0 (omega arith) refl))
        (produces 0 (omega arith) refl))
      (produces 0 (omega arith) refl)),
)

-- The same run to its end.
abbrev one_taken : (s : System) × Reach 1 1 s
unfolding produce consume
one_taken = (
  _,
  (later
      (later
        (later
          (later
            (later
              (later
                (later
                  (later
                    (later
                      (later
                        (later
                          (later
                            (later
                              (later
                                (later
                                  (later
                                    (later
                                      (later
                                        (later
                                          (later (later start (consumes refl))
                                            (produces 0 (omega arith) refl))
                                          (produces 0 (omega arith) refl))
                                        (produces 0 (omega arith) refl))
                                      (produces 0 (omega arith) refl))
                                    (produces 0 (omega arith) refl))
                                  (produces 0 (omega arith) refl))
                                (produces 0 (omega arith) refl))
                              (produces 0 (omega arith) refl))
                            (produces 0 (omega arith) refl))
                          (produces 0 (omega arith) refl))
                        (produces 0 (omega arith) refl))
                      (produces 0 (omega arith) refl))
                    (produces 0 (omega arith) refl))
                  (produces 0 (omega arith) refl))
                (consumes refl))
              (consumes refl))
            (consumes refl))
          (consumes refl))
        (consumes refl))
      (consumes refl)),
)

one_taken_returned : (i : ℕ) → i < 1 → (one_taken.0.threads i).at ≡ p_returned
unfolding produce consume
one_taken_returned zero lt = refl
one_taken_returned (suc i) lt = absurd (omega arith)

one_taken_c_returned : one_taken.0.c.at ≡ c_returned
unfolding produce consume
one_taken_c_returned = refl

many_keep_moving_example :
    ((one_taken.0.mem.nput ≤ one_taken.0.c.i + nbuff)
      × ((j : ℕ)
          → one_taken.0.c.i ≤ j
          → j < one_taken.0.mem.nput
          → one_taken.0.mem.buff (j % nbuff) ≡ j)
      × (one_taken.0.c.errors ≡ 0))
    × (((t : System) × Step 1 1 one_taken.0 t)
        ⊎ (((i : ℕ) → i < 1 → (one_taken.0.threads i).at ≡ p_returned)
            × (one_taken.0.c.at ≡ c_returned)))
    × (((i : ℕ) → i < 1 → (one_taken.0.threads i).at ≡ p_returned)
        → one_taken.0.c.at ≡ c_returned
        → (one_taken.0.mem.nput ≡ 1)
          × (one_taken.0.c.i ≡ 1)
          × (total count_of 1 one_taken.0.threads ≡ 1)
          × (one_taken.0.mem.mutex ≡ 1)
          × (one_taken.0.mem.nempty ≡ nbuff))
many_keep_moving_example = many_keep_moving one_taken.1 (omega arith)
