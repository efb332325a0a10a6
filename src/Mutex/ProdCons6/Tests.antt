-- ===== src/Mutex/ProdCons6/Tests.antt =====
-- A run of prodcons6.c, and the theorems at it.
use unpvol.Base.{ℕ, zero, suc, ◌≤◌, ◌<◌, ◌≡◌, ◌⊎◌, refl, arith, total}
use unpvol.Mutex.ProdCons6.Defs.{
  produce, consume, p_returned, c_returned, System, produces, consumes, Reach, start, later,
}
use unpvol.Mutex.ProdCons6.Items.{count_of}
use unpvol.Mutex.ProdCons6.Safety.{MayGo, no_wakeup_lost}

-- One item and one producer, which has returned; the consumer was asleep and has been woken.
abbrev put_one : (s : System) × Reach 1 1 s
unfolding produce consume
put_one = (
  _,
  (later
      (later
        (later
          (later
            (later
              (later
                (later
                  (later
                    (later
                      (later
                        (later
                          (later
                            (later
                              (later
                                (later (later (later start (consumes refl)) (consumes refl))
                                  (consumes refl))
                                (produces 0 (omega arith) refl))
                              (produces 0 (omega arith) refl))
                            (produces 0 (omega arith) refl))
                          (produces 0 (omega arith) refl))
                        (produces 0 (omega arith) refl))
                      (produces 0 (omega arith) refl))
                    (produces 0 (omega arith) refl))
                  (produces 0 (omega arith) refl))
                (produces 0 (omega arith) refl))
              (produces 0 (omega arith) refl))
            (produces 0 (omega arith) refl))
          (produces 0 (omega arith) refl))
        (produces 0 (omega arith) refl))
      (produces 0 (omega arith) refl)),
)

put_one_returned : (i : ℕ) → i < 1 → (put_one.0.threads i).at ≡ p_returned
unfolding produce consume
put_one_returned zero lt = refl
put_one_returned (suc i) lt = absurd (omega arith)

no_wakeup_lost_example :
    (MayGo 1 1 put_one.0
      ⊎ (((i : ℕ) → i < 1 → (put_one.0.threads i).at ≡ p_returned) × (put_one.0.c.at ≡ c_returned)))
    × ((put_one.0.c.errors ≡ 0)
        × ((j : ℕ) → j < put_one.0.mem.nput → put_one.0.mem.buff j ≡ j)
        × (put_one.0.c.i ≤ put_one.0.mem.nput)
        × (put_one.0.mem.nput ≤ 1))
    × (((i : ℕ) → i < 1 → (put_one.0.threads i).at ≡ p_returned)
        → (put_one.0.mem.nput ≡ 1)
          × (total count_of 1 put_one.0.threads ≡ 1)
          × (put_one.0.c.at ≡ c_returned → (put_one.0.c.i ≡ 1) × (put_one.0.mem.nready ≡ 0)))
no_wakeup_lost_example = no_wakeup_lost put_one.1 (omega arith)
