-- ===== src/Mutex/ProdCons3/Tests.antt =====
-- A run of prodcons3.c over a mutex, and the theorems at it.
use unpvol.Base.{ℕ, zero, suc, ◌<◌, ◌≤◌, ◌≡◌, ◌⊎◌, refl, arith, total, some}
use unpvol.Mutex.ProdCons3.Defs.{
  p_returned, c_returned, Consumed, produce, consume, System, produces, consumes, Reach, start,
  later,
}
use unpvol.Mutex.ProdCons3.Good.{count_of}
use unpvol.Mutex.ProdCons3.Safety.{consumer_waits_enough}

-- One item and one producer, which has returned; the consumer has looked for the item in vain.
abbrev put_all : (s : System) × Reach 1 1 s
unfolding produce consume
put_all = (
  _,
  (later
      (later
        (later
          (later
            (later
              (later
                (later
                  (later
                    (later
                      (later
                        (later
                          (later (later (later start (consumes refl)) (consumes refl))
                            (consumes refl))
                          (consumes refl))
                        (produces 0 (omega arith) refl))
                      (produces 0 (omega arith) refl))
                    (produces 0 (omega arith) refl))
                  (produces 0 (omega arith) refl))
                (produces 0 (omega arith) refl))
              (produces 0 (omega arith) refl))
            (produces 0 (omega arith) refl))
          (produces 0 (omega arith) refl))
        (produces 0 (omega arith) refl))
      (produces 0 (omega arith) refl)),
)

put_all_returned : (i : ℕ) → i < 1 → (put_all.0.threads i).at ≡ p_returned
unfolding produce consume
put_all_returned zero lt = refl
put_all_returned (suc i) lt = absurd (omega arith)

consumer_waits_enough_example :
    ((put_all.0.c.errors ≡ 0)
      × ((j : ℕ) → j < put_all.0.mem.nput → put_all.0.mem.buff j ≡ j)
      × (put_all.0.c.i ≤ put_all.0.mem.nput)
      × (put_all.0.mem.nput ≤ 1))
    × (0 < 1
        → ((i : ℕ) → i < 1 → (put_all.0.threads i).at ≡ p_returned)
        → (put_all.0.mem.nput ≡ 1)
          × (total count_of 1 put_all.0.threads ≡ 1)
          × (((l : Consumed) × (consume 1 put_all.0.mem put_all.0.c put_all.0.c.at ≡ some l))
              ⊎ ((put_all.0.c.at ≡ c_returned) × (put_all.0.c.i ≡ 1))))
consumer_waits_enough_example = consumer_waits_enough put_all.1
