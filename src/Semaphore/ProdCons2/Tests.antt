-- ===== src/Semaphore/ProdCons2/Tests.antt =====
-- A run of prodcons2.c, and the theorems at it.
use unpvol.Base.{ℕ, ◌+◌, ◌*◌, ◌≤◌, ◌≡◌, ◌⊎◌, refl, [], ◌∷◌}
use unpvol.Semaphore.ProdCons2.Defs.{
  nbuff, produce, consume, System, Step, produces, consumes, Reach, start, later, p_returned,
  c_returned,
}
use unpvol.Semaphore.ProdCons2.Invariant.{below}
use unpvol.Semaphore.ProdCons2.Safety.{consumer_gets_all, length_of, prodcons_ends}

-- One item: put by the producer, got by the consumer, which then posts the mutex.
abbrev got_one : (s : System) × Reach 1 s
unfolding produce consume
got_one = (
  _,
  later
      (later
        (later
          (later
            (later
              (later
                (later
                  (later
                    (later (later (later start (produces refl)) (produces refl)) (produces refl))
                    (produces refl))
                  (produces refl))
                (produces refl))
              (consumes refl))
            (consumes refl))
          (consumes refl))
        (consumes refl))
      (consumes refl),
)

got_one_prints : got_one.0.c.got ≡ 0 ∷ []
unfolding produce consume
got_one_prints = refl

consumer_gets_all_example :
    (got_one.0.c.mismatches ≡ 0)
    × (got_one.0.p.i ≤ got_one.0.c.i + nbuff)
    × ((k : ℕ) × (k ≤ 1) × (got_one.0.c.got ≡ below k))
    × (got_one.0.c.at ≡ c_returned → got_one.0.c.got ≡ below 1)
consumer_gets_all_example = consumer_gets_all got_one.1

prodcons_ends_example :
    (length_of got_one.1 ≤ 12 * 1 + 2)
    × (((t : System) × Step 1 got_one.0 t)
        ⊎ ((got_one.0.p.at ≡ p_returned) × (got_one.0.c.at ≡ c_returned)))
prodcons_ends_example = prodcons_ends got_one.1
