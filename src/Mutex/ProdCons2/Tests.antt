-- ===== src/Mutex/ProdCons2/Tests.antt =====
-- A run of prodcons2.c, and the theorem at it.
use unpvol.Base.{ℕ, zero, suc, ◌<◌, ◌≡◌, refl, arith, total}
use unpvol.Mutex.ProdCons2.Defs.{
  p_returned, c_returned, produce, consume, System, produces, consumes, joins, Reach, start, later,
}
use unpvol.Mutex.ProdCons2.Good.{count_of}
use unpvol.Mutex.ProdCons2.Safety.{join_orders}

-- One item and one producer, which has returned.
abbrev put_one : (s : System) × Reach 1 1 s
unfolding produce
put_one = (
  _,
  (later
      (later
        (later
          (later
            (later
              (later
                (later
                  (later
                    (later (later start (produces 0 (omega arith) refl))
                      (produces 0 (omega arith) refl))
                    (produces 0 (omega arith) refl))
                  (produces 0 (omega arith) refl))
                (produces 0 (omega arith) refl))
              (produces 0 (omega arith) refl))
            (produces 0 (omega arith) refl))
          (produces 0 (omega arith) refl))
        (produces 0 (omega arith) refl))
      (produces 0 (omega arith) refl)),
)

one_back : (i : ℕ) → i < 1 → (put_one.0.threads i).at ≡ p_returned
unfolding produce
one_back zero lt = refl
one_back (suc i) lt = absurd (omega arith)

-- The run goes on: the consumer is made, looks at the item, and returns.
abbrev looked : (s : System) × Reach 1 1 s
unfolding produce consume
looked = (
  _,
  (later (later (later (later put_one.1 (joins refl one_back)) (consumes refl)) (consumes refl))
      (consumes refl)),
)

join_orders_example :
    (looked.0.c.errors ≡ 0)
    × (looked.0.c.at ≡ c_returned
        → (looked.0.c.i ≡ 1) × (looked.0.mem.nput ≡ 1) × (total count_of 1 looked.0.threads ≡ 1))
join_orders_example = join_orders (omega arith) looked.1
