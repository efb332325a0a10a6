-- ===== src/Semaphore/MyCat2/Tests.antt =====
-- A run of mycat2.c on a file of three bytes, and the theorems at it.
use unpvol.Base.{ℕ, zero, suc, ◌<◌, ◌≡◌, ◌⊎◌, refl, true, false, [], ◌∷◌, pos, is_zero}
use unpvol.Semaphore.MyCat2.Defs.{
  Buffer, no_bytes, produce, consume, p_returned, c_returned, System, Step, produces, consumes,
  Reach, start, later,
}
use unpvol.Semaphore.MyCat2.Output.{output_is_input}

abbrev abc : ℕ → Buffer
abc zero = record { bytes = b'a' ∷ b'b' ∷ b'c' ∷ []; n = pos 3 }
abc (suc k) = no_bytes

-- The three bytes are read and written, the empty read is met by both threads.
abbrev copied : (s : System) × Reach abc s
unfolding produce consume
copied = (
  _,
  (later
      (later
        (later
          (later
            (later
              (later
                (later
                  (later
                    (later
                      (later
                        (later
                          (later
                            (later
                              (later
                                (later
                                  (later
                                    (later
                                      (later
                                        (later
                                          (later
                                            (later
                                              (later (later start (produces refl)) (produces refl))
                                              (produces refl))
                                            (produces refl))
                                          (produces refl))
                                        (produces refl))
                                      (produces refl))
                                    (produces refl))
                                  (produces refl))
                                (produces refl))
                              (produces refl))
                            (produces refl))
                          (consumes refl))
                        (consumes refl))
                      (consumes refl))
                    (consumes refl))
                  (consumes refl))
                (consumes refl))
              (consumes refl))
            (consumes refl))
          (consumes refl))
        (consumes refl))
      (consumes refl)),
)

both_returned : (copied.0.p.at ≡ p_returned) × (copied.0.c.at ≡ c_returned)
unfolding produce consume
both_returned = (refl, refl)

output_is_input_example :
    ((k : ℕ) → k < copied.0.c.writes → (copied.0.c.out k ≡ abc k) × (is_zero (abc k).n ≡ false))
    × (copied.0.c.at ≡ c_returned → is_zero (abc copied.0.c.writes).n ≡ true)
    × (((t : System) × Step abc copied.0 t)
        ⊎ ((copied.0.p.at ≡ p_returned) × (copied.0.c.at ≡ c_returned)))
output_is_input_example = output_is_input copied.1
