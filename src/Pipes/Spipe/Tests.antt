-- ===== src/Pipes/Spipe/Tests.antt =====
-- A run of spipe.c, and the theorem at it: the path "p" and a file of two bytes.
use unpvol.Base.{
  ℕ, ◌≡◌, ◌≢◌, ◌⊎◌, refl, arith, Option, none, some, List, [], ◌∷◌, ◌++◌, ◌==◌, if◌then◌else◌,
}
use unpvol.Pipes.Spipe.Defs.{
  buf_size, c_after_read, client, server, State, c_exited, s_exited, s_broken, Step, clients,
  servers, Reach, start, later,
}
use unpvol.Pipes.Spipe.Invariant.{reply}
use unpvol.Pipes.Spipe.Delivery.{reply_arrives}

abbrev one_file : List ℕ → Option (List ℕ)
one_file [] = none
one_file (b ∷ bs) = if b == 112 then some (7 ∷ 8 ∷ []) else none

-- The file is in the second pipe, and the server about to read its end.
abbrev sent_back : (s : State) × Reach buf_size 4096 (112 ∷ 10 ∷ []) one_file s
unfolding client server
sent_back = (
  _,
  (later
      (later
        (later
          (later
            (later
              (later (later (later (later start (clients refl)) (clients refl)) (clients refl))
                (servers refl))
              (servers refl))
            (servers refl))
          (servers refl))
        (servers refl))
      (servers refl)),
)

-- The run to its end.
abbrev arrived : (s : State) × Reach buf_size 4096 (112 ∷ 10 ∷ []) one_file s
unfolding client server c_after_read
arrived = (
  _,
  (later
      (later
        (later
          (later
            (later
              (later
                (later
                  (later
                    (later
                      (later
                        (later (later (later start (clients refl)) (clients refl)) (clients refl))
                        (servers refl))
                      (servers refl))
                    (servers refl))
                  (servers refl))
                (servers refl))
              (servers refl))
            (servers refl))
          (clients refl))
        (clients refl))
      (clients refl)),
)

arrived_out : (arrived.0.out ≡ 7 ∷ 8 ∷ []) × (arrived.0.c_at ≡ c_exited)
unfolding client server c_after_read
arrived_out = (refl, refl)

reply_arrives_example :
    ((later : List ℕ) × (arrived.0.out ++ later ≡ reply one_file (112 ∷ 10 ∷ [])))
    × (arrived.0.c_at ≡ c_exited → arrived.0.out ≡ reply one_file (112 ∷ 10 ∷ []))
    × (arrived.0.s_at ≢ s_broken)
    × (((t : State) × Step buf_size 4096 (112 ∷ 10 ∷ []) one_file arrived.0 t)
        ⊎ ((arrived.0.c_at ≡ c_exited) × (arrived.0.s_at ≡ s_exited)))
reply_arrives_example =
    reply_arrives {input = 112 ∷ 10 ∷ []} (omega arith) (λ e. ground (arith, e)) (omega arith)
      arrived.1
