-- ===== src/Pipes/Sfifo/Tests.antt =====
-- A run of sfifo.c, and the theorem at it: the path "p" and a file of two bytes.
use unpvol.Base.{
  ℕ, ◌≡◌, ◌≢◌, ◌⊎◌, refl, arith, Option, none, some, List, [], ◌∷◌, ◌++◌, ◌==◌, if◌then◌else◌,
}
use unpvol.Pipes.Sfifo.Defs.{
  buf_size, c_after_read, client, server, State, c_exited, c_read, s_exited, Step, clients, servers,
  Reach, start, later,
}
use unpvol.Pipes.Sfifo.Invariant.{reply}
use unpvol.Pipes.Sfifo.Delivery.{client_waits_on_itself}

abbrev one_file : List ℕ → Option (List ℕ)
one_file [] = none
one_file (b ∷ bs) = if b == 112 then some (7 ∷ 8 ∷ []) else none

-- The run to its end: the server has exited and the client has written everything.
abbrev sent_out : (s : State) × Reach buf_size 4096 (112 ∷ 10 ∷ []) one_file s
unfolding client server c_after_read
sent_out = (
  _,
  (later
      (later
        (later
          (later
            (later
              (later
                (later (later (later (later start (clients refl)) (clients refl)) (servers refl))
                  (servers refl))
                (servers refl))
              (servers refl))
            (servers refl))
          (servers refl))
        (clients refl))
      (clients refl)),
)

sent_out_all : sent_out.0.out ≡ 7 ∷ 8 ∷ []
unfolding client server c_after_read
sent_out_all = refl

client_waits_on_itself_example :
    ((later : List ℕ) × (sent_out.0.out ++ later ≡ reply one_file (112 ∷ 10 ∷ [])))
    × (sent_out.0.c_at ≢ c_exited)
    × (((t : State) × Step buf_size 4096 (112 ∷ 10 ∷ []) one_file sent_out.0 t)
        ⊎ ((sent_out.0.c_at ≡ c_read)
            × (sent_out.0.s_at ≡ s_exited)
            × (sent_out.0.out ≡ reply one_file (112 ∷ 10 ∷ []))))
client_waits_on_itself_example =
    client_waits_on_itself {input = 112 ∷ 10 ∷ []} (omega arith) (λ e. ground (arith, e))
      (omega arith) sent_out.1
