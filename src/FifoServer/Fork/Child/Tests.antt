-- ===== src/FifoServer/Fork/Child/Tests.antt =====
-- A run of a child of serverfork.c with its client, and the theorem at it.
use unpvol.Base.{
  ℕ, zero, suc, ◌≡◌, ◌⊎◌, refl, arith, true, false, ◌==◌, if◌then◌else◌, none, some, List, [], ◌∷◌,
  ◌++◌, take, length,
}
use unpvol.FifoServer.Once.Defs.{c_returned, client, v_returned, v_failed, server, Setting, State}
use unpvol.FifoServer.Once.Delivery.{IsFit, reply}
use unpvol.FifoServer.Fork.Child.{
  child, Step, clients, children, Reach, start, later, child_answers,
}

abbrev copies : ℕ → ℕ → List ℕ
copies zero x = []
copies (suc n) x = x ∷ copies n x

-- A client number 5 that asks a child for the path "p". A request is the number, the path, and zeros.
abbrev until_zero : List ℕ → List ℕ
until_zero [] = []
until_zero (b ∷ bs) = let rest = until_zero bs in if b == 0 then [] else b ∷ rest

abbrev scan_request : List ℕ → ℕ × List ℕ
scan_request [] = (0, [])
scan_request (pid ∷ bs) = (pid, until_zero bs)

abbrev asks : Setting
asks = record {
  cap = 4096;
  pid = 5;
  path = 112 ∷ [];
  request = λ pid path. pid ∷ take 63 (path ++ copies 63 0);
  scan = scan_request;
  answer = λ path. if length path == 1 then some (7 ∷ 8 ∷ []) else none;
  server_made = true;
  client_made = false;
}

asks-IsFit : IsFit asks
asks-IsFit = record { room = omega arith; bytes = refl; scans = refl }

abbrev answered : (s : State) × Reach asks s
unfolding client server child
answered = (
  _,
  (later
      (later
        (later
          (later
            (later
              (later
                (later
                  (later
                    (later
                      (later
                        (later
                          (later
                            (later (later (later start (children refl)) (children refl))
                              (clients refl))
                            (clients refl))
                          (children refl))
                        (children refl))
                      (children refl))
                    (children refl))
                  (children refl))
                (children refl))
              (clients refl))
            (clients refl))
          (clients refl))
        (clients refl))
      (clients refl)),
)

answered_out : (answered.0.out ≡ 7 ∷ 8 ∷ []) × (answered.0.c_at ≡ c_returned)
unfolding client server child
answered_out = (refl, refl)

child_answers_example :
    ((later : List ℕ) × (answered.0.out ++ later ≡ reply asks))
    × (answered.0.c_at ≡ c_returned → answered.0.out ≡ reply asks)
    × (((t : State) × Step asks answered.0 t)
        ⊎ ((answered.0.c_at ≡ c_returned)
            × ((answered.0.v_at ≡ v_returned) ⊎ (answered.0.v_at ≡ v_failed))))
child_answers_example = child_answers asks-IsFit answered.1
