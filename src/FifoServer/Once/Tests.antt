-- ===== src/FifoServer/Once/Tests.antt =====
-- A run of client.c and server.c, and the theorem at it. A request is the number, the path, and
-- zeros.
use unpvol.Base.{
  ℕ, zero, suc, ◌≡◌, ◌⊎◌, refl, arith, true, false, ◌==◌, if◌then◌else◌, Option, none, some, List,
  [], ◌∷◌, ◌++◌, take,
}
use unpvol.FifoServer.Once.Defs.{
  c_returned, client, server, Setting, State, Step, clients, servers, Reach, start, later,
}
use unpvol.FifoServer.Once.Blocked.{HaveEnded}
use unpvol.FifoServer.Once.Delivery.{IsFit, reply, one_request_served}

abbrev zeros : ℕ → List ℕ
zeros zero = []
zeros (suc n) = 0 ∷ zeros n

abbrev until_zero : List ℕ → List ℕ
until_zero [] = []
until_zero (b ∷ bs) = let rest = until_zero bs in if b == 0 then [] else b ∷ rest

abbrev write_request : ℕ → List ℕ → List ℕ
write_request pid path = pid ∷ take 63 (path ++ zeros 63)

abbrev scan_request : List ℕ → ℕ × List ℕ
scan_request [] = (0, [])
scan_request (pid ∷ bs) = (pid, until_zero bs)

abbrev one_file : List ℕ → Option (List ℕ)
one_file [] = none
one_file (b ∷ bs) = if b == 112 then some (7 ∷ 8 ∷ []) else none

abbrev ours : Setting
ours = record {
  cap = 4096;
  pid = 5;
  path = 112 ∷ [];
  request = write_request;
  scan = scan_request;
  answer = one_file;
  server_made = true;
  client_made = false;
}

ours-IsFit : IsFit ours
ours-IsFit = record { room = omega arith; bytes = refl; scans = refl }

-- The run to its end.
abbrev served : (s : State) × Reach ours s
unfolding client server
served = (
  _,
  (later
      (later
        (later
          (later
            (later
              (later
                (later
                  (later
                    (later
                      (later
                        (later
                          (later
                            (later
                              (later
                                (later
                                  (later
                                    (later
                                      (later
                                        (later
                                          (later
                                            (later
                                              (later
                                                (later
                                                  (later (later start (clients refl))
                                                    (servers refl))
                                                  (clients refl))
                                                (servers refl))
                                              (clients refl))
                                            (clients refl))
                                          (servers refl))
                                        (servers refl))
                                      (servers refl))
                                    (servers refl))
                                  (clients refl))
                                (clients refl))
                              (servers refl))
                            (servers refl))
                          (servers refl))
                        (servers refl))
                      (servers refl))
                    (servers refl))
                  (servers refl))
                (servers refl))
              (clients refl))
            (clients refl))
          (clients refl))
        (clients refl))
      (clients refl)),
)

served_out : (served.0.out ≡ 7 ∷ 8 ∷ []) × (served.0.c_at ≡ c_returned)
unfolding client server
served_out = (refl, refl)

one_request_served_example :
    ((later : List ℕ) × (served.0.out ++ later ≡ reply ours))
    × (served.0.c_at ≡ c_returned → served.0.out ≡ reply ours)
    × (((t : State) × Step ours served.0 t) ⊎ HaveEnded served.0)
one_request_served_example = one_request_served ours-IsFit served.1
