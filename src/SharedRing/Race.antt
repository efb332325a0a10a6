-- ===== src/SharedRing/Race.antt =====
-- With two clients or more the server may print a slot that no client has written.
use unpvol.Base.{ℕ, suc, ◌≡◌, refl, arith, none, some}
use unpvol.SharedRing.Defs.{
  Shmstruct, Client, k_wait_mutex, k_copy, mesgsize, client, server, System, sends, receives, main,
  Reach, start, later,
}

abbrev fresh : ℕ → Client
fresh nloop = (main nloop).clients 0

-- The first step of a client that has a round to do and finds a slot.
first_try :
    (rounds j v : ℕ) (m : Shmstruct)
    → m.nempty ≡ suc v
    → client (suc rounds) j m (fresh (suc rounds)) (fresh (suc rounds)).at
      ≡ some (record {
        mem = record m { nempty = v };
        client = record (fresh (suc rounds)) { at = k_wait_mutex };
      })
unfolding client
first_try rounds j v m e = ground arith

-- However many rounds and however many clients above one: a state is reachable in which the server has
-- printed one text, that of slot 0, and there was none; client 0 has taken slot 0 and is about to copy
-- into it; and client 1 has taken slot 1 and copied its text of round 0 into it.
pub unwritten_slot_printed :
    (rounds others : ℕ)
    → (s : System) × Reach (suc rounds) (suc (suc others)) s
      × (s.srv.printed ≡ 1)
      × (s.srv.out 0 ≡ none)
      × ((s.clients 0).sent ≡ 0)
      × ((s.clients 1).sent ≡ 1)
      × (s.srv.index ≡ 1)
      × ((s.clients 0).at ≡ k_copy)
      × ((s.clients 0).offset ≡ 0)
      × ((s.clients 1).offset ≡ mesgsize)
      × (s.mem.nput ≡ 2)
      × (s.mem.msgdata 0 ≡ none)
      × (s.mem.msgdata mesgsize ≡ some (1, 0))
unfolding client server
unwritten_slot_printed rounds others = (
  _,
  (later
      (later
        (later
          (later
            (later
              (later
                (later
                  (later
                    (later
                      (later
                        (later
                          (later
                            (later start (sends 0 (omega arith) (first_try rounds 0 15 _ refl)))
                            (sends 0 (omega arith) refl))
                          (sends 0 (omega arith) refl))
                        (sends 0 (omega arith) refl))
                      (sends 1 (omega arith) (first_try rounds 1 14 _ refl)))
                    (sends 1 (omega arith) refl))
                  (sends 1 (omega arith) refl))
                (sends 1 (omega arith) refl))
              (sends 1 (omega arith) refl))
            (sends 1 (omega arith) refl))
          (receives refl))
        (receives refl))
      (receives refl)),
  refl,
  refl,
  refl,
  refl,
  refl,
  refl,
  refl,
  refl,
  refl,
  refl,
  refl,
)
