-- ===== src/SharedRing/Tests.antt =====
-- A run of one client and the server, and the theorems at it.
use unpvol.Base.{ℕ, ◌+◌, ◌≤◌, ◌<◌, ◌≡◌, refl, arith, none, some}
use unpvol.SharedRing.Defs.{
  k_copy, mesgsize, client, server, System, sends, receives, Reach, start, later,
}
use unpvol.SharedRing.OneClient.{printed_in_order}
use unpvol.SharedRing.Race.{unwritten_slot_printed}

-- The client has sent a text and the server has printed it.
abbrev one_text : (s : System) × Reach 1 1 s
unfolding client server
one_text = (
  _,
  (later
      (later
        (later
          (later
            (later
              (later
                (later
                  (later (later start (sends 0 (omega arith) refl)) (sends 0 (omega arith) refl))
                  (sends 0 (omega arith) refl))
                (sends 0 (omega arith) refl))
              (sends 0 (omega arith) refl))
            (sends 0 (omega arith) refl))
          (receives refl))
        (receives refl))
      (receives refl)),
)

one_text_out : one_text.0.srv.out 0 ≡ some (0, 0)
unfolding client server
one_text_out = refl

printed_in_order_example :
    (one_text.0.srv.printed ≤ (one_text.0.clients 0).sent)
    × ((k : ℕ)
        → k < one_text.0.srv.printed
        → one_text.0.srv.out k ≡ some (0, (one_text.0.clients 0).log k))
    × ((k k' : ℕ)
        → k < k'
        → k' < (one_text.0.clients 0).sent
        → (one_text.0.clients 0).log k < (one_text.0.clients 0).log k')
    × ((one_text.0.clients 0).i ≤ (one_text.0.clients 0).sent + one_text.0.mem.noverflow)
    × ((one_text.0.clients 0).sent + one_text.0.mem.noverflow ≤ (one_text.0.clients 0).i + 1)
printed_in_order_example = printed_in_order one_text.1

unwritten_slot_printed_example :
    (s : System) × Reach 3 2 s
    × (s.srv.printed ≡ 1)
    × (s.srv.out 0 ≡ none)
    × ((s.clients 0).sent ≡ 0)
    × ((s.clients 1).sent ≡ 1)
    × (s.srv.index ≡ 1)
    × ((s.clients 0).at ≡ k_copy)
    × ((s.clients 0).offset ≡ 0)
    × ((s.clients 1).offset ≡ mesgsize)
    × (s.mem.nput ≡ 2)
    × (s.mem.msgdata 0 ≡ none)
    × (s.mem.msgdata mesgsize ≡ some (1, 0))
unwritten_slot_printed_example = unwritten_slot_printed 2 0
