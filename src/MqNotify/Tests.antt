-- ===== src/MqNotify/Tests.antt =====
-- A run of mqnotifysig3.c, and the theorems at messages.
use unpvol.Base.{ℕ, ◌≡◌, ◌≢◌, refl, true, false, inr, [], ◌∷◌}
use unpvol.MqNotify.Priority.{Message, of_priority, InOrder}
use unpvol.MqNotify.Defs.{
  asleep, State, drain_loop, read_one_loop, sig_usr1, send, goes, delivers, sends, main, Runs,
  start, later,
}
use unpvol.MqNotify.Drained.{sleeps_on_empty}
use unpvol.MqNotify.Stuck.{second_message_stays}

abbrev five : Message
five = record { prio = 1; text = 5 }

abbrev six : Message
six = record { prio = 0; text = 6 }

-- Two messages come before the signal is handled; both are read, and the process sleeps again.
abbrev read_both : (s : State) × Runs drain_loop main s
unfolding drain_loop send sig_usr1
read_both = (
  _,
  (later
      (later
        (later
          (later
            (later
              (later
                (later
                  (later
                    (later
                      (later
                        (later (later (later (later start (goes refl)) (goes refl)) (sends five))
                          (sends six))
                        (delivers refl (inr refl)))
                      (goes refl))
                    (goes refl))
                  (goes refl))
                (goes refl))
              (goes refl))
            (goes refl))
          (goes refl))
        (goes refl))
      (goes refl)),
)

read_both_asleep : (read_both.0.at ≡ asleep) × (read_both.0.received ≡ five ∷ six ∷ [])
unfolding drain_loop send sig_usr1
read_both_asleep = (refl, refl)

sleeps_on_empty_example :
    InOrder read_both.0.sent read_both.0.received read_both.0.queue
    × (read_both.0.at ≡ asleep
        → read_both.0.mqflag ≡ false
        → read_both.0.pending ≡ false
        → (read_both.0.queue ≡ [])
          × ((p : ℕ) → of_priority p read_both.0.sent ≡ of_priority p read_both.0.received)
          × (read_both.0.registered ≡ true))
sleeps_on_empty_example = sleeps_on_empty read_both.1

second_message_stays_example :
    (s : State) × Runs read_one_loop main s
    × (s.sent ≡ five ∷ six ∷ [])
    × (s.received ≡ five ∷ [])
    × ((t : State) → Runs read_one_loop s t → (t.at ≡ asleep) × (t.queue ≢ []))
second_message_stays_example = second_message_stays five six
