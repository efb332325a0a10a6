-- ===== src/MqNotify/SigWait/Tests.antt =====
-- A run of mqnotifysig4.c, and the theorem at it.
use unpvol.Base.{ℕ, ◌≡◌, ◌≢◌, refl, [], ◌∷◌}
use unpvol.MqNotify.Priority.{Message, of_priority}
use unpvol.MqNotify.Queue.{IsInOrder}
use unpvol.MqNotify.SigWait.{
  State, goes, sends, Reach, start, later, sigwait_loop, at_sigwait, exited, waits_on_empty,
}

-- Two messages, of which the second has the lower priority.
abbrev five : Message
five = record { prio = 1; text = 5 }

abbrev six : Message
six = record { prio = 0; text = 6 }

-- A second message comes while the first is handled.
abbrev two_waited : (s : State) × Reach s
unfolding sigwait_loop
two_waited = (
  _,
  later
      (later
        (later
          (later (later (later (later start (sends five)) (goes refl)) (goes refl)) (sends six))
          (goes refl))
        (goes refl))
      (goes refl),
)

waits_on_empty_example :
    (two_waited.0.at ≢ exited)
    × IsInOrder two_waited.0.mq
    × (two_waited.0.at ≡ at_sigwait
        → two_waited.0.pending ≡ 0
        → (two_waited.0.mq.queue ≡ [])
          × ((p : ℕ) → of_priority p two_waited.0.mq.sent ≡ of_priority p two_waited.0.mq.received)
          × (two_waited.0.mq.registered ≡ 1))
waits_on_empty_example = waits_on_empty two_waited.1

two_waited_received : (two_waited.0.at ≡ at_sigwait) × (two_waited.0.mq.received ≡ five ∷ six ∷ [])
unfolding sigwait_loop
two_waited_received = (refl, refl)
