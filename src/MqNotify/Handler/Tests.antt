-- ===== src/MqNotify/Handler/Tests.antt =====
-- The theorem on mqnotifysig1.c at two messages, of which the second has the higher priority.
use unpvol.Base.{◌≡◌, ◌≢◌, [], ◌∷◌}
use unpvol.MqNotify.Priority.{Message}
use unpvol.MqNotify.Handler.{in_pause, State, main, Runs, second_message_waits}

abbrev five : Message
five = record { prio = 0; text = 5 }

abbrev six : Message
six = record { prio = 1; text = 6 }

second_message_waits_example :
    (s : State) × Runs main s
    × (s.mq.sent ≡ five ∷ six ∷ [])
    × (s.mq.received ≡ six ∷ [])
    × ((t : State) → Runs s t → (t.at ≡ in_pause) × (t.mq.queue ≢ []))
second_message_waits_example = second_message_waits five six
