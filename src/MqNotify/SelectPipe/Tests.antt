-- ===== src/MqNotify/SelectPipe/Tests.antt =====
-- A run of mqnotifysig5.c, and the theorem at it.
use unpvol.Base.{ℕ, ◌≤◌, ◌≡◌, ◌≢◌, refl, [], ◌∷◌}
use unpvol.MqNotify.Priority.{Message, of_priority}
use unpvol.MqNotify.Queue.{IsInOrder}
use unpvol.MqNotify.SelectPipe.{
  State, goes, delivers, sends, Reach, start, later, select_loop, at_select, exited,
  selects_on_empty,
}

-- Two messages, of which the second has the lower priority.
abbrev five : Message
five = record { prio = 1; text = 5 }

abbrev six : Message
six = record { prio = 0; text = 6 }

-- A second message comes between the byte in the pipe and its reading.
abbrev two_selected : (s : State) × Reach s
unfolding select_loop
two_selected = (
  _,
  later
      (later
        (later
          (later
            (later
              (later (later (later (later start (sends five)) (delivers refl)) (goes refl))
                (sends six))
              (goes refl))
            (goes refl))
          (goes refl))
        (goes refl))
      (goes refl),
)

selects_on_empty_example :
    (two_selected.0.at ≢ exited)
    × (two_selected.0.pipe ≤ 1)
    × IsInOrder two_selected.0.mq
    × (two_selected.0.at ≡ at_select
        → two_selected.0.pending ≡ 0
        → two_selected.0.pipe ≡ 0
        → (two_selected.0.mq.queue ≡ [])
          × ((p : ℕ)
              → of_priority p two_selected.0.mq.sent ≡ of_priority p two_selected.0.mq.received)
          × (two_selected.0.mq.registered ≡ 1))
selects_on_empty_example = selects_on_empty two_selected.1

two_selected_received :
    (two_selected.0.at ≡ at_select) × (two_selected.0.mq.received ≡ five ∷ six ∷ [])
unfolding select_loop
two_selected_received = (refl, refl)
