-- ===== src/MqNotify/Threads/Tests.antt =====
-- A run of mqnotifythread1.c with two threads at work, and the theorem at it.
use unpvol.Base.{ℕ, ◌<◌, ◌≡◌, ◌≢◌, refl, arith, [], ◌∷◌}
use unpvol.MqNotify.Priority.{Message, of_priority}
use unpvol.MqNotify.Queue.{IsInOrder}
use unpvol.MqNotify.Threads.{
  State, runs, sends, Reach, start, later, notify_thread, at_exit, failed, threads_empty_queue,
}

-- Two messages, of which the second has the lower priority.
abbrev five : Message
five = record { prio = 1; text = 5 }

abbrev six : Message
six = record { prio = 0; text = 6 }

-- The first thread has read a message, and a second message starts a second thread, which reads it.
abbrev two_threads : (s : State) × Reach s
unfolding notify_thread
two_threads = (
  _,
  later
      (later
        (later
          (later
            (later
              (later (later (later start (sends five)) (runs 0 (omega arith) refl))
                (runs 0 (omega arith) refl))
              (sends six))
            (runs 1 (omega arith) refl))
          (runs 1 (omega arith) refl))
        (runs 0 (omega arith) refl))
      (runs 1 (omega arith) refl),
)

threads_empty_queue_example :
    ((i : ℕ) → i < two_threads.0.started → two_threads.0.threads i ≢ failed)
    × IsInOrder two_threads.0.mq
    × (((i : ℕ) → i < two_threads.0.started → two_threads.0.threads i ≡ at_exit)
        → (two_threads.0.mq.queue ≡ [])
          × ((p : ℕ)
              → of_priority p two_threads.0.mq.sent ≡ of_priority p two_threads.0.mq.received)
          × (two_threads.0.mq.registered ≡ 1))
threads_empty_queue_example = threads_empty_queue two_threads.1

two_threads_received :
    (two_threads.0.threads 0 ≡ at_exit)
    × (two_threads.0.threads 1 ≡ at_exit)
    × (two_threads.0.mq.received ≡ five ∷ six ∷ [])
unfolding notify_thread
two_threads_received = (refl, refl, refl)
