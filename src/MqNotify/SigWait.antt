-- ===== src/MqNotify/SigWait.antt =====
-- codes/5.MessageQueue/mqnotifysig4.c: the signal is never delivered, the loop takes it by `sigwait`.
mod Tests
use unpvol.Base.{ℕ, zero, suc, ◌+◌, ◌≤◌, ◌≡◌, ◌≢◌, refl, arith, Option, none, some, List, [], ◌∷◌}
use mathlib.Core.List.{append-nil}
use unpvol.MqNotify.Priority.{
  Message, insert, of_priority, nothing-InOrder, empty-InOrder, insert-InOrder, insert-nonempty,
}
use unpvol.MqNotify.Queue.{
  Mq, fresh, mq_notify, mq_receive, mq_send, notices, IsInOrder, mq_notify-IsInOrder,
  mq_receive-IsInOrder,
}

-- `Mq_notify` ends the program where `mq_notify` fails.
pub data Pc : Type 0 where
  at_sigwait at_notify at_receive exited : Pc

-- `pending` is 1 while SIGUSR1 is pending.
pub record State : Type 0 where
  pub at : Pc
  pub pending : ℕ
  pub mq : Mq

-- One step of the loop; `none` where it waits or has exited.
unfoldable pub sigwait_loop : State → Pc → Option State
sigwait_loop s at_sigwait = elim s.pending [
  | zero ↦ none
  | suc k ↦ some (record s { at = at_notify; pending = k })
]
sigwait_loop s at_notify = elim (mq_notify s.mq) [
  | none ↦ some (record s { at = exited })
  | some m ↦ some (record s { at = at_receive; mq = m })
]
sigwait_loop s at_receive = elim (mq_receive s.mq) [
  | none ↦ some (record s { at = at_sigwait })
  | some m ↦ some (record s { at = at_receive; mq = m })
]
sigwait_loop s exited = none

pub data Step (s : State) : State → Type 0 where
  goes : {t : State} → sigwait_loop s s.at ≡ some t → Step s t
  sends :
      (v : Message) → Step s (record s { pending = s.pending + notices s.mq; mq = mq_send v s.mq })

-- `main` before the loop, on an empty queue.
abbrev pub main : State
main = record { at = at_sigwait; pending = 0; mq = fresh }

pub data Reach : State → Type 0 where
  start : Reach main
  later : {s t : State} → Reach s → Step s t → Reach t

abbrev notifying : Pc → ℕ
notifying at_notify = 1
notifying _ = 0

-- A message in the queue has a notification on its way or the loop at work.
abbrev Looks : State → Pc → Type 0
Looks s at_sigwait = s.pending ≡ 0 → s.mq.queue ≡ []
Looks s exited = ⊥
Looks s _ = Unit

record IsGood (s : State) : Type 0 where
  once : s.mq.registered + s.pending + notifying s.at ≡ 1
  looks : Looks s s.at
  in_order : IsInOrder s.mq

module _ (s : State) (g : IsGood s) where
  loop-once :
      {t : State} (p : Pc)
      → s.at ≡ p
      → sigwait_loop s p ≡ some t
      → t.mq.registered + t.pending + notifying t.at ≡ 1
  unfolding sigwait_loop
  loop-once at_sigwait q e = ground (arith, g.once)
  loop-once _ q e = ground (arith, g.once)

  loop-Looks : {t : State} (p : Pc) → s.at ≡ p → sigwait_loop s p ≡ some t → Looks t t.at
  unfolding sigwait_loop
  loop-Looks at_notify q e = ground (arith, g.once)
  loop-Looks _ q e = ground (arith, g.once)

  loop-InOrder : {t : State} (p : Pc) → s.at ≡ p → sigwait_loop s p ≡ some t → IsInOrder t.mq
  unfolding sigwait_loop
  loop-InOrder {t} at_receive q e = receive (mq_receive s.mq) refl e
    where
      receive :
          (o : Option Mq)
          → mq_receive s.mq ≡ o
          → (elim o [
            | none ↦ some (record s { at = at_sigwait })
            | some m ↦ some (record s { at = at_receive; mq = m })
          ])
            ≡ some t
          → IsInOrder t.mq
      receive none h e = ground (arith, g.in_order)
      receive (some m) h e = ground (arith, mq_receive-IsInOrder s.mq g.in_order h)
  loop-InOrder at_notify q e = ground (arith, g.in_order)
  loop-InOrder _ q e = ground (arith, g.in_order)

  send-IsGood :
      (v : Message) → IsGood (record s { pending = s.pending + notices s.mq; mq = mq_send v s.mq })
  send-IsGood v = record {
    once = ground (arith, g.once);
    looks = send-Looks s.at refl;
    in_order = insert-InOrder v g.in_order;
  }
    where
      send-Looks :
          (p : Pc)
          → s.at ≡ p
          → Looks (record s { pending = s.pending + notices s.mq; mq = mq_send v s.mq }) p
      send-Looks at_sigwait q = λ h. absurd (ground (arith, g.once, g.looks))
      send-Looks exited q = ground (arith, g.looks)
      send-Looks _ q = ground arith

Reach-IsGood : {s : State} → Reach s → IsGood s
Reach-IsGood start = record { once = refl; looks = λ h. refl; in_order = nothing-InOrder }
Reach-IsGood (later {s} r (goes e)) = record {
  once = loop-once s (Reach-IsGood r) s.at refl e;
  looks = loop-Looks s (Reach-IsGood r) s.at refl e;
  in_order = loop-InOrder s (Reach-IsGood r) s.at refl e;
}
Reach-IsGood (later {s} r (sends v)) = send-IsGood s (Reach-IsGood r) v

-- In a reachable state of mqnotifysig4, begun on an empty queue, `Mq_notify` has not failed; of each
-- priority, what has been received and what is in the queue is what was sent in the order of sending;
-- the queue gives the highest priority first; and where the process waits in
-- `sigwait` with no signal pending, all messages have been received and the next one will be
-- signalled.
pub waits_on_empty :
    {s : State}
    → Reach s
    → (s.at ≢ exited)
      × IsInOrder s.mq
      × (s.at ≡ at_sigwait
          → s.pending ≡ 0
          → (s.mq.queue ≡ [])
            × ((p : ℕ) → of_priority p s.mq.sent ≡ of_priority p s.mq.received)
            × (s.mq.registered ≡ 1))
waits_on_empty {s} r = (
  λ q. ground (arith, (Reach-IsGood r).looks),
  (Reach-IsGood r).in_order,
  λ q h.
      let e : s.mq.queue ≡ [] = ground (arith, (Reach-IsGood r).looks) in
      (e, empty-InOrder (Reach-IsGood r).in_order e, ground (arith, (Reach-IsGood r).once)),
)
