-- ===== src/MqNotify/SelectPipe.antt =====
-- codes/5.MessageQueue/mqnotifysig5.c: the handler writes a byte into a pipe that the loop selects on.
-- `Select` and `Read` of unpipc.h go on after a signal.
mod Tests
use unpvol.Base.{ℕ, zero, suc, ◌+◌, ◌≤◌, ◌≡◌, ◌≢◌, refl, arith, Option, none, some, List, [], ◌∷◌}
use mathlib.Core.List.{append-nil}
use unpvol.MqNotify.Priority.{
  Message, insert, of_priority, nothing-InOrder, empty-InOrder, insert-InOrder, insert-nonempty,
}
use unpvol.MqNotify.Queue.{
  Mq, fresh, mq_notify, mq_receive, mq_send, notices, IsInOrder, mq_notify-IsInOrder,
  mq_receive-IsInOrder,
}

-- `Mq_notify` ends the program where `mq_notify` fails.
pub data Pc : Type 0 where
  at_select at_read at_notify at_receive exited : Pc

-- `pending` is 1 while SIGUSR1 is pending; `pipe` is how many bytes the pipe holds.
pub record State : Type 0 where
  pub at : Pc
  pub pending : ℕ
  pub pipe : ℕ
  pub mq : Mq

-- One step of the loop; `none` where it waits or has exited.
unfoldable pub select_loop : State → Pc → Option State
select_loop s at_select = elim s.pipe [ zero ↦ none | suc k ↦ some (record s { at = at_read }) ]
select_loop s at_read = elim s.pipe [
  | zero ↦ none
  | suc k ↦ some (record s { at = at_notify; pipe = k })
]
select_loop s at_notify = elim (mq_notify s.mq) [
  | none ↦ some (record s { at = exited })
  | some m ↦ some (record s { at = at_receive; mq = m })
]
select_loop s at_receive = elim (mq_receive s.mq) [
  | none ↦ some (record s { at = at_select })
  | some m ↦ some (record s { at = at_receive; mq = m })
]
select_loop s exited = none

-- `sig_usr1`, which takes the pending signal.
abbrev pub sig_usr1 : State → State
sig_usr1 s = record s { pending = 0; pipe = s.pipe + 1 }

pub data Step (s : State) : State → Type 0 where
  goes : {t : State} → select_loop s s.at ≡ some t → Step s t
  delivers : s.pending ≡ 1 → Step s (sig_usr1 s)
  sends :
      (v : Message) → Step s (record s { pending = s.pending + notices s.mq; mq = mq_send v s.mq })

-- `main` before the loop, on an empty queue.
abbrev pub main : State
main = record { at = at_select; pending = 0; pipe = 0; mq = fresh }

pub data Reach : State → Type 0 where
  start : Reach main
  later : {s t : State} → Reach s → Step s t → Reach t

abbrev notifying : Pc → ℕ
notifying at_notify = 1
notifying _ = 0

-- A message in the queue has a notification on its way or the loop at work.
abbrev Looks : State → Pc → Type 0
Looks s at_select = s.pending + s.pipe ≡ 0 → s.mq.queue ≡ []
Looks s at_read = s.pipe ≡ 1
Looks s exited = ⊥
Looks s _ = Unit

record IsGood (s : State) : Type 0 where
  once : s.mq.registered + s.pending + s.pipe + notifying s.at ≡ 1
  looks : Looks s s.at
  in_order : IsInOrder s.mq

module _ (s : State) (g : IsGood s) where
  loop-once :
      {t : State} (p : Pc)
      → s.at ≡ p
      → select_loop s p ≡ some t
      → t.mq.registered + t.pending + t.pipe + notifying t.at ≡ 1
  unfolding select_loop
  loop-once at_select q e = ground (arith, g.once)
  loop-once at_read q e = ground (arith, g.once, g.looks)
  loop-once _ q e = ground (arith, g.once)

  loop-Looks : {t : State} (p : Pc) → s.at ≡ p → select_loop s p ≡ some t → Looks t t.at
  unfolding select_loop
  loop-Looks at_notify q e = ground (arith, g.once)
  loop-Looks _ q e = ground (arith, g.once)

  loop-InOrder : {t : State} (p : Pc) → s.at ≡ p → select_loop s p ≡ some t → IsInOrder t.mq
  unfolding select_loop
  loop-InOrder {t} at_receive q e = receive (mq_receive s.mq) refl e
    where
      receive :
          (o : Option Mq)
          → mq_receive s.mq ≡ o
          → (elim o [
            | none ↦ some (record s { at = at_select })
            | some m ↦ some (record s { at = at_receive; mq = m })
          ])
            ≡ some t
          → IsInOrder t.mq
      receive none h e = ground (arith, g.in_order)
      receive (some m) h e = ground (arith, mq_receive-IsInOrder s.mq g.in_order h)
  loop-InOrder at_notify q e = ground (arith, g.in_order)
  loop-InOrder _ q e = ground (arith, g.in_order)

  send-IsGood :
      (v : Message) → IsGood (record s { pending = s.pending + notices s.mq; mq = mq_send v s.mq })
  send-IsGood v = record {
    once = ground (arith, g.once);
    looks = send-Looks s.at refl;
    in_order = insert-InOrder v g.in_order;
  }
    where
      send-Looks :
          (p : Pc)
          → s.at ≡ p
          → Looks (record s { pending = s.pending + notices s.mq; mq = mq_send v s.mq }) p
      send-Looks at_select q = λ h. absurd (ground (arith, g.once, g.looks))
      send-Looks exited q = ground (arith, g.looks)
      send-Looks _ q = ground arith

  signal-IsGood : s.pending ≡ 1 → IsGood (sig_usr1 s)
  signal-IsGood h = record {
    once = ground (arith, g.once);
    looks = signal-Looks s.at refl;
    in_order = g.in_order;
  }
    where
      signal-Looks : (p : Pc) → s.at ≡ p → Looks (sig_usr1 s) p
      signal-Looks at_select q = λ k. absurd (omega (arith, k))
      signal-Looks at_read q = ground (arith, g.once, g.looks)
      signal-Looks exited q = ground (arith, g.looks)
      signal-Looks _ q = ground arith

Reach-IsGood : {s : State} → Reach s → IsGood s
Reach-IsGood start = record { once = refl; looks = λ h. refl; in_order = nothing-InOrder }
Reach-IsGood (later {s} r (goes e)) = record {
  once = loop-once s (Reach-IsGood r) s.at refl e;
  looks = loop-Looks s (Reach-IsGood r) s.at refl e;
  in_order = loop-InOrder s (Reach-IsGood r) s.at refl e;
}
Reach-IsGood (later {s} r (delivers h)) = signal-IsGood s (Reach-IsGood r) h
Reach-IsGood (later {s} r (sends v)) = send-IsGood s (Reach-IsGood r) v

-- In a reachable state of mqnotifysig5, begun on an empty queue, `Mq_notify` has not failed, the pipe
-- holds one byte at most; of each priority, what has been received and what is in the queue is what
-- was sent in the order of sending; the queue gives the highest priority first; and where the process is before `Select` with the pipe empty and no signal pending, all messages
-- have been received and the next one will be signalled.
pub selects_on_empty :
    {s : State}
    → Reach s
    → (s.at ≢ exited)
      × (s.pipe ≤ 1)
      × IsInOrder s.mq
      × (s.at ≡ at_select
          → s.pending ≡ 0
          → s.pipe ≡ 0
          → (s.mq.queue ≡ [])
            × ((p : ℕ) → of_priority p s.mq.sent ≡ of_priority p s.mq.received)
            × (s.mq.registered ≡ 1))
selects_on_empty {s} r = (
  λ q. ground (arith, (Reach-IsGood r).looks),
  omega (arith, (Reach-IsGood r).once),
  (Reach-IsGood r).in_order,
  λ q h h'.
      let e : s.mq.queue ≡ [] = ground (arith, (Reach-IsGood r).looks) in
      (e, empty-InOrder (Reach-IsGood r).in_order e, ground (arith, (Reach-IsGood r).once)),
)
