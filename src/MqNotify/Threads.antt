-- ===== src/MqNotify/Threads.antt =====
-- codes/5.MessageQueue/mqnotifythread1.c: each notification starts a thread that registers again and
-- empties the queue, so that several of them can be at work.
mod Tests
use unpvol.Base.{
  ℕ, zero, suc, ◌+◌, ◌<◌, ◌≤◌, ◌≡◌, ◌≢◌, refl, arith, ◌==◌, if◌then◌else◌, update, total,
  total-update, total-ext, total-zero, le-total, Option, none, some, List, [], ◌∷◌, ◌++◌,
}
use mathlib.Core.List.{append-nil}
use unpvol.MqNotify.Priority.{
  Message, insert, of_priority, nothing-InOrder, empty-InOrder, insert-InOrder, insert-nonempty,
}
use unpvol.MqNotify.Queue.{
  Mq, fresh, mq_notify, mq_receive, mq_send, notices, IsInOrder, mq_notify-IsInOrder,
  mq_receive-IsInOrder,
}

-- `failed` is where `Mq_notify` has ended the program.
pub data Pc : Type 0 where
  at_notify at_receive at_exit failed : Pc

pub record Ran : Type 0 where
  pub mq : Mq
  pub at : Pc

-- A step of `notify_thread`; `none` where it has exited.
unfoldable pub notify_thread : Mq → Pc → Option Ran
notify_thread m at_notify = elim (mq_notify m) [
  | none ↦ some (record { mq = m; at = failed })
  | some k ↦ some (record { mq = k; at = at_receive })
]
notify_thread m at_receive = elim (mq_receive m) [
  | none ↦ some (record { mq = m; at = at_exit })
  | some k ↦ some (record { mq = k; at = at_receive })
]
notify_thread m _ = none

-- The first `started` of `threads` have been started.
pub record State : Type 0 where
  pub mq : Mq
  pub started : ℕ
  pub threads : ℕ → Pc

-- A send that sets off a notification starts a thread.
abbrev pub start_thread : ℕ → State → State
start_thread zero s = s
start_thread (suc k) s = record s {
  started = suc s.started;
  threads = update s.threads s.started at_notify;
}

pub data Step (s : State) : State → Type 0 where
  runs :
      (i : ℕ) {l : Ran}
      → i < s.started
      → notify_thread s.mq (s.threads i) ≡ some l
      → Step s (record s { mq = l.mq; threads = update s.threads i l.at })
  sends : (v : Message) → Step s (start_thread (notices s.mq) (record s { mq = mq_send v s.mq }))

-- `main` in its loop, on an empty queue.
abbrev pub main : State
main = record { mq = fresh; started = 0; threads = λ _. at_exit }

pub data Reach : State → Type 0 where
  start : Reach main
  later : {s t : State} → Reach s → Step s t → Reach t

abbrev notifying : Pc → ℕ
notifying at_notify = 1
notifying _ = 0

abbrev receiving : Pc → ℕ
receiving at_receive = 1
receiving _ = 0

abbrev failing : Pc → ℕ
failing failed = 1
failing _ = 0

-- What the counts of the threads say of the queue.
record IsSound (m : Mq) (n r f : ℕ) : Type 0 where
  once : m.registered + n ≡ 1
  looks : n + r ≡ 0 → m.queue ≡ []
  alive : f ≡ 0
  in_order : IsInOrder m

abbrev IsGood : State → Type 0
IsGood s =
    IsSound s.mq (total notifying s.started s.threads) (total receiving s.started s.threads)
      (total failing s.started s.threads)

module _ {m : Mq} {n r f : ℕ} (g : IsSound m n r f) where
  thread-InOrder : {l : Ran} (p : Pc) → notify_thread m p ≡ some l → IsInOrder l.mq
  unfolding notify_thread
  thread-InOrder {l} at_receive e = receive (mq_receive m) refl e
    where
      receive :
          (o : Option Mq)
          → mq_receive m ≡ o
          → (elim o [
            | none ↦ some (record { mq = m; at = at_exit })
            | some k ↦ some (record { mq = k; at = at_receive })
          ])
            ≡ some l
          → IsInOrder l.mq
      receive none h e = ground (arith, g.in_order)
      receive (some k) h e = ground (arith, mq_receive-IsInOrder m g.in_order h)
  thread-InOrder at_notify e = ground (arith, g.in_order)
  thread-InOrder _ e = ground (arith, g.in_order)

  thread-IsSound :
      {l : Ran} {n' r' f' : ℕ} (p : Pc)
      → notify_thread m p ≡ some l
      → notifying p ≤ n
      → n' + notifying p ≡ n + notifying l.at
      → r' + receiving p ≡ r + receiving l.at
      → f' + failing p ≡ f + failing l.at
      → IsSound l.mq n' r' f'
  unfolding notify_thread
  thread-IsSound at_notify e in_n a b c = record {
    once = ground (arith, g.once);
    looks = ground (arith, g.once, g.looks);
    alive = ground (arith, g.alive, g.once);
    in_order = thread-InOrder at_notify e;
  }
  thread-IsSound at_receive e in_n a b c = record {
    once = ground (arith, g.once);
    looks = ground (arith, g.looks);
    alive = ground (arith, g.alive);
    in_order = thread-InOrder at_receive e;
  }
  thread-IsSound _ e in_n a b c = absurd (ground arith)

-- One more thread at the end of the family.
total-start :
    (w : Pc → ℕ) (n : ℕ) (f : ℕ → Pc)
    → total w (suc n) (update f n at_notify) ≡ w at_notify + total w n f
unfolding total
total-start w n f = ground (arith, total-ext w n (update f n at_notify) f (λ j lt. ground arith))

send-IsGood :
    (v : Message) (s : State) (k : ℕ)
    → notices s.mq ≡ k
    → IsGood s
    → IsGood (start_thread k (record s { mq = mq_send v s.mq }))
send-IsGood v s zero h g = record {
  once = ground (arith, g.once);
  looks = λ q. absurd (ground (arith, g.once, g.looks));
  alive = g.alive;
  in_order = insert-InOrder v g.in_order;
}
send-IsGood v s (suc k) h g = record {
  once = ground (arith, g.once, total-start notifying s.started s.threads);
  looks = λ q. absurd (omega (arith, total-start notifying s.started s.threads));
  alive = ground (arith, g.alive, total-start failing s.started s.threads);
  in_order = insert-InOrder v g.in_order;
}

Reach-IsGood : {s : State} → Reach s → IsGood s
unfolding total
Reach-IsGood start = record {
  once = refl;
  looks = λ h. refl;
  alive = refl;
  in_order = nothing-InOrder;
}
Reach-IsGood (later {s} r (runs i {l} lt e)) =
    thread-IsSound (Reach-IsGood r) (s.threads i) e (le-total notifying s.started s.threads i lt)
      (total-update notifying s.started s.threads i l.at lt)
      (total-update receiving s.started s.threads i l.at lt)
      (total-update failing s.started s.threads i l.at lt)
Reach-IsGood (later {s} r (sends v)) = send-IsGood v s (notices s.mq) refl (Reach-IsGood r)

-- In a reachable state of mqnotifythread1, begun on an empty queue, no thread has met a failure of
-- `Mq_notify`; of each priority, what has been received and what is in the queue is what was sent in
-- the order of sending; the queue gives the highest priority first; and where
-- all threads have exited, all messages have been received and the next one starts a thread.
pub threads_empty_queue :
    {s : State}
    → Reach s
    → ((i : ℕ) → i < s.started → s.threads i ≢ failed)
      × IsInOrder s.mq
      × (((i : ℕ) → i < s.started → s.threads i ≡ at_exit)
          → (s.mq.queue ≡ [])
            × ((p : ℕ) → of_priority p s.mq.sent ≡ of_priority p s.mq.received)
            × (s.mq.registered ≡ 1))
threads_empty_queue {s} r = (
  λ i lt q.
      absurd (ground (arith, (Reach-IsGood r).alive, le-total failing s.started s.threads i lt)),
  (Reach-IsGood r).in_order,
  λ all.
      let n : total notifying s.started s.threads ≡ 0 = gone notifying refl all in
      let k : total receiving s.started s.threads ≡ 0 = gone receiving refl all in
      let e : s.mq.queue ≡ [] = (Reach-IsGood r).looks (omega (arith, n, k)) in
      (e, empty-InOrder (Reach-IsGood r).in_order e, omega (arith, (Reach-IsGood r).once, n)),
)
  where
    gone :
        (w : Pc → ℕ)
        → w at_exit ≡ 0
        → ((i : ℕ) → i < s.started → s.threads i ≡ at_exit)
        → total w s.started s.threads ≡ 0
    gone w z all = total-zero w s.started s.threads (λ j lt. rw (all j lt) z)
