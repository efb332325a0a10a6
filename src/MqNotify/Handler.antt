-- ===== src/MqNotify/Handler.antt =====
-- codes/5.MessageQueue/mqnotifysig1.c: the handler does everything, while `main` pauses.
mod Tests
use unpvol.Base.{ℕ, zero, suc, ◌+◌, ◌≡◌, ◌≢◌, refl, arith, Option, none, some, List, [], ◌∷◌, ◌++◌}
use unpvol.MqNotify.Priority.{
  Message, insert, of_priority, nothing-InOrder, empty-InOrder, insert-InOrder, insert-nonempty,
  first_of, second_of, insert-two,
}
use unpvol.MqNotify.Queue.{Mq, fresh, mq_notify, mq_receive, mq_send, notices}

-- Inside `pause`, or in the handler.
pub data Pc : Type 0 where
  in_pause in_notify in_receive : Pc

-- `pending` is 1 while SIGUSR1 is pending.
pub record State : Type 0 where
  pub at : Pc
  pub pending : ℕ
  pub mq : Mq

-- A step of `sig_usr1`, which does not look at the result of `mq_notify` and blocks in `mq_receive`
-- where there is no message.
unfoldable pub handler : State → Pc → Option State
handler s in_pause = none
handler s in_notify = elim (mq_notify s.mq) [
  | none ↦ some (record s { at = in_receive })
  | some m ↦ some (record s { at = in_receive; mq = m })
]
handler s in_receive = elim (mq_receive s.mq) [
  | none ↦ none
  | some m ↦ some (record s { at = in_pause; mq = m })
]

-- The signal is blocked while its handler runs.
pub data Step (s : State) : State → Type 0 where
  goes : {t : State} → handler s s.at ≡ some t → Step s t
  delivers :
      {k : ℕ}
      → s.pending ≡ suc k
      → s.at ≡ in_pause
      → Step s (record s { at = in_notify; pending = 0 })
  sends :
      (v : Message) → Step s (record s { pending = s.pending + notices s.mq; mq = mq_send v s.mq })

-- `main` in its loop, on an empty queue.
abbrev pub main : State
main = record { at = in_pause; pending = 0; mq = fresh }

pub data Runs (s : State) : State → Type 0 where
  start : Runs s s
  later : {t u : State} → Runs s t → Step t u → Runs s u

record IsStuck (s : State) : Type 0 where
  pausing : s.at ≡ in_pause
  unsignalled : s.pending ≡ 0
  waiting : s.mq.queue ≢ []

Step-IsStuck : {s t : State} → IsStuck s → Step s t → IsStuck t
unfolding handler
Step-IsStuck g (goes e) = absurd (ground (arith, g.pausing))
Step-IsStuck g (delivers p q) = absurd (ground (arith, g.unsignalled))
Step-IsStuck {s} g (sends v) = record {
  pausing = g.pausing;
  unsignalled = ground (arith, g.unsignalled, g.waiting);
  waiting = insert-nonempty v s.mq.queue;
}

Runs-IsStuck : {s t : State} → IsStuck s → Runs s t → IsStuck t
Runs-IsStuck g start = g
Runs-IsStuck g (later r st) = Step-IsStuck (Runs-IsStuck g r) st

-- Both messages are in the queue, and the handler is at `mq_receive`.
abbrev both_sent : Message → Message → State
both_sent v w = record {
  at = in_receive;
  pending = 0;
  mq = record { registered = 1; queue = insert w (v ∷ []); received = []; sent = v ∷ w ∷ [] };
}

abbrev one_read : Message → Message → State
one_read v w = record {
  at = in_pause;
  pending = 0;
  mq = record {
    registered = 1;
    queue = second_of v w ∷ [];
    received = first_of v w ∷ [];
    sent = v ∷ w ∷ [];
  };
}

reads_first : (v w : Message) → handler (both_sent v w) in_receive ≡ some (one_read v w)
unfolding handler
reads_first v w = rw (insert-two v w) refl

-- Whatever two messages are sent before the first is read, mqnotifysig1 reaches from an empty queue a
-- state in which only one of them has been received (the second if its priority is higher, else the
-- first), and after which, whatever is sent, the process pauses with messages in the queue.
pub second_message_waits :
    (v w : Message)
    → (s : State) × Runs main s
      × (s.mq.sent ≡ v ∷ w ∷ [])
      × (s.mq.received ≡ first_of v w ∷ [])
      × ((t : State) → Runs s t → (t.at ≡ in_pause) × (t.mq.queue ≢ []))
unfolding handler
second_message_waits v w = (
  one_read v w,
  later (later (later (later (later start (sends v)) (sends w)) (delivers refl refl)) (goes refl))
      (goes (reads_first v w)),
  refl,
  refl,
  λ t r.
      let g =
        Runs-IsStuck (record { pausing = refl; unsignalled = refl; waiting = λ e. ground arith })
          r in
      (g.pausing, g.waiting),
)
