-- ===== src/MqNotify/Queue.antt =====
-- A message queue with its one registration, as the system keeps it for the programs of
-- codes/5.MessageQueue.
use unpvol.Base.{ℕ, zero, suc, ◌≡◌, arith, Option, none, some, List, [], ◌∷◌, ◌++◌}
use unpvol.MqNotify.Priority.{Message, insert, InOrder, receive-InOrder}

-- `registered` is 1 while an `mq_notify` is in force. `queue` has the messages in the order in which they
-- will be received, `received` and `sent` in the order of that, the oldest first.
pub record Mq : Type 0 where
  pub registered : ℕ
  pub queue : List Message
  pub received : List Message
  pub sent : List Message

-- A queue that nothing has been sent to, with a process registered.
abbrev pub fresh : Mq
fresh = record { registered = 1; queue = []; received = []; sent = [] }

-- `mq_notify`: a queue has one registration only; `none` is EBUSY.
abbrev pub mq_notify : Mq → Option Mq
mq_notify m = elim m.registered [ zero ↦ some (record m { registered = 1 }) | suc _ ↦ none ]

-- `mq_receive`; `none` where there is no message.
abbrev pub mq_receive : Mq → Option Mq
mq_receive m = elim m.queue [
  | [] ↦ none
  | v ∷ q ↦ some (record m { queue = q; received = m.received ++ (v ∷ []) })
]

-- `mq_send` of another process. A message on an empty queue uses up the registration.
abbrev pub mq_send : Message → Mq → Mq
mq_send v m = record m {
  queue = insert v m.queue;
  sent = m.sent ++ (v ∷ []);
  registered = elim m.queue [ [] ↦ 0 | w ∷ q ↦ m.registered ];
}

-- How many notifications the send sets off: 1 or 0.
abbrev pub notices : Mq → ℕ
notices m = elim m.queue [ [] ↦ m.registered | w ∷ q ↦ 0 ]

abbrev pub IsInOrder : Mq → Type 0
IsInOrder m = InOrder m.sent m.received m.queue

pub mq_notify-IsInOrder : (m : Mq) {m' : Mq} → IsInOrder m → mq_notify m ≡ some m' → IsInOrder m'
mq_notify-IsInOrder m {m'} h e = notify m.registered e
  where
    notify :
        (r : ℕ)
        → (elim r [ zero ↦ some (record m { registered = 1 }) | suc _ ↦ none ]) ≡ some m'
        → IsInOrder m'
    notify zero e = ground (arith, h)
    notify (suc k) e = absurd (ground arith)

pub mq_receive-IsInOrder : (m : Mq) {m' : Mq} → IsInOrder m → mq_receive m ≡ some m' → IsInOrder m'
mq_receive-IsInOrder m h e = receive m.queue h e
  where
    receive :
        {m' : Mq} (k : List Message)
        → InOrder m.sent m.received k
        → (elim k [
          | [] ↦ none
          | v ∷ q ↦ some (record m { queue = q; received = m.received ++ (v ∷ []) })
        ])
          ≡ some m'
        → IsInOrder m'
    receive [] h e = absurd (ground arith)
    receive {m'} (v ∷ q) h e = ground (arith, receive-InOrder h)
