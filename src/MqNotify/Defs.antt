-- ===== src/MqNotify/Defs.antt =====
-- The receiving loops of mqnotifysig2.c and mqnotifysig3.c, the handler, and the queue as the
-- system keeps it.
use unpvol.MqNotify.Priority.{Message, insert}
use unpvol.Base.{
  ◌≡◌, Bool, true, false, ◌⊎◌, if◌then◌else◌, Option, none, some, List, [], ◌∷◌, ◌++◌,
}

-- The next thing that the loop does; in `asleep` the process is inside `sigsuspend`.
pub data Pc : Type 0 where
  at_block at_test asleep at_reset at_notify at_receive at_unblock : Pc

-- `queue` are the messages in the order in which they will be received, `registered` whether `mq_notify` is in force, `pending`
-- whether SIGUSR1 is pending, `blocked` whether it is in the mask of the process. `received` and `sent`
-- are the messages so far, the oldest first.
pub record State : Type 0 where
  pub at : Pc
  pub mqflag : Bool
  pub blocked : Bool
  pub pending : Bool
  pub registered : Bool
  pub queue : List Message
  pub received : List Message
  pub sent : List Message

-- One round of the loop of mqnotifysig3.c, which reads without blocking until the queue is empty;
-- `none` where the process waits.
unfoldable pub drain_loop : State → Pc → Option State
drain_loop s at_block = some (record s { at = at_test; blocked = true })
drain_loop s at_test = some (record s { at = if s.mqflag then at_reset else asleep })
drain_loop s asleep = none
drain_loop s at_reset = some (record s { at = at_notify; mqflag = false })
drain_loop s at_notify = some (record s { at = at_receive; registered = true })
drain_loop s at_receive = elim s.queue [
  | [] ↦ some (record s { at = at_unblock })
  | v ∷ q ↦ some (record s { at = at_receive; queue = q; received = s.received ++ (v ∷ []) })
]
drain_loop s at_unblock = some (record s { at = at_block; blocked = false })

-- The loop of mqnotifysig2.c, which reads one message and would block where there is none.
unfoldable pub read_one_loop : State → Pc → Option State
read_one_loop s at_block = some (record s { at = at_test; blocked = true })
read_one_loop s at_test = some (record s { at = if s.mqflag then at_reset else asleep })
read_one_loop s asleep = none
read_one_loop s at_reset = some (record s { at = at_notify; mqflag = false })
read_one_loop s at_notify = some (record s { at = at_receive; registered = true })
read_one_loop s at_receive = elim s.queue [
  | [] ↦ none
  | v ∷ q ↦ some (record s { at = at_unblock; queue = q; received = s.received ++ (v ∷ []) })
]
read_one_loop s at_unblock = some (record s { at = at_block; blocked = false })

-- The pending signal is delivered: the handler runs, and then `sigsuspend` returns.
unfoldable pub sig_usr1 : State → Pc → State
sig_usr1 s asleep = record s { at = at_test; mqflag = true; pending = false }
sig_usr1 s _ = record s { mqflag = true; pending = false }

-- Another process sends: a registered process is signalled, once, where the queue was empty.
unfoldable pub send : Message → State → List Message → State
send v s [] = record s {
  queue = v ∷ [];
  sent = s.sent ++ (v ∷ []);
  pending = if s.registered then true else s.pending;
  registered = false;
}
send v s (w ∷ q) = record s { queue = insert v (w ∷ q); sent = s.sent ++ (v ∷ []) }

-- The process takes a step, its signal comes through, or a message is sent.
pub data Step (loop : State → Pc → Option State) (s : State) : State → Type 0 where
  goes : {t : State} → loop s s.at ≡ some t → Step loop s t
  delivers :
      s.pending ≡ true → (s.blocked ≡ false) ⊎ (s.at ≡ asleep) → Step loop s (sig_usr1 s s.at)
  sends : (v : Message) → Step loop s (send v s s.queue)

-- `main` before the loop, on an empty queue: the process is registered and nothing is blocked.
abbrev pub main : State
main = record {
  at = at_block;
  mqflag = false;
  blocked = false;
  pending = false;
  registered = true;
  queue = [];
  received = [];
  sent = [];
}

pub data Runs (loop : State → Pc → Option State) (s : State) : State → Type 0 where
  start : Runs loop s s
  later : {t u : State} → Runs loop s t → Step loop t u → Runs loop s u
