-- ===== src/MqNotify/Stuck.antt =====
-- mqnotifysig2.c can fall asleep beside a message, and is then never woken.
use unpvol.Base.{◌≡◌, ◌≢◌, refl, arith, true, some, false, inr, List, [], ◌∷◌}
use unpvol.MqNotify.Priority.{Message, insert, insert-nonempty, first_of, second_of, insert-two}
use unpvol.MqNotify.Defs.{
  at_receive, at_unblock, asleep, State, read_one_loop, sig_usr1, send, Step, goes, delivers, sends,
  main, Runs, start, later,
}

record IsStuck (s : State) : Type 0 where
  sleeping : s.at ≡ asleep
  unsignalled : s.pending ≡ false
  waiting : s.queue ≢ []

send-IsStuck :
    (v : Message) (s : State) (q : List Message) → s.queue ≡ q → IsStuck s → IsStuck (send v s q)
unfolding send
send-IsStuck v s [] k g = absurd (g.waiting k)
send-IsStuck v s (w ∷ q) k g = record {
  sleeping = g.sleeping;
  unsignalled = g.unsignalled;
  waiting = insert-nonempty v (w ∷ q);
}

Step-IsStuck : {s t : State} → IsStuck s → Step read_one_loop s t → IsStuck t
unfolding read_one_loop
Step-IsStuck {s} g (goes e) = absurd (ground (arith, g.sleeping))
Step-IsStuck {s} g (delivers p q) = absurd (ground (arith, g.unsignalled))
Step-IsStuck {s} g (sends v) = send-IsStuck v s s.queue refl g

Runs-IsStuck : {s t : State} → IsStuck s → Runs read_one_loop s t → IsStuck t
Runs-IsStuck g start = g
Runs-IsStuck g (later r st) = Step-IsStuck (Runs-IsStuck g r) st

-- Both messages are in the queue, and the loop is at `mq_receive`.
abbrev both_sent : Message → Message → State
both_sent v w = record {
  at = at_receive;
  mqflag = false;
  blocked = true;
  pending = false;
  registered = true;
  queue = insert w (v ∷ []);
  received = [];
  sent = v ∷ w ∷ [];
}

abbrev one_read : Message → Message → State
one_read v w = record (both_sent v w) {
  at = at_unblock;
  queue = second_of v w ∷ [];
  received = first_of v w ∷ [];
}

reads_first : (v w : Message) → read_one_loop (both_sent v w) at_receive ≡ some (one_read v w)
unfolding read_one_loop
reads_first v w = rw (insert-two v w) refl

reads_both_sent : (v w : Message) → Runs read_one_loop main (both_sent v w)
unfolding read_one_loop send sig_usr1
reads_both_sent v w =
    later
      (later
        (later
          (later (later (later (later (later start (goes refl)) (goes refl)) (sends v)) (sends w))
            (delivers refl (inr refl)))
          (goes refl))
        (goes refl))
      (goes refl)

-- Whatever two messages are sent before the first is read, mqnotifysig2 reaches from an empty queue a
-- state in which only one of them has been received (the second if its priority is higher, else the
-- first), and after which, whatever is sent, the process sleeps with messages in the queue.
pub second_message_stays :
    (v w : Message)
    → (s : State) × Runs read_one_loop main s
      × (s.sent ≡ v ∷ w ∷ [])
      × (s.received ≡ first_of v w ∷ [])
      × ((t : State) → Runs read_one_loop s t → (t.at ≡ asleep) × (t.queue ≢ []))
unfolding read_one_loop
second_message_stays v w = (
  _,
  later
      (later (later (later (reads_both_sent v w) (goes (reads_first v w))) (goes refl)) (goes refl))
      (goes refl),
  refl,
  refl,
  λ t r.
      let g =
        Runs-IsStuck (record { sleeping = refl; unsignalled = refl; waiting = λ e. ground arith })
          r in
      (g.sleeping, g.waiting),
)
