-- ===== src/MqNotify/Drained.antt =====
-- mqnotifysig3.c never sleeps beside a message.
use unpvol.Base.{
  subst, ℕ, ◌≡◌, refl, arith, Bool, true, false, if◌then◌else◌, some, List, [], ◌∷◌, ◌++◌,
}
use unpvol.MqNotify.Priority.{
  Message, insert, of_priority, InOrder, nothing-InOrder, insert-InOrder, receive-InOrder,
  empty-InOrder,
}
use unpvol.MqNotify.Defs.{
  Pc, at_block, at_test, asleep, at_reset, at_notify, at_receive, at_unblock, State, drain_loop,
  sig_usr1, send, goes, delivers, sends, main, Runs, start, later,
}

-- What the process can rely on where no signal has come or is coming.
abbrev Quiet : (registered : Bool) → List Message → Pc → Type 0
Quiet r q at_reset = Unit
Quiet r q at_notify = Unit
Quiet r q at_receive = r ≡ true
Quiet r q _ = (r ≡ true) × (q ≡ [])

record IsGood (s : State) : Type 0 where
  quiet : s.mqflag ≡ false → s.pending ≡ false → Quiet s.registered s.queue s.at
  in_order : InOrder s.sent s.received s.queue

module _ (s : State) (g : IsGood s) where
  drain-Quiet :
      {t : State} (p : Pc)
      → s.at ≡ p
      → drain_loop s p ≡ some t
      → t.mqflag ≡ false
      → t.pending ≡ false
      → Quiet t.registered t.queue t.at
  unfolding drain_loop
  drain-Quiet at_block q e f h = ground (arith, g.quiet)
  drain-Quiet at_test q e f h = ground (arith, g.quiet)
  drain-Quiet asleep q e f h = ground (arith, g.quiet)
  drain-Quiet at_reset q e f h = ground (arith, g.quiet)
  drain-Quiet at_notify q e f h = ground (arith, g.quiet)
  drain-Quiet at_receive q e f h = ground (arith, g.quiet)
  drain-Quiet at_unblock q e f h = ground (arith, g.quiet)

  drain-InOrder :
      {t : State} (p : Pc) → s.at ≡ p → drain_loop s p ≡ some t → InOrder t.sent t.received t.queue
  unfolding drain_loop
  drain-InOrder at_receive q e = receive s.queue refl e
    where
      receive :
          {t : State} (k : List Message)
          → s.queue ≡ k
          → (elim k [
            | [] ↦ some (record s { at = at_unblock })
            | v ∷ q ↦
                some (record s { at = at_receive; queue = q; received = s.received ++ (v ∷ []) })
          ])
            ≡ some t
          → InOrder t.sent t.received t.queue
      receive [] h e = ground (arith, g.in_order)
      receive (v ∷ k) h e =
          ground (arith, receive-InOrder (subst (InOrder s.sent s.received) h g.in_order))
  drain-InOrder at_block q e = ground (arith, g.in_order)
  drain-InOrder _ q e = ground (arith, g.in_order)

  send-IsGood : (v : Message) (q : List Message) → s.queue ≡ q → IsGood (send v s q)
  unfolding send
  send-IsGood v [] k = record {
    quiet = λ f h. send_quiet s.at refl f h;
    in_order = insert-InOrder v (subst (InOrder s.sent s.received) k g.in_order);
  }
    where
      send_quiet :
          (p : Pc)
          → s.at ≡ p
          → s.mqflag ≡ false
          → (if s.registered then true else s.pending) ≡ false
          → Quiet false (v ∷ []) p
      send_quiet at_block q f h = ground (arith, g.quiet)
      send_quiet _ q f h = ground (arith, g.quiet)
  send-IsGood v (w ∷ q) k = record {
    quiet = λ f h. more s.at refl f h;
    in_order = insert-InOrder v (subst (InOrder s.sent s.received) k g.in_order);
  }
    where
      more :
          (p : Pc)
          → s.at ≡ p
          → s.mqflag ≡ false
          → s.pending ≡ false
          → Quiet s.registered (insert v (w ∷ q)) p
      more at_block e f h = ground (arith, g.quiet)
      more _ e f h = ground (arith, g.quiet)

  signal-IsGood : (p : Pc) → s.at ≡ p → IsGood (sig_usr1 s p)
  unfolding sig_usr1
  signal-IsGood asleep q = record { quiet = λ f h. absurd (ground arith); in_order = g.in_order }
  signal-IsGood at_block q = record { quiet = λ f h. absurd (ground arith); in_order = g.in_order }
  signal-IsGood _ q = record { quiet = λ f h. absurd (ground arith); in_order = g.in_order }

Runs-IsGood : {s : State} → Runs drain_loop main s → IsGood s
Runs-IsGood start = record { quiet = λ f h. (refl, refl); in_order = nothing-InOrder }
Runs-IsGood (later {t} r (goes e)) = record {
  quiet = drain-Quiet t (Runs-IsGood r) t.at refl e;
  in_order = drain-InOrder t (Runs-IsGood r) t.at refl e;
}
Runs-IsGood (later {t} r (delivers p q)) = signal-IsGood t (Runs-IsGood r) t.at refl
Runs-IsGood (later {t} r (sends v)) = send-IsGood t (Runs-IsGood r) v t.queue refl

-- In a state that mqnotifysig3 reaches from an empty queue, of each priority the messages received
-- and those in the queue are the messages sent, in the order of sending; the queue has the highest
-- priority first; and where the process sleeps with no signal set or on its way, all messages have
-- been received and the next one will be signalled.
pub sleeps_on_empty :
    {s : State}
    → Runs drain_loop main s
    → InOrder s.sent s.received s.queue
      × (s.at ≡ asleep
          → s.mqflag ≡ false
          → s.pending ≡ false
          → (s.queue ≡ [])
            × ((p : ℕ) → of_priority p s.sent ≡ of_priority p s.received)
            × (s.registered ≡ true))
sleeps_on_empty {s} r = (
  (Runs-IsGood r).in_order,
  λ q f h.
      let x : (s.registered ≡ true) × (s.queue ≡ []) = ground (arith, (Runs-IsGood r).quiet) in
      (x.1, empty-InOrder (Runs-IsGood r).in_order x.1, x.0),
)
