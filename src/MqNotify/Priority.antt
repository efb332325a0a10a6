-- ===== src/MqNotify/Priority.antt =====
-- The order of a message queue as the programs of codes/5.MessageQueue rely on it: `mq_receive` takes the
-- oldest message of the highest priority, the larger number being the higher priority.
use unpvol.Base.{
  ℕ, ◌≡◌, ◌≢◌, ◌≤◌, ◌<◌, refl, arith, leb, ◌==◌, if◌then◌else◌, Bool, true, false, List, [], ◌∷◌,
  ◌++◌, ap, sym, ◌∙◌,
}
use mathlib.Core.List.{append_assoc, append-nil}

pub record Message : Type 0 where
  pub prio : ℕ
  pub text : ℕ

-- A message goes behind those of its own and of higher priorities.
abbrev pub insert : Message → List Message → List Message
insert v [] = v ∷ []
insert v (w ∷ q) = let rest = insert v q in if leb v.prio w.prio then w ∷ rest else v ∷ w ∷ q

-- The messages of priority `p`.
abbrev pub of_priority : ℕ → List Message → List Message
of_priority p [] = []
of_priority p (v ∷ q) = let rest = of_priority p q in if v.prio == p then v ∷ rest else rest

abbrev pub AtMost : ℕ → List Message → Type 0
AtMost k [] = Unit
AtMost k (v ∷ q) = (v.prio ≤ k) × AtMost k q

-- The queue gives the highest priorities first.
abbrev pub IsOrdered : List Message → Type 0
IsOrdered [] = Unit
IsOrdered (v ∷ q) = AtMost v.prio q × IsOrdered q

of_priority-++ :
    (p : ℕ) (xs ys : List Message) → of_priority p (xs ++ ys) ≡ of_priority p xs ++ of_priority p ys
of_priority-++ p [] ys = refl
of_priority-++ p (x ∷ xs) ys = ground (arith, of_priority-++ p xs ys)

of_priority-none : (p k : ℕ) (q : List Message) → AtMost k q → k < p → of_priority p q ≡ []
of_priority-none p k [] h lt = refl
of_priority-none p k (v ∷ q) h lt = ground (arith, h.0, of_priority-none p k q h.1 lt)

insert-AtMost :
    (k : ℕ) (v : Message) (q : List Message) → AtMost k q → v.prio ≤ k → AtMost k (insert v q)
insert-AtMost k v [] h le = (le, tt)
insert-AtMost k v (w ∷ q) h le = by_test (leb v.prio w.prio) (insert-AtMost k v q h.1 le)
  where
    by_test :
        (b : Bool) → AtMost k (insert v q) → AtMost k (if b then w ∷ insert v q else v ∷ w ∷ q)
    by_test true later = (h.0, later)
    by_test false later = (le, h)

AtMost-weaken : (k l : ℕ) (q : List Message) → AtMost k q → k ≤ l → AtMost l q
AtMost-weaken k l [] h le = tt
AtMost-weaken k l (v ∷ q) h le = (omega (arith, h.0), AtMost-weaken k l q h.1 le)

insert-IsOrdered : (v : Message) (q : List Message) → IsOrdered q → IsOrdered (insert v q)
insert-IsOrdered v [] h = (tt, tt)
insert-IsOrdered v (w ∷ q) h = by_test (leb v.prio w.prio) refl (insert-IsOrdered v q h.1)
  where
    by_test :
        (b : Bool)
        → leb v.prio w.prio ≡ b
        → IsOrdered (insert v q)
        → IsOrdered (if b then w ∷ insert v q else v ∷ w ∷ q)
    by_test true e later = (insert-AtMost w.prio v q h.0 (ground arith), later)
    by_test false e later = ((ground arith, AtMost-weaken w.prio v.prio q h.0 (ground arith)), h)

-- Of each priority the message goes to the end.
of_priority-insert :
    (p : ℕ) (v : Message) (q : List Message)
    → IsOrdered q
    → of_priority p (insert v q) ≡ of_priority p q ++ of_priority p (v ∷ [])
of_priority-insert p v [] h = refl
of_priority-insert p v (w ∷ q) h = by_test (leb v.prio w.prio) refl (of_priority-insert p v q h.1)
  where
    by_test :
        (b : Bool)
        → leb v.prio w.prio ≡ b
        → of_priority p (insert v q) ≡ of_priority p q ++ of_priority p (v ∷ [])
        → of_priority p (if b then w ∷ insert v q else v ∷ w ∷ q)
          ≡ of_priority p (w ∷ q) ++ of_priority p (v ∷ [])
    by_test true e later = ground (arith, later)
    by_test false e later =
        ground (arith, of_priority-none p w.prio q h.0, append-nil (of_priority p (w ∷ q)))

-- What has been received and what is in the queue is what was sent, of each priority in the order of
-- sending; and the queue gives the highest priorities first.
pub record InOrder (sent received queue : List Message) : Type 0 where
  pub ordered : IsOrdered queue
  pub each : (p : ℕ) → of_priority p sent ≡ of_priority p received ++ of_priority p queue

pub nothing-InOrder : InOrder [] [] []
nothing-InOrder = record { ordered = tt; each = λ p. refl }

pub insert-InOrder :
    (v : Message) {sent received queue : List Message}
    → InOrder sent received queue
    → InOrder (sent ++ (v ∷ [])) received (insert v queue)
insert-InOrder v {sent} {received} {queue} h = record {
  ordered = insert-IsOrdered v queue h.ordered;
  each = λ p.
      of_priority-++ p sent (v ∷ [])
      ∙ ap (λ xs. xs ++ of_priority p (v ∷ [])) (h.each p)
      ∙ append_assoc (of_priority p received) (of_priority p queue) (of_priority p (v ∷ []))
      ∙ ap (λ xs. of_priority p received ++ xs) (sym (of_priority-insert p v queue h.ordered));
}

pub receive-InOrder :
    {v : Message} {sent received queue : List Message}
    → InOrder sent received (v ∷ queue)
    → InOrder sent (received ++ (v ∷ [])) queue
receive-InOrder {v} {sent} {received} {queue} h = record {
  ordered = h.ordered.1;
  each = λ p.
      h.each p
      ∙ ap (λ xs. of_priority p received ++ xs) (of_priority-++ p (v ∷ []) queue)
      ∙ sym (append_assoc (of_priority p received) (of_priority p (v ∷ [])) (of_priority p queue))
      ∙ ap (λ xs. xs ++ of_priority p queue) (sym (of_priority-++ p received (v ∷ [])));
}

-- With an empty queue all messages have been received.
pub empty-InOrder :
    {sent received queue : List Message}
    → InOrder sent received queue
    → queue ≡ []
    → (p : ℕ) → of_priority p sent ≡ of_priority p received
empty-InOrder {sent} {received} h e p =
    h.each p
    ∙ ap (λ q. of_priority p received ++ of_priority p q) e
    ∙ append-nil (of_priority p received)

pub insert-nonempty : (v : Message) (q : List Message) → insert v q ≢ []
insert-nonempty v [] e = ground arith
insert-nonempty v (w ∷ q) e = by_test (leb v.prio w.prio) e
  where
    by_test : (b : Bool) → (if b then w ∷ insert v q else v ∷ w ∷ q) ≢ []
    by_test true e = ground arith
    by_test false e = ground arith

-- Of two messages the one that is received first, and the other.
abbrev pub first_of : Message → Message → Message
first_of v w = if leb w.prio v.prio then v else w

abbrev pub second_of : Message → Message → Message
second_of v w = if leb w.prio v.prio then w else v

pub insert-two : (v w : Message) → insert w (v ∷ []) ≡ first_of v w ∷ second_of v w ∷ []
insert-two v w = by_test (leb w.prio v.prio)
  where
    by_test :
        (b : Bool)
        → (if b then v ∷ w ∷ [] else w ∷ v ∷ []) ≡ (if b then v else w) ∷ (if b then w else v) ∷ []
    by_test true = refl
    by_test false = refl
