-- ===== src/Semaphore/MyCat2/Output.antt =====
-- mycat2.c writes what it reads, in order, up to the first empty read, and never blocks for good.
use unpvol.Base.{ℕ, ◌-◌, ◌<◌, ◌≡◌, ◌⊎◌, inl, inr, refl, arith, true, false, some, dec_lt, is_zero}
use unpvol.Semaphore.MyCat2.Defs.{
  Buffer, Shared, Put, p_wait_empty, p_wait_mutex, p_post_mutex, p_read, p_test, p_post_stored,
  p_post_last, p_returned, Get, c_wait_stored, c_wait_mutex, c_post_mutex, c_test, c_write, c_next,
  c_post_empty, c_returned, Producer, Consumer, Produced, Consumed, produce, consume, System, Step,
  produces, consumes, Reach,
}
use unpvol.Semaphore.MyCat2.Copy.{IsSound, Copies, Reach-IsGood}

-- Whatever `read` answers: in a reachable state of mycat2 the k-th buffer that was written is that
-- of the k-th read, none of these reads was empty, and once the consumer has returned the next
-- read was: the output is all that was read before the first empty read.
written_is_read :
    {input : ℕ → Buffer} {s : System}
    → Reach input s
    → ((k : ℕ) → k < s.c.writes → (s.c.out k ≡ input k) × (is_zero (input k).n ≡ false))
      × (s.c.at ≡ c_returned → is_zero (input s.c.writes).n ≡ true)
written_is_read {input} {s} r =
    ((Reach-IsGood r).copies.written, λ e. ground (arith, (Reach-IsGood r).copies.knows))

-- Where the threads stand still.
abbrev PutBlocked : Shared → Put → Type 0
PutBlocked m p_wait_empty = m.nempty ≡ 0
PutBlocked m p_wait_mutex = m.mutex ≡ 0
PutBlocked m p_returned = Unit
PutBlocked m _ = ⊥

abbrev GetBlocked : Shared → Get → Type 0
GetBlocked m c_wait_stored = m.nstored ≡ 0
GetBlocked m c_wait_mutex = m.mutex ≡ 0
GetBlocked m c_returned = Unit
GetBlocked m _ = ⊥

produce_goes :
    (input : ℕ → Buffer) (m : Shared) (p : Producer) (at : Put)
    → ((l : Produced) × (produce input m p at ≡ some l)) ⊎ PutBlocked m at
unfolding produce
produce_goes input m p p_post_mutex = inl (_, refl)
produce_goes input m p p_read = inl (_, refl)
produce_goes input m p p_test = inl (_, refl)
produce_goes input m p p_post_stored = inl (_, refl)
produce_goes input m p p_post_last = inl (_, refl)
produce_goes input m p p_returned = inr tt
produce_goes input m p p_wait_empty = elim (dec_lt 0 m.nempty) [
  | yes h ↦ inl (
    record { mem = record m { nempty = m.nempty - 1 }; thread = record p { at = p_wait_mutex } },
    ground arith,
  )
  | no h ↦ inr (omega arith)
]
produce_goes input m p p_wait_mutex = elim (dec_lt 0 m.mutex) [
  | yes h ↦ inl (
    record { mem = record m { mutex = m.mutex - 1 }; thread = record p { at = p_post_mutex } },
    ground arith,
  )
  | no h ↦ inr (omega arith)
]

consume_goes :
    (m : Shared) (c : Consumer) (at : Get)
    → ((l : Consumed) × (consume m c at ≡ some l)) ⊎ GetBlocked m at
unfolding consume
consume_goes m c c_post_mutex = inl (_, refl)
consume_goes m c c_test = inl (_, refl)
consume_goes m c c_write = inl (_, refl)
consume_goes m c c_next = inl (_, refl)
consume_goes m c c_post_empty = inl (_, refl)
consume_goes m c c_returned = inr tt
consume_goes m c c_wait_stored = elim (dec_lt 0 m.nstored) [
  | yes h ↦ inl (
    record { mem = record m { nstored = m.nstored - 1 }; thread = record c { at = c_wait_mutex } },
    ground arith,
  )
  | no h ↦ inr (omega arith)
]
consume_goes m c c_wait_mutex = elim (dec_lt 0 m.mutex) [
  | yes h ↦ inl (
    record { mem = record m { mutex = m.mutex - 1 }; thread = record c { at = c_post_mutex } },
    ground arith,
  )
  | no h ↦ inr (omega arith)
]

both_blocked :
    {input : ℕ → Buffer} {m : Shared} {p : Producer} {c : Consumer}
    → IsSound m p c
    → Copies input m p c
    → PutBlocked m p.at
    → GetBlocked m c.at
    → (p.at ≡ p_returned) × (c.at ≡ c_returned)
both_blocked {p} {c} v h a b =
    ground (arith, h.read_on c.writes, h.written (p.reads - 1), h.knows, h.put_knows)

-- Whatever `read` answers: in a reachable state of mycat2 one of the threads can take a step, or
-- both have returned.
copy_goes :
    {input : ℕ → Buffer} {s : System}
    → Reach input s
    → ((t : System) × Step input s t) ⊎ ((s.p.at ≡ p_returned) × (s.c.at ≡ c_returned))
copy_goes {input} {s} r = elim (produce_goes input s.mem s.p s.p.at) [
  | inl (l, e) ↦ inl (_, produces e)
  | inr a ↦ elim (consume_goes s.mem s.c s.c.at) [
    | inl (l, e) ↦ inl (_, consumes e)
    | inr b ↦ inr (both_blocked (Reach-IsGood r).sound (Reach-IsGood r).copies a b)
  ]
]

-- Whatever `read` answers: in a reachable state of mycat2 the k-th buffer that was written is that
-- of the k-th read, none of these reads was empty, and once the consumer has returned the next
-- read was: the output is all that was read before the first empty read; and one of the threads can
-- take a step, or both have returned.
pub output_is_input :
    {input : ℕ → Buffer} {s : System}
    → Reach input s
    → ((k : ℕ) → k < s.c.writes → (s.c.out k ≡ input k) × (is_zero (input k).n ≡ false))
      × (s.c.at ≡ c_returned → is_zero (input s.c.writes).n ≡ true)
      × (((t : System) × Step input s t) ⊎ ((s.p.at ≡ p_returned) × (s.c.at ≡ c_returned)))
output_is_input r = let (each, last) = written_is_read r in (each, last, copy_goes r)
