-- ===== src/Semaphore/ProdCons2/Safety.antt =====
-- What prodcons2.c prints, that it ends, and that it never blocks for good.
use unpvol.Base.{ℕ, suc, ◌+◌, ◌-◌, ◌*◌, ◌<◌, ◌≤◌, ◌≡◌, ◌⊎◌, inl, inr, refl, arith, some, dec_lt}
use unpvol.Semaphore.ProdCons2.Defs.{
  nbuff, Shared, Put, p_head, p_wait_empty, p_wait_mutex, p_store, p_post_mutex, p_post_stored,
  p_returned, Get, c_head, c_wait_stored, c_wait_mutex, c_check, c_post_mutex, c_post_empty,
  c_returned, Producer, Consumer, Produced, Consumed, produce, consume, System, Step, produces,
  consumes, Reach, start, later,
}
use unpvol.Semaphore.ProdCons2.Invariant.{IsSound, Reach-IsGood, below, c_busy, has_checked}

-- In a reachable state of prodcons2 the consumer has printed no mismatch, at most NBUFF items are
-- put and not got, and what it has got are the items from 0 on, one of each, in order; once it has
-- returned, these are the items below `nitems`.
pub consumer_gets_all :
    {nitems : ℕ} {s : System}
    → Reach nitems s
    → (s.c.mismatches ≡ 0)
      × (s.p.i ≤ s.c.i + nbuff)
      × ((k : ℕ) × (k ≤ nitems) × (s.c.got ≡ below k))
      × (s.c.at ≡ c_returned → s.c.got ≡ below nitems)
consumer_gets_all {nitems} {s} r = (
  (Reach-IsGood r).holds.no_mismatch,
  omega (arith, (Reach-IsGood r).sound.slots),
  (_, rounds s.c.at refl (Reach-IsGood r).sound.c_rounds, (Reach-IsGood r).holds.in_order),
  λ e. ground (arith, (Reach-IsGood r).sound, (Reach-IsGood r).holds.in_order),
)
  where
    rounds :
        (at : Get)
        → s.c.at ≡ at
        → s.c.i + c_busy s.c.at ≤ nitems
        → s.c.i + has_checked s.c.at ≤ nitems
    rounds c_head q h = ground arith
    rounds _ q h = ground arith

abbrev p_left : (nitems i : ℕ) → Put → ℕ
p_left nitems i p_head = 6 * (nitems - i) + 1
p_left nitems i p_wait_empty = 6 * (nitems - (i + 1)) + 6
p_left nitems i p_wait_mutex = 6 * (nitems - (i + 1)) + 5
p_left nitems i p_store = 6 * (nitems - (i + 1)) + 4
p_left nitems i p_post_mutex = 6 * (nitems - (i + 1)) + 3
p_left nitems i p_post_stored = 6 * (nitems - (i + 1)) + 2
p_left nitems i p_returned = 0

abbrev c_left : (nitems i : ℕ) → Get → ℕ
c_left nitems i c_head = 6 * (nitems - i) + 1
c_left nitems i c_wait_stored = 6 * (nitems - (i + 1)) + 6
c_left nitems i c_wait_mutex = 6 * (nitems - (i + 1)) + 5
c_left nitems i c_check = 6 * (nitems - (i + 1)) + 4
c_left nitems i c_post_mutex = 6 * (nitems - (i + 1)) + 3
c_left nitems i c_post_empty = 6 * (nitems - (i + 1)) + 2
c_left nitems i c_returned = 0

module _ (nitems : ℕ) (m : Shared) where
  produce-left :
      {l : Produced} (i : ℕ) (at : Put)
      → produce nitems m i at ≡ some l
      → p_left nitems l.thread.i l.thread.at < p_left nitems i at
  unfolding produce
  produce-left i p_head e = ground arith
  produce-left i _ e = ground arith

  consume-left :
      {l : Consumed} (c : Consumer) (at : Get)
      → consume nitems m c at ≡ some l
      → c_left nitems l.thread.i l.thread.at < c_left nitems c.i at
  unfolding consume
  consume-left c c_head e = ground arith
  consume-left c _ e = ground arith

pub length_of : {nitems : ℕ} {s : System} → Reach nitems s → ℕ
length_of start = 0
length_of (later r st) = suc (length_of r)

length_of-left :
    {nitems : ℕ} {s : System} (r : Reach nitems s)
    → length_of r + p_left nitems s.p.i s.p.at + c_left nitems s.c.i s.c.at ≤ 12 * nitems + 2
unfolding length_of
length_of-left start = omega arith
length_of-left {nitems} (later {s} r (produces e)) =
    omega (arith, length_of-left r, produce-left nitems s.mem s.p.i s.p.at e)
length_of-left {nitems} (later {s} r (consumes e)) =
    omega (arith, length_of-left r, consume-left nitems s.mem s.c s.c.at e)

-- No run of the two threads of prodcons2 has more than 12 * nitems + 2 steps.
length_of-bound : {nitems : ℕ} {s : System} (r : Reach nitems s) → length_of r ≤ 12 * nitems + 2
length_of-bound r = omega (arith, length_of-left r)

-- A thread that cannot go on is at a semaphore of value 0, or has returned.
abbrev PutBlocked : Shared → Put → Type 0
PutBlocked m p_wait_empty = m.nempty ≡ 0
PutBlocked m p_wait_mutex = m.mutex ≡ 0
PutBlocked m p_returned = Unit
PutBlocked m _ = ⊥

abbrev GetBlocked : Shared → Get → Type 0
GetBlocked m c_wait_stored = m.nstored ≡ 0
GetBlocked m c_wait_mutex = m.mutex ≡ 0
GetBlocked m c_returned = Unit
GetBlocked m _ = ⊥

produce_goes :
    (nitems : ℕ) (m : Shared) (i : ℕ) (at : Put)
    → ((l : Produced) × (produce nitems m i at ≡ some l)) ⊎ PutBlocked m at
unfolding produce
produce_goes nitems m i p_head = inl (_, refl)
produce_goes nitems m i p_store = inl (_, refl)
produce_goes nitems m i p_post_mutex = inl (_, refl)
produce_goes nitems m i p_post_stored = inl (_, refl)
produce_goes nitems m i p_returned = inr tt
produce_goes nitems m i p_wait_empty = elim (dec_lt 0 m.nempty) [
  | yes h ↦ inl (
    record {
      mem = record m { nempty = m.nempty - 1 };
      thread = record { i = i; at = p_wait_mutex };
    },
    ground arith,
  )
  | no h ↦ inr (omega arith)
]
produce_goes nitems m i p_wait_mutex = elim (dec_lt 0 m.mutex) [
  | yes h ↦ inl (
    record { mem = record m { mutex = m.mutex - 1 }; thread = record { i = i; at = p_store } },
    ground arith,
  )
  | no h ↦ inr (omega arith)
]

consume_goes :
    (nitems : ℕ) (m : Shared) (c : Consumer) (at : Get)
    → ((l : Consumed) × (consume nitems m c at ≡ some l)) ⊎ GetBlocked m at
unfolding consume
consume_goes nitems m c c_head = inl (_, refl)
consume_goes nitems m c c_check = inl (_, refl)
consume_goes nitems m c c_post_mutex = inl (_, refl)
consume_goes nitems m c c_post_empty = inl (_, refl)
consume_goes nitems m c c_returned = inr tt
consume_goes nitems m c c_wait_stored = elim (dec_lt 0 m.nstored) [
  | yes h ↦ inl (
    record { mem = record m { nstored = m.nstored - 1 }; thread = record c { at = c_wait_mutex } },
    ground arith,
  )
  | no h ↦ inr (omega arith)
]
consume_goes nitems m c c_wait_mutex = elim (dec_lt 0 m.mutex) [
  | yes h ↦ inl (
    record { mem = record m { mutex = m.mutex - 1 }; thread = record c { at = c_check } },
    ground arith,
  )
  | no h ↦ inr (omega arith)
]

both_blocked :
    {nitems : ℕ} {m : Shared} {p : Producer} {c : Consumer}
    → IsSound nitems m p c
    → PutBlocked m p.at
    → GetBlocked m c.at
    → (p.at ≡ p_returned) × (c.at ≡ c_returned)
both_blocked v a b = ground arith

-- In a reachable state of prodcons2 one of the threads can take a step, or both have returned.
prodcons_goes :
    {nitems : ℕ} {s : System}
    → Reach nitems s
    → ((t : System) × Step nitems s t) ⊎ ((s.p.at ≡ p_returned) × (s.c.at ≡ c_returned))
prodcons_goes {nitems} {s} r = elim (produce_goes nitems s.mem s.p.i s.p.at) [
  | inl (l, e) ↦ inl (_, produces e)
  | inr a ↦ elim (consume_goes nitems s.mem s.c s.c.at) [
    | inl (l, e) ↦ inl (_, consumes e)
    | inr b ↦ inr (both_blocked (Reach-IsGood r).sound a b)
  ]
]

-- No run of the two threads of prodcons2 has more than 12 * nitems + 2 steps; and in the state where
-- a run stands one of the threads can take a step, or both have returned.
pub prodcons_ends :
    {nitems : ℕ} {s : System} (r : Reach nitems s)
    → (length_of r ≤ 12 * nitems + 2)
      × (((t : System) × Step nitems s t) ⊎ ((s.p.at ≡ p_returned) × (s.c.at ≡ c_returned)))
prodcons_ends r = (length_of-bound r, prodcons_goes r)
