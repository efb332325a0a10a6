-- ===== src/Semaphore/ProdCons2/Invariant.antt =====
-- The accounts of the semaphores of prodcons2.c, and what the ring holds.
use unpvol.Base.{
  ℕ, zero, suc, ◌+◌, ◌%◌, ◌<◌, ◌≤◌, ◌≡◌, ◌≢◌, refl, arith, some, List, [], ◌∷◌, dec_lt,
}
use unpvol.Semaphore.ProdCons2.Defs.{
  nbuff, Shared, Put, p_head, p_wait_mutex, p_store, p_post_mutex, p_post_stored, p_returned, Get,
  c_head, c_wait_mutex, c_check, c_post_mutex, c_post_empty, c_returned, Producer, Consumer,
  Produced, Consumed, produce, consume, System, produces, consumes, main, Reach, start, later,
}

-- Where the producer has the mutex, has a slot that it has not posted as stored, has stored the
-- item, and goes on to another item.
abbrev pub p_in_mutex : Put → ℕ
p_in_mutex p_store = 1
p_in_mutex p_post_mutex = 1
p_in_mutex _ = 0

abbrev pub has_slot : Put → ℕ
has_slot p_wait_mutex = 1
has_slot p_store = 1
has_slot p_post_mutex = 1
has_slot p_post_stored = 1
has_slot _ = 0

abbrev pub has_stored : Put → ℕ
has_stored p_post_mutex = 1
has_stored p_post_stored = 1
has_stored _ = 0

abbrev pub p_busy : Put → ℕ
p_busy p_head = 0
p_busy p_returned = 0
p_busy _ = 1

-- The same of the consumer: the mutex, an item that it has not posted as empty, checked, busy.
abbrev pub c_in_mutex : Get → ℕ
c_in_mutex c_check = 1
c_in_mutex c_post_mutex = 1
c_in_mutex _ = 0

abbrev pub has_item : Get → ℕ
has_item c_wait_mutex = 1
has_item c_check = 1
has_item c_post_mutex = 1
has_item c_post_empty = 1
has_item _ = 0

abbrev pub has_checked : Get → ℕ
has_checked c_post_mutex = 1
has_checked c_post_empty = 1
has_checked _ = 0

abbrev pub c_busy : Get → ℕ
c_busy c_head = 0
c_busy c_returned = 0
c_busy _ = 1

-- The thread has returned only after its last round.
abbrev pub PEnded : ℕ → ℕ → Put → Type 0
PEnded nitems i p_returned = nitems ≤ i
PEnded nitems i _ = Unit

abbrev pub CEnded : ℕ → ℕ → Get → Type 0
CEnded nitems i c_returned = nitems ≤ i
CEnded nitems i _ = Unit

-- The items below `n`, the last first.
abbrev pub below : ℕ → List ℕ
below zero = []
below (suc n) = n ∷ below n

pub record IsSound (nitems : ℕ) (m : Shared) (p : Producer) (c : Consumer) : Type 0 where
  pub exclusive : m.mutex + p_in_mutex p.at + c_in_mutex c.at ≡ 1
  pub slots : m.nempty + has_slot p.at + p.i ≡ nbuff + c.i
  pub items : m.nstored + has_item c.at + c.i ≡ p.i
  pub p_rounds : p.i + p_busy p.at ≤ nitems
  pub c_rounds : c.i + c_busy c.at ≤ nitems
  pub p_end : PEnded nitems p.i p.at
  pub c_end : CEnded nitems c.i c.at

module _ {nitems : ℕ} {m : Shared} {p : Producer} {c : Consumer} (v : IsSound nitems m p c) where
  produce-IsSound :
      {l : Produced} (at : Put)
      → p.at ≡ at
      → produce nitems m p.i at ≡ some l
      → IsSound nitems l.mem l.thread c
  unfolding produce
  produce-IsSound p_head q e = ground arith
  produce-IsSound _ q e = ground arith

  consume-IsSound :
      {l : Consumed} (at : Get)
      → c.at ≡ at
      → consume nitems m c at ≡ some l
      → IsSound nitems l.mem p l.thread
  unfolding consume
  consume-IsSound c_head q e = ground arith
  consume-IsSound _ q e = ground arith

pub record HoldsItems (m : Shared) (p : Producer) (c : Consumer) : Type 0 where
  pub window : (j : ℕ) → c.i ≤ j → j < p.i + has_stored p.at → m.buff (j % nbuff) ≡ j
  pub in_order : c.got ≡ below (c.i + has_checked c.at)
  pub no_mismatch : c.mismatches ≡ 0

slot-ne : (j k : ℕ) → j < k → k < j + nbuff → k % nbuff ≢ j % nbuff
slot-ne j k lo hi e = omega arith

below-suc : (n : ℕ) → below (n + 1) ≡ n ∷ below n
below-suc n = ground arith

module _ {nitems : ℕ} {m : Shared} {p : Producer} {c : Consumer} (v : IsSound nitems m p c)
    (h : HoldsItems m p c) where
  produce-window :
      {l : Produced} (at : Put)
      → p.at ≡ at
      → produce nitems m p.i at ≡ some l
      → (j : ℕ) → c.i ≤ j
      → j < l.thread.i + has_stored l.thread.at
      → l.mem.buff (j % nbuff) ≡ j
  unfolding produce
  produce-window p_store q e j lo hi = elim (dec_lt j p.i) [
    | yes x ↦ ground (arith, h.window j, slot-ne j p.i)
    | no x ↦ let y : j ≡ p.i = ground arith in ground arith
  ]
  produce-window p_head q e j lo hi = ground (arith, h.window j)
  produce-window _ q e j lo hi = ground (arith, h.window j)

  produce-HoldsItems :
      {l : Produced} (at : Put)
      → p.at ≡ at
      → produce nitems m p.i at ≡ some l
      → HoldsItems l.mem l.thread c
  produce-HoldsItems at q e = record {
    window = produce-window at q e;
    in_order = h.in_order;
    no_mismatch = h.no_mismatch;
  }

  consume-HoldsItems :
      {l : Consumed} (at : Get)
      → c.at ≡ at
      → consume nitems m c at ≡ some l
      → HoldsItems l.mem p l.thread
  unfolding consume
  consume-HoldsItems c_check q e = record {
    window = λ j lo hi. ground (arith, h.window j);
    in_order = ground (arith, h.window c.i, h.in_order, below-suc c.i);
    no_mismatch = ground (arith, h.window c.i, h.no_mismatch);
  }
  consume-HoldsItems c_head q e = record {
    window = λ j lo hi. ground (arith, h.window j);
    in_order = ground (arith, h.in_order);
    no_mismatch = ground (arith, h.no_mismatch);
  }
  consume-HoldsItems _ q e = record {
    window = λ j lo hi. ground (arith, h.window j);
    in_order = ground (arith, h.in_order);
    no_mismatch = ground (arith, h.no_mismatch);
  }

pub record IsGood (nitems : ℕ) (s : System) : Type 0 where
  pub sound : IsSound nitems s.mem s.p s.c
  pub holds : HoldsItems s.mem s.p s.c

main-IsGood : (nitems : ℕ) → IsGood nitems main
main-IsGood nitems = record {
  sound = ground arith;
  holds = record { window = λ j lo hi. absurd (omega arith); in_order = refl; no_mismatch = refl };
}

pub Reach-IsGood : {nitems : ℕ} {s : System} → Reach nitems s → IsGood nitems s
Reach-IsGood {nitems} start = main-IsGood nitems
Reach-IsGood (later {s} r (produces e)) = record {
  sound = produce-IsSound (Reach-IsGood r).sound s.p.at refl e;
  holds = produce-HoldsItems (Reach-IsGood r).sound (Reach-IsGood r).holds s.p.at refl e;
}
Reach-IsGood (later {s} r (consumes e)) = record {
  sound = consume-IsSound (Reach-IsGood r).sound s.c.at refl e;
  holds = consume-HoldsItems (Reach-IsGood r).sound (Reach-IsGood r).holds s.c.at refl e;
}
