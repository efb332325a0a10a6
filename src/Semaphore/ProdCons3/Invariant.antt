-- ===== src/Semaphore/ProdCons3/Invariant.antt =====
-- The accounts of the semaphores of prodcons3.c, and what the ring holds.
use unpvol.Base.{ℕ, ◌+◌, ◌%◌, ◌<◌, ◌≤◌, ◌≡◌, ◌≢◌, arith, some, dec_lt}
use unpvol.Semaphore.ProdCons3.Defs.{
  Put, p_wait_empty, p_store, p_nput, Get, c_head, c_wait_mutex, c_check, c_post_mutex,
  c_post_empty, c_returned, nbuff, Shared, Produced, Consumer, Consumed, produce, consume,
}
use unpvol.Semaphore.ProdCons3.Counts.{Tally, Moved, Within}

-- The consumer has the mutex.
abbrev pub c_in_mutex : Get → ℕ
c_in_mutex c_check = 1
c_in_mutex c_post_mutex = 1
c_in_mutex _ = 0

-- It has taken an item from `nstored` and not yet given the slot back.
abbrev pub has_item : Get → ℕ
has_item c_wait_mutex = 1
has_item c_check = 1
has_item c_post_mutex = 1
has_item c_post_empty = 1
has_item _ = 0

abbrev pub CEnded : ℕ → ℕ → Get → Type 0
CEnded nitems i c_returned = nitems ≤ i
CEnded nitems i c_head = Unit
CEnded nitems i _ = i < nitems

pub record IsSound (nitems : ℕ) (m : Shared) (t : Tally) (c : Consumer) : Type 0 where
  pub exclusive : m.mutex + t.n_in_mutex + c_in_mutex c.at ≡ 1
  pub slots : m.nempty + t.n_has_empty + m.nput ≡ nbuff + c.i
  pub items : m.nstored + t.n_owes_stored + has_item c.at + c.i ≡ m.nput
  pub value : m.nputval + t.n_valuing ≡ m.nput
  pub room : m.nput + t.n_putting ≤ nitems
  pub all_put : 0 < t.n_ended → nitems ≤ m.nput
  pub at_most : c.i ≤ nitems
  pub end : CEnded nitems c.i c.at

module _ {nitems : ℕ} {m : Shared} {a : Tally} {c : Consumer} (v : IsSound nitems m a c) where
  pub produce-IsSound :
      {b : Tally} {l : Produced}
      → b.n_putting + b.n_valuing ≤ b.n_in_mutex
      → (p : Put) → produce nitems m p ≡ some l
      → Moved a b p l.at
      → IsSound nitems l.mem b c
  unfolding produce
  produce-IsSound ins p_wait_empty e h = ground arith
  produce-IsSound ins _ e h = ground arith

  pub consume-IsSound :
      {l : Consumed} (g : Get)
      → c.at ≡ g
      → consume nitems m c g ≡ some l
      → IsSound nitems l.mem a l.thread
  unfolding consume
  consume-IsSound c_head q e = ground arith
  consume-IsSound _ q e = ground arith

pub record HoldsItems (m : Shared) (t : Tally) (c : Consumer) : Type 0 where
  pub window : (j : ℕ) → c.i ≤ j → j < m.nput → m.buff (j % nbuff) ≡ j
  pub pending : 0 < t.n_stored → m.buff (m.nput % nbuff) ≡ m.nput
  pub no_errors : c.errors ≡ 0

slot-ne : (j k : ℕ) → j < k → k < j + nbuff → k % nbuff ≢ j % nbuff
slot-ne j k lo hi e = omega arith

module _ {nitems : ℕ} {m : Shared} {a : Tally} {c : Consumer} (v : IsSound nitems m a c)
    (h : HoldsItems m a c) where
  module _ {b : Tally} {l : Produced} (sa : a.n_stored ≤ a.n_putting)
      (sb : b.n_stored ≤ b.n_putting) (ib : b.n_putting + b.n_valuing ≤ b.n_in_mutex)
      (vb : IsSound nitems l.mem b c) where
    produce-window :
        (p : Put)
        → produce nitems m p ≡ some l
        → Moved a b p l.at
        → Within a p
        → (j : ℕ) → c.i ≤ j
        → j < l.mem.nput
        → l.mem.buff (j % nbuff) ≡ j
    unfolding produce
    produce-window p_store e k w j lo hi = ground (arith, h.window j, slot-ne j m.nput)
    produce-window p_nput e k w j lo hi = elim (dec_lt j m.nput) [
      | yes q ↦ ground (arith, h.window j)
      | no q ↦ let x : j ≡ m.nput = ground arith in ground (arith, h.pending)
    ]
    produce-window _ e k w j lo hi = ground (arith, h.window j)

    produce-pending :
        (p : Put)
        → produce nitems m p ≡ some l
        → Moved a b p l.at
        → 0 < b.n_stored
        → l.mem.buff (l.mem.nput % nbuff) ≡ l.mem.nput
    unfolding produce
    produce-pending p_store e k s = ground arith
    produce-pending _ e k s = ground (arith, h.pending)

    pub produce-HoldsItems :
        (p : Put)
        → produce nitems m p ≡ some l
        → Moved a b p l.at
        → Within a p
        → HoldsItems l.mem b c
    produce-HoldsItems p e k w = record {
      window = produce-window p e k w;
      pending = produce-pending p e k;
      no_errors = h.no_errors;
    }

  pub consume-HoldsItems :
      {l : Consumed} (g : Get)
      → c.at ≡ g
      → consume nitems m c g ≡ some l
      → HoldsItems l.mem a l.thread
  unfolding consume
  consume-HoldsItems c_check q e = record {
    window = λ j lo hi. ground (arith, h.window j);
    pending = λ s. ground (arith, h.pending);
    no_errors = ground (arith, h.no_errors, h.window c.i);
  }
  consume-HoldsItems _ q e = record {
    window = λ j lo hi. ground (arith, h.window j);
    pending = λ s. ground (arith, h.pending);
    no_errors = ground (arith, h.no_errors);
  }
