-- ===== src/Semaphore/ProdCons4/Items.antt =====
-- The slots between `nget` and `nput` hold the items, in order, and no consumer sees another value.
use unpvol.Base.{ℕ, ◌+◌, ◌%◌, ◌<◌, ◌≤◌, ◌≡◌, ◌≢◌, arith, some, dec_lt}
use unpvol.Semaphore.ProdCons4.Defs.{
  Pc, p_store, p_nput, c_fetch, c_nget, nbuff, Shared, Local, produce, consume,
}
use unpvol.Semaphore.ProdCons4.Counts.{Tally, Moved, Within}
use unpvol.Semaphore.ProdCons4.Invariant.{IsSound}

pub record HoldsItems (m : Shared) (t : Tally) : Type 0 where
  pub window : (j : ℕ) → m.nget ≤ j → j < m.nput → m.buff (j % nbuff) ≡ j
  pub pending : 0 < t.n_stored → m.buff (m.nput % nbuff) ≡ m.nput
  pub no_errors : m.errors ≡ 0

slot-ne : (j k : ℕ) → j < k → k < j + nbuff → k % nbuff ≢ j % nbuff
slot-ne j k lo hi e = omega arith

module _ {nitems : ℕ} {m : Shared} {a b : Tally} {l : Local} (v : IsSound nitems m a)
    (sa : a.n_stored ≤ a.n_putting) (sb : b.n_stored ≤ b.n_putting) (vb : IsSound nitems l.mem b)
    (h : HoldsItems m a) where
  produce-window :
      (p : Pc)
      → produce nitems m p ≡ some l
      → Moved a b p l.pc
      → Within a p
      → (j : ℕ) → l.mem.nget ≤ j
      → j < l.mem.nput
      → l.mem.buff (j % nbuff) ≡ j
  unfolding produce
  produce-window p_store e k w j lo hi = ground (arith, h.window j, slot-ne j m.nput)
  produce-window p_nput e k w j lo hi = elim (dec_lt j m.nput) [
    | yes q ↦ ground (arith, h.window j)
    | no q ↦ let x : j ≡ m.nput = ground arith in ground (arith, h.pending)
  ]
  produce-window _ e k w j lo hi = ground (arith, h.window j)

  produce-pending :
      (p : Pc)
      → produce nitems m p ≡ some l
      → Moved a b p l.pc
      → Within a p
      → 0 < b.n_stored
      → l.mem.buff (l.mem.nput % nbuff) ≡ l.mem.nput
  unfolding produce
  produce-pending p_store e k w s = ground arith
  produce-pending _ e k w s = ground (arith, h.pending)

  produce-errors : (p : Pc) → produce nitems m p ≡ some l → l.mem.errors ≡ 0
  unfolding produce
  produce-errors p_store e = ground (arith, h.no_errors)
  produce-errors _ e = ground (arith, h.no_errors)

  pub produce-HoldsItems :
      (p : Pc) → produce nitems m p ≡ some l → Moved a b p l.pc → Within a p → HoldsItems l.mem b
  produce-HoldsItems p e k w = record {
    window = produce-window p e k w;
    pending = produce-pending p e k w;
    no_errors = produce-errors p e;
  }

  consume-window :
      (p : Pc)
      → consume nitems m p ≡ some l
      → (j : ℕ) → l.mem.nget ≤ j
      → j < l.mem.nput
      → l.mem.buff (j % nbuff) ≡ j
  unfolding consume
  consume-window c_nget e j lo hi = ground (arith, h.window j)
  consume-window _ e j lo hi = ground (arith, h.window j)

  consume-pending :
      (p : Pc)
      → consume nitems m p ≡ some l
      → Moved a b p l.pc
      → 0 < b.n_stored
      → l.mem.buff (l.mem.nput % nbuff) ≡ l.mem.nput
  unfolding consume
  consume-pending c_nget e k s = ground (arith, h.pending)
  consume-pending _ e k s = ground (arith, h.pending)

  consume-errors : (p : Pc) → consume nitems m p ≡ some l → Within a p → l.mem.errors ≡ 0
  unfolding consume
  consume-errors c_fetch e w = ground (arith, h.no_errors, h.window m.nget)
  consume-errors _ e w = ground (arith, h.no_errors)

  pub consume-HoldsItems :
      (p : Pc) → consume nitems m p ≡ some l → Moved a b p l.pc → Within a p → HoldsItems l.mem b
  consume-HoldsItems p e k w = record {
    window = consume-window p e;
    pending = consume-pending p e k;
    no_errors = consume-errors p e w;
  }
