-- ===== src/Mutex/ProdCons2/Invariant.antt =====
-- The accounts of prodcons2.c over a mutex, kept by every step.
use unpvol.Base.{ℕ, ◌+◌, ◌<◌, ◌≤◌, ◌≡◌, arith, some, dec_lt}
use unpvol.Mutex.ProdCons2.Defs.{
  Put, p_lock, p_store, p_nput, Get, c_unborn, c_head, c_check, c_returned, Shared, Produced,
  Consumer, Consumed, produce, consume,
}
use unpvol.Mutex.ProdCons2.Counts.{Tally, Moved}

abbrev pub in_round : Get → ℕ
in_round c_unborn = 0
in_round c_head = 0
in_round c_returned = 0
in_round _ = 1

-- Once the consumer is there all items are.
abbrev pub CEnded : ℕ → ℕ → Shared → Get → Type 0
CEnded nitems i m c_unborn = i ≡ 0
CEnded nitems i m c_returned = (nitems ≤ i) × (nitems ≤ m.nput)
CEnded nitems i m _ = nitems ≤ m.nput

pub record IsSound (nitems : ℕ) (m : Shared) (t : Tally) (c : Consumer) : Type 0 where
  pub exclusive : m.mutex + t.n_in_mutex ≡ 1
  pub value : m.nval + t.n_valuing ≡ m.nput
  pub room : m.nput + t.n_putting ≤ nitems
  pub all_put : 0 < t.n_ended → nitems ≤ m.nput
  pub rounds : c.i + in_round c.at ≤ nitems
  pub end : CEnded nitems c.i m c.at

module _ {nitems : ℕ} {m : Shared} {a : Tally} {c : Consumer} (v : IsSound nitems m a c) where
  pub produce-IsSound :
      {b : Tally} {l : Produced}
      → b.n_putting + b.n_valuing ≤ b.n_in_mutex
      → (p : Put) → produce nitems m p ≡ some l
      → Moved a b p l.at
      → IsSound nitems l.mem b c
  unfolding produce
  produce-IsSound ins p_lock e h = ground arith
  produce-IsSound ins _ e h = ground arith

  pub consume-IsSound :
      {l : Consumed} (g : Get)
      → c.at ≡ g
      → consume nitems m c g ≡ some l
      → IsSound nitems l.mem a l.thread
  unfolding consume
  consume-IsSound c_head q e = ground arith
  consume-IsSound _ q e = ground arith

pub record HoldsItems (m : Shared) (t : Tally) (c : Consumer) : Type 0 where
  pub window : (j : ℕ) → j < m.nput → m.buff j ≡ j
  pub pending : 0 < t.n_stored → m.buff m.nput ≡ m.nput
  pub no_errors : c.errors ≡ 0

module _ {nitems : ℕ} {m : Shared} {a : Tally} {c : Consumer} (v : IsSound nitems m a c)
    (h : HoldsItems m a c) where
  module _ {b : Tally} {l : Produced} (sa : a.n_stored ≤ a.n_putting)
      (sb : b.n_stored ≤ b.n_putting) (ib : b.n_putting + b.n_valuing ≤ b.n_in_mutex)
      (vb : IsSound nitems l.mem b c) where
    produce-window :
        (p : Put)
        → produce nitems m p ≡ some l
        → Moved a b p l.at
        → (j : ℕ) → j < l.mem.nput
        → l.mem.buff j ≡ j
    unfolding produce
    produce-window p_store e k j hi = ground (arith, h.window j)
    produce-window p_nput e k j hi = elim (dec_lt j m.nput) [
      | yes q ↦ ground (arith, h.window j)
      | no q ↦ let x : j ≡ m.nput = ground arith in ground (arith, h.pending)
    ]
    produce-window _ e k j hi = ground (arith, h.window j)

    produce-pending :
        (p : Put)
        → produce nitems m p ≡ some l
        → Moved a b p l.at
        → 0 < b.n_stored
        → l.mem.buff l.mem.nput ≡ l.mem.nput
    unfolding produce
    produce-pending p_store e k s = ground arith
    produce-pending _ e k s = ground (arith, h.pending)

    pub produce-HoldsItems :
        (p : Put) → produce nitems m p ≡ some l → Moved a b p l.at → HoldsItems l.mem b c
    produce-HoldsItems p e k = record {
      window = produce-window p e k;
      pending = produce-pending p e k;
      no_errors = h.no_errors;
    }

  pub consume-HoldsItems :
      {l : Consumed} (g : Get)
      → c.at ≡ g
      → consume nitems m c g ≡ some l
      → HoldsItems l.mem a l.thread
  unfolding consume
  consume-HoldsItems c_check q e = record {
    window = λ j hi. ground (arith, h.window j);
    pending = λ s. ground (arith, h.pending);
    no_errors = ground (arith, h.no_errors, h.window c.i);
  }
  consume-HoldsItems _ q e = record {
    window = λ j hi. ground (arith, h.window j);
    pending = λ s. ground (arith, h.pending);
    no_errors = ground (arith, h.no_errors);
  }
