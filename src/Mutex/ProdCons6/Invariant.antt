-- ===== src/Mutex/ProdCons6/Invariant.antt =====
-- The accounts of prodcons6.c: what the two mutexes protect, kept by every step.
use unpvol.Base.{ℕ, ◌+◌, ◌<◌, ◌≤◌, ◌≡◌, arith, some}
use unpvol.Mutex.ProdCons6.Defs.{
  Put, p_lock_put, p_signal, p_incr, Get, c_head, c_while, c_asleep, c_relock, c_decr, c_unlock,
  c_check, c_returned, Shared, Produced, Consumer, Consumed, produce, consume, wake,
}
use unpvol.Mutex.ProdCons6.Counts.{Tally, Moved}

abbrev pub holds_ready : Get → ℕ
holds_ready c_while = 1
holds_ready c_decr = 1
holds_ready c_unlock = 1
holds_ready _ = 0

-- The consumer has taken an item from `nready` and not yet checked it.
abbrev pub has_taken : Get → ℕ
has_taken c_unlock = 1
has_taken c_check = 1
has_taken _ = 0

abbrev pub in_round : Get → ℕ
in_round c_head = 0
in_round c_returned = 0
in_round _ = 1

-- What the consumer knows where it stands.
abbrev pub Knows : (nitems i : ℕ) → Shared → Tally → Get → Type 0
Knows nitems i m t c_decr = 0 < m.nready
Knows nitems i m t c_asleep = (m.nready ≡ 0) × (t.n_signalled ≡ 0)
Knows nitems i m t c_returned = nitems ≤ i
Knows nitems i m t _ = Unit

pub record IsSound (nitems : ℕ) (m : Shared) (t : Tally) (c : Consumer) : Type 0 where
  pub put_held : m.put_mutex + t.n_in_put ≡ 1
  pub ready_held : m.ready_mutex + t.n_in_ready + holds_ready c.at ≡ 1
  pub value : m.nval + t.n_valuing ≡ m.nput
  pub room : m.nput + t.n_putting ≤ nitems
  pub all_put : 0 < t.n_ended → nitems ≤ m.nput
  pub ready : m.nready + t.n_unready + (c.i + has_taken c.at) ≡ m.nput
  pub rounds : c.i + in_round c.at ≤ nitems
  pub knows : Knows nitems c.i m t c.at

module _ {nitems : ℕ} {m : Shared} {a : Tally} {c : Consumer} (v : IsSound nitems m a c) where
  module _ {b : Tally} {l : Produced} (sig : b.n_signalled ≤ b.n_in_ready)
      (ins : b.n_putting + b.n_valuing ≤ b.n_in_put) where
    pub produce-IsSound :
        (p : Put) (g : Get)
        → c.at ≡ g
        → produce nitems m p ≡ some l
        → Moved a b p l.at
        → IsSound nitems l.mem b (record { i = c.i; at = wake l.signals g; errors = c.errors })
    unfolding produce
    produce-IsSound p_lock_put g q e h = ground arith
    produce-IsSound p_signal g q e h = ground arith
    produce-IsSound p_incr g q e h = ground arith
    produce-IsSound _ g q e h = ground arith

  pub consume-IsSound :
      {l : Consumed} (g : Get)
      → a.n_signalled ≤ a.n_in_ready
      → c.at ≡ g
      → consume nitems m c g ≡ some l
      → IsSound nitems l.mem a l.thread
  unfolding consume
  consume-IsSound c_head s q e = ground arith
  consume-IsSound _ s q e = ground arith

  pub spurious-IsSound :
      c.at ≡ c_asleep → IsSound nitems m a (record { i = c.i; at = c_relock; errors = c.errors })
  spurious-IsSound q = ground arith
