-- ===== src/Mutex/ProdCons2/Counts.antt =====
-- How many producers of codes/7.Mutex_ConditionVariable/prodcons2.c are where, in the classes that the invariant counts.
use unpvol.Base.{ℕ, zero, suc, ◌+◌, ◌<◌, ◌≤◌, ◌≡◌, arith, update, total, total-update, le-total}
use unpvol.Mutex.ProdCons2.Defs.{
  Put, p_test, p_store, p_nput, p_nval, p_unlock, p_count, p_exit_unlock, p_returned, Thread,
}

-- holds `shared.mutex`
abbrev pub in_mutex : Put → ℕ
in_mutex p_test = 1
in_mutex p_store = 1
in_mutex p_nput = 1
in_mutex p_nval = 1
in_mutex p_unlock = 1
in_mutex p_exit_unlock = 1
in_mutex _ = 0

-- has seen `nput < nitems` and not yet counted the item
abbrev pub putting : Put → ℕ
putting p_store = 1
putting p_nput = 1
putting _ = 0

-- has stored the item and not yet counted it in `nput`
abbrev pub stored : Put → ℕ
stored p_nput = 1
stored _ = 0

-- has counted the item in `nput`, not in `nval`
abbrev pub valuing : Put → ℕ
valuing p_nval = 1
valuing _ = 0

-- has put an item that its own count does not show
abbrev pub uncounted : Put → ℕ
uncounted p_nval = 1
uncounted p_unlock = 1
uncounted p_count = 1
uncounted _ = 0

-- has seen `nput >= nitems`
abbrev pub ended : Put → ℕ
ended p_exit_unlock = 1
ended p_returned = 1
ended _ = 0

pub record Tally : Type 0 where
  pub n_in_mutex : ℕ
  pub n_putting : ℕ
  pub n_stored : ℕ
  pub n_valuing : ℕ
  pub n_uncounted : ℕ
  pub n_ended : ℕ

unfoldable pub tally : ℕ → (ℕ → Thread) → Tally
tally n f = record {
  n_in_mutex = total (λ t. in_mutex t.at) n f;
  n_putting = total (λ t. putting t.at) n f;
  n_stored = total (λ t. stored t.at) n f;
  n_valuing = total (λ t. valuing t.at) n f;
  n_uncounted = total (λ t. uncounted t.at) n f;
  n_ended = total (λ t. ended t.at) n f;
}

-- From `a` to `b` one thread goes from `p` to `q`.
pub record Moved (a b : Tally) (p q : Put) : Type 0 where
  pub m_in_mutex : b.n_in_mutex + in_mutex p ≡ a.n_in_mutex + in_mutex q
  pub m_putting : b.n_putting + putting p ≡ a.n_putting + putting q
  pub m_stored : b.n_stored + stored p ≡ a.n_stored + stored q
  pub m_valuing : b.n_valuing + valuing p ≡ a.n_valuing + valuing q
  pub m_uncounted : b.n_uncounted + uncounted p ≡ a.n_uncounted + uncounted q
  pub m_ended : b.n_ended + ended p ≡ a.n_ended + ended q

pub update-Moved :
    (n : ℕ) (f : ℕ → Thread) (i : ℕ) (u : Thread)
    → i < n
    → Moved (tally n f) (tally n (update f i u)) (f i).at u.at
unfolding tally
update-Moved n f i u lt = record {
  m_in_mutex = total-update (λ t. in_mutex t.at) n f i u lt;
  m_putting = total-update (λ t. putting t.at) n f i u lt;
  m_stored = total-update (λ t. stored t.at) n f i u lt;
  m_valuing = total-update (λ t. valuing t.at) n f i u lt;
  m_uncounted = total-update (λ t. uncounted t.at) n f i u lt;
  m_ended = total-update (λ t. ended t.at) n f i u lt;
}

-- A thread is in its own classes.
pub record Within (a : Tally) (p : Put) : Type 0 where
  pub w_in_mutex : in_mutex p ≤ a.n_in_mutex

pub thread-Within : (n : ℕ) (f : ℕ → Thread) (i : ℕ) → i < n → Within (tally n f) (f i).at
unfolding tally
thread-Within n f i lt = record { w_in_mutex = le-total (λ t. in_mutex t.at) n f i lt }

pub inside-le-in_mutex :
    (n : ℕ) (f : ℕ → Thread)
    → (tally n f).n_putting + (tally n f).n_valuing ≤ (tally n f).n_in_mutex
unfolding tally total
inside-le-in_mutex zero f = omega arith
inside-le-in_mutex (suc n) f = ground (arith, inside-le-in_mutex n f)

pub stored-le-putting : (n : ℕ) (f : ℕ → Thread) → (tally n f).n_stored ≤ (tally n f).n_putting
unfolding tally total
stored-le-putting zero f = omega arith
stored-le-putting (suc n) f = ground (arith, stored-le-putting n f)
