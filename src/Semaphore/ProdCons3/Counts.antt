-- ===== src/Semaphore/ProdCons3/Counts.antt =====
-- How many producers of codes/10.Semaphore/prodcons3.c are where, in the classes that the invariant counts.
use unpvol.Base.{ℕ, zero, suc, ◌+◌, ◌<◌, ◌≤◌, ◌≡◌, arith, update, total, total-update, le-total}
use unpvol.Semaphore.ProdCons3.Defs.{
  Put, p_wait_mutex, p_test, p_exit_empty, p_exit_mutex, p_store, p_nput, p_nputval, p_post_mutex,
  p_post_stored, p_count, p_returned, Thread,
}

-- between `sem_wait(&shared.mutex)` and its `sem_post`
abbrev pub in_mutex : Put → ℕ
in_mutex p_test = 1
in_mutex p_store = 1
in_mutex p_nput = 1
in_mutex p_nputval = 1
in_mutex p_post_mutex = 1
in_mutex p_exit_empty = 1
in_mutex p_exit_mutex = 1
in_mutex _ = 0

-- has taken a slot from `nempty` and neither filled it nor given it back
abbrev pub has_empty : Put → ℕ
has_empty p_wait_mutex = 1
has_empty p_test = 1
has_empty p_store = 1
has_empty p_nput = 1
has_empty p_exit_empty = 1
has_empty _ = 0

-- has filled a slot and not yet posted `nstored`
abbrev pub owes_stored : Put → ℕ
owes_stored p_nputval = 1
owes_stored p_post_mutex = 1
owes_stored p_post_stored = 1
owes_stored _ = 0

-- has seen `nput < nitems` and not yet counted the item
abbrev pub putting : Put → ℕ
putting p_store = 1
putting p_nput = 1
putting _ = 0

-- has stored the item and not yet counted it in `nput`
abbrev pub stored : Put → ℕ
stored p_nput = 1
stored _ = 0

-- has counted the item in `nput`, not in `nputval`
abbrev pub valuing : Put → ℕ
valuing p_nputval = 1
valuing _ = 0

-- has put an item that its own count does not show
abbrev pub uncounted : Put → ℕ
uncounted p_nputval = 1
uncounted p_post_mutex = 1
uncounted p_post_stored = 1
uncounted p_count = 1
uncounted _ = 0

-- has seen `nput >= nitems`
abbrev pub ended : Put → ℕ
ended p_exit_empty = 1
ended p_exit_mutex = 1
ended p_returned = 1
ended _ = 0

pub record Tally : Type 0 where
  pub n_in_mutex : ℕ
  pub n_has_empty : ℕ
  pub n_owes_stored : ℕ
  pub n_putting : ℕ
  pub n_stored : ℕ
  pub n_valuing : ℕ
  pub n_uncounted : ℕ
  pub n_ended : ℕ

unfoldable pub tally : ℕ → (ℕ → Thread) → Tally
tally n f = record {
  n_in_mutex = total (λ t. in_mutex t.at) n f;
  n_has_empty = total (λ t. has_empty t.at) n f;
  n_owes_stored = total (λ t. owes_stored t.at) n f;
  n_putting = total (λ t. putting t.at) n f;
  n_stored = total (λ t. stored t.at) n f;
  n_valuing = total (λ t. valuing t.at) n f;
  n_uncounted = total (λ t. uncounted t.at) n f;
  n_ended = total (λ t. ended t.at) n f;
}

-- From `a` to `b` one thread goes from `p` to `q`.
pub record Moved (a b : Tally) (p q : Put) : Type 0 where
  pub m_in_mutex : b.n_in_mutex + in_mutex p ≡ a.n_in_mutex + in_mutex q
  pub m_has_empty : b.n_has_empty + has_empty p ≡ a.n_has_empty + has_empty q
  pub m_owes_stored : b.n_owes_stored + owes_stored p ≡ a.n_owes_stored + owes_stored q
  pub m_putting : b.n_putting + putting p ≡ a.n_putting + putting q
  pub m_stored : b.n_stored + stored p ≡ a.n_stored + stored q
  pub m_valuing : b.n_valuing + valuing p ≡ a.n_valuing + valuing q
  pub m_uncounted : b.n_uncounted + uncounted p ≡ a.n_uncounted + uncounted q
  pub m_ended : b.n_ended + ended p ≡ a.n_ended + ended q

pub update-Moved :
    (n : ℕ) (f : ℕ → Thread) (i : ℕ) (u : Thread)
    → i < n
    → Moved (tally n f) (tally n (update f i u)) (f i).at u.at
unfolding tally
update-Moved n f i u lt = record {
  m_in_mutex = total-update (λ t. in_mutex t.at) n f i u lt;
  m_has_empty = total-update (λ t. has_empty t.at) n f i u lt;
  m_owes_stored = total-update (λ t. owes_stored t.at) n f i u lt;
  m_putting = total-update (λ t. putting t.at) n f i u lt;
  m_stored = total-update (λ t. stored t.at) n f i u lt;
  m_valuing = total-update (λ t. valuing t.at) n f i u lt;
  m_uncounted = total-update (λ t. uncounted t.at) n f i u lt;
  m_ended = total-update (λ t. ended t.at) n f i u lt;
}

-- A thread is in its own classes.
pub record Within (a : Tally) (p : Put) : Type 0 where
  pub w_has_empty : has_empty p ≤ a.n_has_empty

pub thread-Within : (n : ℕ) (f : ℕ → Thread) (i : ℕ) → i < n → Within (tally n f) (f i).at
unfolding tally
thread-Within n f i lt = record { w_has_empty = le-total (λ t. has_empty t.at) n f i lt }

pub inside-le-in_mutex :
    (n : ℕ) (f : ℕ → Thread)
    → (tally n f).n_putting + (tally n f).n_valuing ≤ (tally n f).n_in_mutex
unfolding tally total
inside-le-in_mutex zero f = omega arith
inside-le-in_mutex (suc n) f = ground (arith, inside-le-in_mutex n f)

pub stored-le-putting : (n : ℕ) (f : ℕ → Thread) → (tally n f).n_stored ≤ (tally n f).n_putting
unfolding tally total
stored-le-putting zero f = omega arith
stored-le-putting (suc n) f = ground (arith, stored-le-putting n f)
