-- ===== src/Mutex/ProdCons6/Counts.antt =====
-- How many producers of prodcons6.c are where, in the classes that the invariant counts.
use unpvol.Base.{ℕ, zero, suc, ◌+◌, ◌<◌, ◌≤◌, ◌≡◌, arith, update, total, total-update}
use unpvol.Mutex.ProdCons6.Defs.{
  Put, p_test, p_store, p_nput, p_nval, p_unlock_put, p_lock_ready, p_signal, p_incr,
  p_unlock_ready, p_count, p_exit_unlock, p_returned, Thread,
}

-- holds `put.mutex`
abbrev pub in_put : Put → ℕ
in_put p_test = 1
in_put p_store = 1
in_put p_nput = 1
in_put p_nval = 1
in_put p_unlock_put = 1
in_put p_exit_unlock = 1
in_put _ = 0

-- holds `nready.mutex`
abbrev pub in_ready : Put → ℕ
in_ready p_signal = 1
in_ready p_incr = 1
in_ready p_unlock_ready = 1
in_ready _ = 0

-- has seen `nput < nitems` and not yet counted the item
abbrev pub putting : Put → ℕ
putting p_store = 1
putting p_nput = 1
putting _ = 0

-- has stored the item and not yet counted it in `nput`
abbrev pub stored : Put → ℕ
stored p_nput = 1
stored _ = 0

-- has counted the item in `nput`, not in `nval`
abbrev pub valuing : Put → ℕ
valuing p_nval = 1
valuing _ = 0

-- has counted the item in `nput`, not in `nready`
abbrev pub unready : Put → ℕ
unready p_nval = 1
unready p_unlock_put = 1
unready p_lock_ready = 1
unready p_signal = 1
unready p_incr = 1
unready _ = 0

-- has signalled, where it was due, and not yet counted
abbrev pub signalled : Put → ℕ
signalled p_incr = 1
signalled _ = 0

-- has put an item that its own count does not show
abbrev pub uncounted : Put → ℕ
uncounted p_nval = 1
uncounted p_unlock_put = 1
uncounted p_lock_ready = 1
uncounted p_signal = 1
uncounted p_incr = 1
uncounted p_unlock_ready = 1
uncounted p_count = 1
uncounted _ = 0

-- has seen `nput >= nitems`
abbrev pub ended : Put → ℕ
ended p_exit_unlock = 1
ended p_returned = 1
ended _ = 0

pub record Tally : Type 0 where
  pub n_in_put : ℕ
  pub n_in_ready : ℕ
  pub n_putting : ℕ
  pub n_stored : ℕ
  pub n_valuing : ℕ
  pub n_unready : ℕ
  pub n_signalled : ℕ
  pub n_uncounted : ℕ
  pub n_ended : ℕ

unfoldable pub tally : ℕ → (ℕ → Thread) → Tally
tally n f = record {
  n_in_put = total (λ t. in_put t.at) n f;
  n_in_ready = total (λ t. in_ready t.at) n f;
  n_putting = total (λ t. putting t.at) n f;
  n_stored = total (λ t. stored t.at) n f;
  n_valuing = total (λ t. valuing t.at) n f;
  n_unready = total (λ t. unready t.at) n f;
  n_signalled = total (λ t. signalled t.at) n f;
  n_uncounted = total (λ t. uncounted t.at) n f;
  n_ended = total (λ t. ended t.at) n f;
}

-- From `a` to `b` one thread goes from `p` to `q`.
pub record Moved (a b : Tally) (p q : Put) : Type 0 where
  pub m_in_put : b.n_in_put + in_put p ≡ a.n_in_put + in_put q
  pub m_in_ready : b.n_in_ready + in_ready p ≡ a.n_in_ready + in_ready q
  pub m_putting : b.n_putting + putting p ≡ a.n_putting + putting q
  pub m_stored : b.n_stored + stored p ≡ a.n_stored + stored q
  pub m_valuing : b.n_valuing + valuing p ≡ a.n_valuing + valuing q
  pub m_unready : b.n_unready + unready p ≡ a.n_unready + unready q
  pub m_signalled : b.n_signalled + signalled p ≡ a.n_signalled + signalled q
  pub m_uncounted : b.n_uncounted + uncounted p ≡ a.n_uncounted + uncounted q
  pub m_ended : b.n_ended + ended p ≡ a.n_ended + ended q

pub update-Moved :
    (n : ℕ) (f : ℕ → Thread) (i : ℕ) (u : Thread)
    → i < n
    → Moved (tally n f) (tally n (update f i u)) (f i).at u.at
unfolding tally
update-Moved n f i u lt = record {
  m_in_put = total-update (λ t. in_put t.at) n f i u lt;
  m_in_ready = total-update (λ t. in_ready t.at) n f i u lt;
  m_putting = total-update (λ t. putting t.at) n f i u lt;
  m_stored = total-update (λ t. stored t.at) n f i u lt;
  m_valuing = total-update (λ t. valuing t.at) n f i u lt;
  m_unready = total-update (λ t. unready t.at) n f i u lt;
  m_signalled = total-update (λ t. signalled t.at) n f i u lt;
  m_uncounted = total-update (λ t. uncounted t.at) n f i u lt;
  m_ended = total-update (λ t. ended t.at) n f i u lt;
}

pub inside-le-in_put :
    (n : ℕ) (f : ℕ → Thread) → (tally n f).n_putting + (tally n f).n_valuing ≤ (tally n f).n_in_put
unfolding tally total
inside-le-in_put zero f = omega arith
inside-le-in_put (suc n) f = ground (arith, inside-le-in_put n f)

pub stored-le-putting : (n : ℕ) (f : ℕ → Thread) → (tally n f).n_stored ≤ (tally n f).n_putting
unfolding tally total
stored-le-putting zero f = omega arith
stored-le-putting (suc n) f = ground (arith, stored-le-putting n f)

pub signalled-le-in_ready :
    (n : ℕ) (f : ℕ → Thread) → (tally n f).n_signalled ≤ (tally n f).n_in_ready
unfolding tally total
signalled-le-in_ready zero f = omega arith
signalled-le-in_ready (suc n) f = ground (arith, signalled-le-in_ready n f)
