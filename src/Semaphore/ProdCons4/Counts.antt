-- ===== src/Semaphore/ProdCons4/Counts.antt =====
-- How many threads of prodcons4.c are where, in the classes that the invariant counts.
use unpvol.Base.{ℕ, zero, suc, ◌+◌, ◌<◌, ◌≤◌, ◌≡◌, arith, update, total, total-update, le-total}
use unpvol.Semaphore.ProdCons4.Defs.{
  Pc, p_wait_mutex, p_test, p_store, p_nput, p_nputval, p_post_mutex, p_post_stored, p_count,
  p_exit_stored, p_exit_empty, p_exit_mutex, p_returned, c_wait_mutex, c_test, c_fetch, c_nget,
  c_ngetval, c_post_mutex, c_post_empty, c_count, c_exit_stored, c_exit_mutex, c_returned, Thread,
}

-- between `sem_wait(&shared.mutex)` and its `sem_post`
abbrev pub in_mutex : Pc → ℕ
in_mutex p_test = 1
in_mutex p_store = 1
in_mutex p_nput = 1
in_mutex p_nputval = 1
in_mutex p_post_mutex = 1
in_mutex p_exit_stored = 1
in_mutex p_exit_empty = 1
in_mutex p_exit_mutex = 1
in_mutex c_test = 1
in_mutex c_fetch = 1
in_mutex c_nget = 1
in_mutex c_ngetval = 1
in_mutex c_post_mutex = 1
in_mutex c_exit_stored = 1
in_mutex c_exit_mutex = 1
in_mutex _ = 0

-- has taken a slot from `nempty` and neither filled it nor given it back
abbrev pub has_empty : Pc → ℕ
has_empty p_wait_mutex = 1
has_empty p_test = 1
has_empty p_store = 1
has_empty p_nput = 1
has_empty p_exit_stored = 1
has_empty p_exit_empty = 1
has_empty _ = 0

-- has emptied a slot and not yet posted `nempty`
abbrev pub owes_empty : Pc → ℕ
owes_empty c_ngetval = 1
owes_empty c_post_mutex = 1
owes_empty c_post_empty = 1
owes_empty _ = 0

-- has filled a slot and not yet posted `nstored`
abbrev pub owes_stored : Pc → ℕ
owes_stored p_nputval = 1
owes_stored p_post_mutex = 1
owes_stored p_post_stored = 1
owes_stored _ = 0

-- has taken an item from `nstored` and neither fetched it nor given it back
abbrev pub has_stored : Pc → ℕ
has_stored c_wait_mutex = 1
has_stored c_test = 1
has_stored c_fetch = 1
has_stored c_nget = 1
has_stored c_exit_stored = 1
has_stored _ = 0

-- has seen `nput < nitems` and not yet counted the item
abbrev pub putting : Pc → ℕ
putting p_store = 1
putting p_nput = 1
putting _ = 0

-- has stored the item and not yet counted it in `nput`
abbrev pub stored : Pc → ℕ
stored p_nput = 1
stored _ = 0

-- has counted the item in `nput`, not in `nputval`
abbrev pub put : Pc → ℕ
put p_nputval = 1
put _ = 0

-- has seen `nget < nitems` and not yet counted the item
abbrev pub getting : Pc → ℕ
getting c_fetch = 1
getting c_nget = 1
getting _ = 0

-- has counted the item in `nget`, not in `ngetval`
abbrev pub got : Pc → ℕ
got c_ngetval = 1
got _ = 0

-- has seen `nput >= nitems`
abbrev pub leaving : Pc → ℕ
leaving p_exit_stored = 1
leaving _ = 0

-- has posted `nstored` on its way out
abbrev pub left : Pc → ℕ
left p_exit_empty = 1
left p_exit_mutex = 1
left p_returned = 1
left _ = 0

-- has put an item that its own count does not show
abbrev pub p_uncounted : Pc → ℕ
p_uncounted p_nputval = 1
p_uncounted p_post_mutex = 1
p_uncounted p_post_stored = 1
p_uncounted p_count = 1
p_uncounted _ = 0

-- has got an item that its own count does not show
abbrev pub c_uncounted : Pc → ℕ
c_uncounted c_ngetval = 1
c_uncounted c_post_mutex = 1
c_uncounted c_post_empty = 1
c_uncounted c_count = 1
c_uncounted _ = 0

-- has seen `nget >= nitems`
abbrev pub c_ended : Pc → ℕ
c_ended c_exit_stored = 1
c_ended c_exit_mutex = 1
c_ended c_returned = 1
c_ended _ = 0

pub record Tally : Type 0 where
  pub n_in_mutex : ℕ
  pub n_has_empty : ℕ
  pub n_owes_empty : ℕ
  pub n_owes_stored : ℕ
  pub n_has_stored : ℕ
  pub n_putting : ℕ
  pub n_stored : ℕ
  pub n_put : ℕ
  pub n_getting : ℕ
  pub n_got : ℕ
  pub n_leaving : ℕ
  pub n_left : ℕ
  pub n_p_uncounted : ℕ
  pub n_c_uncounted : ℕ
  pub n_c_ended : ℕ

unfoldable pub tally : ℕ → (ℕ → Thread) → Tally
tally n f = record {
  n_in_mutex = total (λ t. in_mutex t.at) n f;
  n_has_empty = total (λ t. has_empty t.at) n f;
  n_owes_empty = total (λ t. owes_empty t.at) n f;
  n_owes_stored = total (λ t. owes_stored t.at) n f;
  n_has_stored = total (λ t. has_stored t.at) n f;
  n_putting = total (λ t. putting t.at) n f;
  n_stored = total (λ t. stored t.at) n f;
  n_put = total (λ t. put t.at) n f;
  n_getting = total (λ t. getting t.at) n f;
  n_got = total (λ t. got t.at) n f;
  n_leaving = total (λ t. leaving t.at) n f;
  n_left = total (λ t. left t.at) n f;
  n_p_uncounted = total (λ t. p_uncounted t.at) n f;
  n_c_uncounted = total (λ t. c_uncounted t.at) n f;
  n_c_ended = total (λ t. c_ended t.at) n f;
}

-- From `a` to `b` one thread goes from `p` to `q`.
pub record Moved (a b : Tally) (p q : Pc) : Type 0 where
  pub m_in_mutex : b.n_in_mutex + in_mutex p ≡ a.n_in_mutex + in_mutex q
  pub m_has_empty : b.n_has_empty + has_empty p ≡ a.n_has_empty + has_empty q
  pub m_owes_empty : b.n_owes_empty + owes_empty p ≡ a.n_owes_empty + owes_empty q
  pub m_owes_stored : b.n_owes_stored + owes_stored p ≡ a.n_owes_stored + owes_stored q
  pub m_has_stored : b.n_has_stored + has_stored p ≡ a.n_has_stored + has_stored q
  pub m_putting : b.n_putting + putting p ≡ a.n_putting + putting q
  pub m_stored : b.n_stored + stored p ≡ a.n_stored + stored q
  pub m_put : b.n_put + put p ≡ a.n_put + put q
  pub m_getting : b.n_getting + getting p ≡ a.n_getting + getting q
  pub m_got : b.n_got + got p ≡ a.n_got + got q
  pub m_leaving : b.n_leaving + leaving p ≡ a.n_leaving + leaving q
  pub m_left : b.n_left + left p ≡ a.n_left + left q
  pub m_p_uncounted : b.n_p_uncounted + p_uncounted p ≡ a.n_p_uncounted + p_uncounted q
  pub m_c_uncounted : b.n_c_uncounted + c_uncounted p ≡ a.n_c_uncounted + c_uncounted q
  pub m_c_ended : b.n_c_ended + c_ended p ≡ a.n_c_ended + c_ended q

pub update-Moved :
    (n : ℕ) (f : ℕ → Thread) (i : ℕ) (u : Thread)
    → i < n
    → Moved (tally n f) (tally n (update f i u)) (f i).at u.at
unfolding tally
update-Moved n f i u lt = record {
  m_in_mutex = total-update (λ t. in_mutex t.at) n f i u lt;
  m_has_empty = total-update (λ t. has_empty t.at) n f i u lt;
  m_owes_empty = total-update (λ t. owes_empty t.at) n f i u lt;
  m_owes_stored = total-update (λ t. owes_stored t.at) n f i u lt;
  m_has_stored = total-update (λ t. has_stored t.at) n f i u lt;
  m_putting = total-update (λ t. putting t.at) n f i u lt;
  m_stored = total-update (λ t. stored t.at) n f i u lt;
  m_put = total-update (λ t. put t.at) n f i u lt;
  m_getting = total-update (λ t. getting t.at) n f i u lt;
  m_got = total-update (λ t. got t.at) n f i u lt;
  m_leaving = total-update (λ t. leaving t.at) n f i u lt;
  m_left = total-update (λ t. left t.at) n f i u lt;
  m_p_uncounted = total-update (λ t. p_uncounted t.at) n f i u lt;
  m_c_uncounted = total-update (λ t. c_uncounted t.at) n f i u lt;
  m_c_ended = total-update (λ t. c_ended t.at) n f i u lt;
}

-- The classes inside the mutex are disjoint.
pub inside-le-in_mutex :
    (n : ℕ) (f : ℕ → Thread)
    → (tally n f).n_putting
        + (tally n f).n_put
        + ((tally n f).n_getting + (tally n f).n_got + (tally n f).n_leaving)
      ≤ (tally n f).n_in_mutex
unfolding tally total
inside-le-in_mutex zero f = omega arith
inside-le-in_mutex (suc n) f = ground (arith, inside-le-in_mutex n f)

pub stored-le-putting : (n : ℕ) (f : ℕ → Thread) → (tally n f).n_stored ≤ (tally n f).n_putting
unfolding tally total
stored-le-putting zero f = omega arith
stored-le-putting (suc n) f = ground (arith, stored-le-putting n f)

-- A thread is in its own classes.
pub record Within (a : Tally) (p : Pc) : Type 0 where
  pub w_in_mutex : in_mutex p ≤ a.n_in_mutex
  pub w_has_empty : has_empty p ≤ a.n_has_empty
  pub w_putting : putting p ≤ a.n_putting
  pub w_stored : stored p ≤ a.n_stored
  pub w_getting : getting p ≤ a.n_getting
  pub w_has_stored : has_stored p ≤ a.n_has_stored

pub thread-Within : (n : ℕ) (f : ℕ → Thread) (i : ℕ) → i < n → Within (tally n f) (f i).at
unfolding tally
thread-Within n f i lt = record {
  w_in_mutex = le-total (λ t. in_mutex t.at) n f i lt;
  w_has_empty = le-total (λ t. has_empty t.at) n f i lt;
  w_putting = le-total (λ t. putting t.at) n f i lt;
  w_stored = le-total (λ t. stored t.at) n f i lt;
  w_getting = le-total (λ t. getting t.at) n f i lt;
  w_has_stored = le-total (λ t. has_stored t.at) n f i lt;
}
