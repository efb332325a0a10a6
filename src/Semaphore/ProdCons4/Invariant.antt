-- ===== src/Semaphore/ProdCons4/Invariant.antt =====
-- The accounts of the three semaphores of prodcons4.c against the threads, kept by every step.
use unpvol.Base.{ℕ, ◌+◌, ◌<◌, ◌≤◌, ◌≡◌, arith, some}
use unpvol.Semaphore.ProdCons4.Defs.{Pc, p_wait_empty, nbuff, Shared, Local, produce, consume}
use unpvol.Semaphore.ProdCons4.Counts.{Tally, Moved}

pub record IsSound (nitems : ℕ) (m : Shared) (t : Tally) : Type 0 where
  pub exclusive : m.mutex + t.n_in_mutex ≡ 1
  pub inside : t.n_putting + t.n_put + (t.n_getting + t.n_got + t.n_leaving) ≤ t.n_in_mutex
  pub slots : m.nempty + t.n_has_empty + t.n_owes_empty + m.nput ≡ nbuff + m.nget
  pub items : m.nstored + t.n_owes_stored + t.n_has_stored + m.nget ≡ m.nput + t.n_left
  pub put_value : m.nputval + t.n_put ≡ m.nput
  pub get_value : m.ngetval + t.n_got ≡ m.nget
  pub room : m.nput + t.n_putting ≤ nitems
  pub more : m.nget + t.n_getting ≤ nitems
  pub all_put : 0 < t.n_leaving + t.n_left → nitems ≤ m.nput
  pub all_got : 0 < t.n_c_ended → nitems ≤ m.nget

module _ {nitems : ℕ} {m : Shared} {a b : Tally} {l : Local} (v : IsSound nitems m a)
    (inside : b.n_putting + b.n_put + (b.n_getting + b.n_got + b.n_leaving) ≤ b.n_in_mutex) where
  pub produce-IsSound :
      (p : Pc) → produce nitems m p ≡ some l → Moved a b p l.pc → IsSound nitems l.mem b
  unfolding produce
  produce-IsSound p_wait_empty e h = ground arith
  produce-IsSound _ e h = ground arith

  pub consume-IsSound :
      (p : Pc) → consume nitems m p ≡ some l → Moved a b p l.pc → IsSound nitems l.mem b
  unfolding consume
  consume-IsSound p_wait_empty e h = ground arith
  consume-IsSound _ e h = ground arith
