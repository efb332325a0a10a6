-- ===== src/Semaphore/ProdCons4/Blocked.antt =====
-- Where a thread of prodcons4.c can take a step: the classes of what it waits for.
use unpvol.Base.{ℕ, ◌<◌, ◌≡◌, ◌⊎◌, inl, inr, refl, arith, ◌-◌, some}
use unpvol.Semaphore.ProdCons4.Defs.{
  Pc, p_wait_empty, p_wait_mutex, p_test, p_store, p_nput, p_nputval, p_post_mutex, p_post_stored,
  p_count, p_exit_stored, p_exit_empty, p_exit_mutex, p_returned, c_wait_stored, c_wait_mutex,
  c_test, c_fetch, c_nget, c_ngetval, c_post_mutex, c_post_empty, c_count, c_exit_stored,
  c_exit_mutex, c_returned, Shared, Local, produce, consume,
}

-- A thread that waits for nothing and has not returned.
abbrev pub moves : Pc → ℕ
moves p_wait_empty = 0
moves p_wait_mutex = 0
moves p_returned = 0
moves c_wait_stored = 0
moves c_wait_mutex = 0
moves c_returned = 0
moves _ = 1

abbrev pub wants_mutex : Pc → ℕ
wants_mutex p_wait_mutex = 1
wants_mutex c_wait_mutex = 1
wants_mutex _ = 0

abbrev pub wants_empty : Pc → ℕ
wants_empty p_wait_empty = 1
wants_empty _ = 0

abbrev pub wants_stored : Pc → ℕ
wants_stored c_wait_stored = 1
wants_stored _ = 0

-- A thread with `p` next can take its step.
abbrev pub Goes : ℕ → Shared → Pc → Type 0
Goes nitems m p =
    ((l : Local) × (produce nitems m p ≡ some l)) ⊎ ((l : Local) × (consume nitems m p ≡ some l))

module _ (nitems : ℕ) (m : Shared) where
  pub moves-Goes : (p : Pc) → 0 < moves p → Goes nitems m p
  unfolding produce consume
  moves-Goes p_wait_empty h = absurd (omega arith)
  moves-Goes p_wait_mutex h = absurd (omega arith)
  moves-Goes p_test h = inl (_, refl)
  moves-Goes p_store h = inl (_, refl)
  moves-Goes p_nput h = inl (_, refl)
  moves-Goes p_nputval h = inl (_, refl)
  moves-Goes p_post_mutex h = inl (_, refl)
  moves-Goes p_post_stored h = inl (_, refl)
  moves-Goes p_count h = inl (_, refl)
  moves-Goes p_exit_stored h = inl (_, refl)
  moves-Goes p_exit_empty h = inl (_, refl)
  moves-Goes p_exit_mutex h = inl (_, refl)
  moves-Goes p_returned h = absurd (omega arith)
  moves-Goes c_wait_stored h = absurd (omega arith)
  moves-Goes c_wait_mutex h = absurd (omega arith)
  moves-Goes c_test h = inr (_, refl)
  moves-Goes c_fetch h = inr (_, refl)
  moves-Goes c_nget h = inr (_, refl)
  moves-Goes c_ngetval h = inr (_, refl)
  moves-Goes c_post_mutex h = inr (_, refl)
  moves-Goes c_post_empty h = inr (_, refl)
  moves-Goes c_count h = inr (_, refl)
  moves-Goes c_exit_stored h = inr (_, refl)
  moves-Goes c_exit_mutex h = inr (_, refl)
  moves-Goes c_returned h = absurd (omega arith)

  pub wants_mutex-Goes : (p : Pc) → 0 < wants_mutex p → 0 < m.mutex → Goes nitems m p
  unfolding produce consume
  wants_mutex-Goes p_wait_mutex h k =
      inl
        (record { mem = record m { mutex = m.mutex - 1 }; pc = p_test; counted = 0 }, ground arith)
  wants_mutex-Goes c_wait_mutex h k =
      inr
        (record { mem = record m { mutex = m.mutex - 1 }; pc = c_test; counted = 0 }, ground arith)
  wants_mutex-Goes _ h k = absurd (omega arith)

  pub wants_empty-Goes : (p : Pc) → 0 < wants_empty p → 0 < m.nempty → Goes nitems m p
  unfolding produce consume
  wants_empty-Goes p_wait_empty h k = inl (
    record { mem = record m { nempty = m.nempty - 1 }; pc = p_wait_mutex; counted = 0 },
    ground arith,
  )
  wants_empty-Goes _ h k = absurd (omega arith)

  pub wants_stored-Goes : (p : Pc) → 0 < wants_stored p → 0 < m.nstored → Goes nitems m p
  unfolding produce consume
  wants_stored-Goes c_wait_stored h k = inr (
    record { mem = record m { nstored = m.nstored - 1 }; pc = c_wait_mutex; counted = 0 },
    ground arith,
  )
  wants_stored-Goes _ h k = absurd (omega arith)
