-- ===== src/Mutex/ProdCons6/Blocked.antt =====
-- Where a thread of prodcons6.c can take a step, and what it waits for.
use unpvol.Base.{ℕ, suc, ◌-◌, ◌<◌, ◌≡◌, ◌⊎◌, inl, inr, refl, arith, false, some, dec_lt}
use unpvol.Mutex.ProdCons6.Defs.{
  Put, p_lock_put, p_test, p_store, p_nput, p_nval, p_unlock_put, p_lock_ready, p_signal, p_incr,
  p_unlock_ready, p_count, p_exit_unlock, p_returned, Get, c_head, c_lock, c_while, c_asleep,
  c_relock, c_decr, c_unlock, c_check, c_returned, Shared, Produced, Consumer, Consumed, produce,
  consume,
}

-- A producer that waits for nothing; one that wants `put.mutex`; one that wants `nready.mutex`.
abbrev pub moves : Put → ℕ
moves p_lock_put = 0
moves p_lock_ready = 0
moves p_returned = 0
moves _ = 1

abbrev pub wants_put : Put → ℕ
wants_put p_lock_put = 1
wants_put _ = 0

abbrev pub wants_ready : Put → ℕ
wants_ready p_lock_ready = 1
wants_ready _ = 0

abbrev pub PutGoes : ℕ → Shared → Put → Type 0
PutGoes nitems m p = (l : Produced) × (produce nitems m p ≡ some l)

module _ (nitems : ℕ) (m : Shared) where
  pub moves-PutGoes : (p : Put) → 0 < moves p → PutGoes nitems m p
  unfolding produce
  moves-PutGoes p_test h = (_, refl)
  moves-PutGoes p_store h = (_, refl)
  moves-PutGoes p_nput h = (_, refl)
  moves-PutGoes p_nval h = (_, refl)
  moves-PutGoes p_unlock_put h = (_, refl)
  moves-PutGoes p_signal h = (_, refl)
  moves-PutGoes p_incr h = (_, refl)
  moves-PutGoes p_unlock_ready h = (_, refl)
  moves-PutGoes p_count h = (_, refl)
  moves-PutGoes p_exit_unlock h = (_, refl)
  moves-PutGoes _ h = absurd (omega arith)

  pub wants_put-PutGoes : (p : Put) → 0 < wants_put p → 0 < m.put_mutex → PutGoes nitems m p
  unfolding produce
  wants_put-PutGoes p_lock_put h k = (
    record {
      mem = record m { put_mutex = m.put_mutex - 1 };
      at = p_test;
      counted = 0;
      signals = false;
    },
    ground arith,
  )
  wants_put-PutGoes _ h k = absurd (omega arith)

  pub wants_ready-PutGoes : (p : Put) → 0 < wants_ready p → 0 < m.ready_mutex → PutGoes nitems m p
  unfolding produce
  wants_ready-PutGoes p_lock_ready h k = (
    record {
      mem = record m { ready_mutex = m.ready_mutex - 1 };
      at = p_signal;
      counted = 0;
      signals = false;
    },
    ground arith,
  )
  wants_ready-PutGoes _ h k = absurd (omega arith)

-- Where the consumer stands still: at a mutex that is held, asleep, or returned.
abbrev pub GetBlocked : Shared → Get → Type 0
GetBlocked m c_lock = m.ready_mutex ≡ 0
GetBlocked m c_relock = m.ready_mutex ≡ 0
GetBlocked m c_asleep = Unit
GetBlocked m c_returned = Unit
GetBlocked m _ = ⊥

pub get_goes :
    (nitems : ℕ) (m : Shared) (c : Consumer) (g : Get)
    → ((l : Consumed) × (consume nitems m c g ≡ some l)) ⊎ GetBlocked m g
unfolding consume
get_goes nitems m c c_head = inl (_, refl)
get_goes nitems m c c_decr = inl (_, refl)
get_goes nitems m c c_unlock = inl (_, refl)
get_goes nitems m c c_check = inl (_, refl)
get_goes nitems m c c_asleep = inr tt
get_goes nitems m c c_returned = inr tt
get_goes nitems m c c_while = elim (dec_lt 0 m.nready) [
  | yes h ↦ inl (record { mem = m; thread = record c { at = c_decr } }, ground arith)
  | no h ↦ inl (
    record {
      mem = record m { ready_mutex = suc m.ready_mutex };
      thread = record c { at = c_asleep };
    },
    ground arith,
  )
]
get_goes nitems m c c_lock = elim (dec_lt 0 m.ready_mutex) [
  | yes h ↦ inl (
    record {
      mem = record m { ready_mutex = m.ready_mutex - 1 };
      thread = record c { at = c_while };
    },
    ground arith,
  )
  | no h ↦ inr (omega arith)
]
get_goes nitems m c c_relock = elim (dec_lt 0 m.ready_mutex) [
  | yes h ↦ inl (
    record {
      mem = record m { ready_mutex = m.ready_mutex - 1 };
      thread = record c { at = c_while };
    },
    ground arith,
  )
  | no h ↦ inr (omega arith)
]

pub ended_of_quiet : (p : Put) → moves p ≡ 0 → wants_put p ≡ 0 → wants_ready p ≡ 0 → p ≡ p_returned
ended_of_quiet p a b d = grind arith
