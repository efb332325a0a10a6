-- ===== src/Cancel/Invariant.antt =====
-- What holds of every reachable state of testcancel.c.
use unpvol.Base.{
  ℕ, ◌≡◌, ◌≢◌, refl, arith, Bool, true, false, none, some, ℤ, pos, sym, ap, subst, ◌∙◌,
  if◌then◌else◌,
}
use unpvol.Rwlock.Defs.{
  Rwlock, rw_magic, exited, checked, rdlock, rdlock_resume, wrlock, wrlock_resume, unlock, destroy,
  rdlock_loop, wrlock_loop, unlock_wake,
}
use unpvol.Cancel.Defs.{
  T1, t1_rdlock, t1_waits, t1_cancel, t1_unlock, T2, t2_wrlock, t2_waits, t2_sleep, t2_unlock,
  t2_returned, t2_cancelled_waiting, t2_cancelled_holding, t2_after, M, m_join2, m_join1, m_destroy,
  m_done, State, thread1, thread2, cancels, has_ended1, has_ended2, main, ones, twos, ends, mains,
  Reach, start, later,
}

-- What thread2 has counted itself as in `rw_nwaitwriters`.
abbrev pub counted : T2 → ℤ
counted t2_waits = pos 1
counted t2_cancelled_waiting = pos 1
counted _ = pos 0

-- What `main` knows of the threads that it has joined.
abbrev pub Joined : (magic : ℕ) → T1 → T2 → M → Type 0
Joined magic t1 t2 m_join2 = magic ≡ rw_magic
Joined magic t1 t2 m_join1 = (magic ≡ rw_magic) × (has_ended2 t2 ≡ true)
Joined magic t1 t2 m_destroy = (magic ≡ rw_magic) × (has_ended2 t2 ≡ true) × (has_ended1 t1 ≡ true)
Joined magic t1 t2 (m_done o) =
    (has_ended2 t2 ≡ true) × (has_ended1 t1 ≡ true) × (t2 ≡ t2_cancelled_waiting → o ≡ exited)

pub record IsGood (s : State) : Type 0 where
  pub waiting : s.lock.nwaitwriters ≡ counted s.t2
  pub held : s.t2 ≡ t2_cancelled_waiting → s.mutex_free ≡ false
  pub joined : Joined s.lock.magic s.t1 s.t2 s.at

-- What the calls of thread1 leave as it is.
rdlock-same :
    (rw : Rwlock)
    → ((rdlock rw 0).lock.nwaitwriters ≡ rw.nwaitwriters) × ((rdlock rw 0).lock.magic ≡ rw.magic)
unfolding rdlock rdlock_loop
rdlock-same rw = ground arith

rdlock_resume-same :
    (rw : Rwlock)
    → ((rdlock_resume rw 0).lock.nwaitwriters ≡ rw.nwaitwriters)
      × ((rdlock_resume rw 0).lock.magic ≡ rw.magic)
unfolding rdlock_resume rdlock_loop
rdlock_resume-same rw = ground arith

unlock-same :
    (rw : Rwlock)
    → ((unlock rw 0 0 0).lock.nwaitwriters ≡ rw.nwaitwriters)
      × ((unlock rw 0 0 0).lock.magic ≡ rw.magic)
unfolding unlock unlock_wake
unlock-same rw = ground arith

-- The writer's calls count it as waiting where they wait.
wrlock-counted :
    (rw : Rwlock)
    → rw.nwaitwriters ≡ pos 0
    → ((wrlock rw 0).lock.nwaitwriters ≡ counted (t2_after (wrlock rw 0).outcome t2_sleep))
      × ((wrlock rw 0).lock.magic ≡ rw.magic)
      × (t2_after (wrlock rw 0).outcome t2_sleep ≢ t2_cancelled_waiting)
unfolding wrlock wrlock_loop
wrlock-counted rw h = ground arith

wrlock_resume-counted :
    (rw : Rwlock)
    → rw.nwaitwriters ≡ pos 1
    → ((wrlock_resume rw 0).lock.nwaitwriters
        ≡ counted (t2_after (wrlock_resume rw 0).outcome t2_sleep))
      × ((wrlock_resume rw 0).lock.magic ≡ rw.magic)
      × (t2_after (wrlock_resume rw 0).outcome t2_sleep ≢ t2_cancelled_waiting)
unfolding wrlock_resume wrlock_loop
wrlock_resume-counted rw h = ground arith

unlock-counted :
    (rw : Rwlock)
    → rw.nwaitwriters ≡ pos 0
    → ((unlock rw 0 0 0).lock.nwaitwriters
        ≡ counted (t2_after (unlock rw 0 0 0).outcome t2_returned))
      × ((unlock rw 0 0 0).lock.magic ≡ rw.magic)
      × (t2_after (unlock rw 0 0 0).outcome t2_returned ≢ t2_cancelled_waiting)
unfolding unlock unlock_wake
unlock-counted rw h = ground arith

destroy-same : (rw : Rwlock) → (destroy rw).lock.nwaitwriters ≡ rw.nwaitwriters
unfolding destroy
destroy-same rw = ground arith

-- Of a lock with a counted writer.
destroy-busy :
    (rw : Rwlock)
    → rw.magic ≡ rw_magic
    → rw.nwaitwriters ≡ pos 1
    → checked (destroy rw).outcome ≡ exited
unfolding destroy checked
destroy-busy rw m h = ground arith

-- `main` has not joined a thread that goes on.
Joined-one :
    (magic : ℕ) (t1 t1' : T1) (t2 : T2) (at : M)
    → has_ended1 t1 ≡ false
    → Joined magic t1 t2 at
    → Joined magic t1' t2 at
Joined-one magic t1 t1' t2 m_join2 h j = j
Joined-one magic t1 t1' t2 m_join1 h j = j
Joined-one magic t1 t1' t2 _ h j = absurd (ground arith)

Joined-two :
    (magic : ℕ) (t1 : T1) (t2 t2' : T2) (at : M)
    → has_ended2 t2 ≡ false
    → Joined magic t1 t2 at
    → Joined magic t1 t2' at
Joined-two magic t1 t2 t2' m_join2 h j = j
Joined-two magic t1 t2 t2' _ h j = absurd (ground arith)

module _ (s : State) (g : IsGood s) where
  called1-IsGood :
      (rw : Rwlock) (t1' : T1)
      → (rw.nwaitwriters ≡ s.lock.nwaitwriters) × (rw.magic ≡ s.lock.magic)
      → has_ended1 s.t1 ≡ false
      → IsGood (record s { lock = rw; t1 = t1' })
  called1-IsGood rw t1' same h = record {
    waiting = same.0 ∙ g.waiting;
    held = g.held;
    joined =
        Joined-one rw.magic s.t1 t1' s.t2 s.at h
          (subst (λ m. Joined m s.t1 s.t2 s.at) (sym same.1) g.joined);
  }

  called2-IsGood :
      (rw : Rwlock) (t2' : T2)
      → (rw.nwaitwriters ≡ counted t2') × (rw.magic ≡ s.lock.magic) × (t2' ≢ t2_cancelled_waiting)
      → has_ended2 s.t2 ≡ false
      → IsGood (record s { lock = rw; t2 = t2' })
  called2-IsGood rw t2' same h = record {
    waiting = same.0;
    held = λ q. absurd (same.2 q);
    joined =
        Joined-two rw.magic s.t1 s.t2 t2' s.at h
          (subst (λ m. Joined m s.t1 s.t2 s.at) (sym same.1) g.joined);
  }

  -- A call goes on where the mutex is free.
  with_mutex :
      (b : Bool) {u t : State} → IsGood u → (if b then some u else none) ≡ some t → IsGood t
  with_mutex true v e = subst IsGood (ground arith) v
  with_mutex false v e = absurd (ground arith)

  thread1-IsGood : {t : State} (at : T1) → s.t1 ≡ at → thread1 s at ≡ some t → IsGood t
  unfolding thread1
  thread1-IsGood t1_rdlock q e =
      with_mutex s.mutex_free (called1-IsGood _ _ (rdlock-same s.lock) (rw q refl)) e
  thread1-IsGood t1_waits q e =
      with_mutex s.mutex_free (called1-IsGood _ _ (rdlock_resume-same s.lock) (rw q refl)) e
  thread1-IsGood t1_unlock q e =
      with_mutex s.mutex_free (called1-IsGood _ _ (unlock-same s.lock) (rw q refl)) e
  thread1-IsGood t1_cancel q e =
      with_mutex true
        (record {
          waiting = g.waiting;
          held = g.held;
          joined = Joined-one s.lock.magic s.t1 t1_unlock s.t2 s.at (rw q refl) g.joined;
        })
        e
  thread1-IsGood _ q e = absurd (ground arith)

  thread2-IsGood : {t : State} (at : T2) → s.t2 ≡ at → thread2 s at ≡ some t → IsGood t
  unfolding thread2
  thread2-IsGood t2_wrlock q e =
      with_mutex s.mutex_free
        (called2-IsGood _ _ (wrlock-counted s.lock (g.waiting ∙ rw q refl)) (rw q refl)) e
  thread2-IsGood t2_waits q e =
      with_mutex s.mutex_free
        (called2-IsGood _ _ (wrlock_resume-counted s.lock (g.waiting ∙ rw q refl)) (rw q refl)) e
  thread2-IsGood t2_unlock q e =
      with_mutex s.mutex_free
        (called2-IsGood _ _ (unlock-counted s.lock (g.waiting ∙ rw q refl)) (rw q refl)) e
  thread2-IsGood t2_sleep q e =
      subst IsGood (ground arith) (
        called2-IsGood s.lock t2_unlock (g.waiting ∙ rw q refl, refl, λ c. ground arith)
          (rw q refl))
  thread2-IsGood _ q e = absurd (ground arith)

  cancels-IsGood : {t : State} (at : T2) → s.t2 ≡ at → cancels s at ≡ some t → IsGood t
  unfolding cancels
  cancels-IsGood t2_waits q e =
      with_mutex s.mutex_free
        (record {
          waiting = g.waiting ∙ rw q refl;
          held = λ c. refl;
          joined = Joined-two s.lock.magic s.t1 s.t2 t2_cancelled_waiting s.at (rw q refl) g.joined;
        })
        e
  cancels-IsGood t2_sleep q e = subst IsGood (ground arith) (
      called2-IsGood s.lock t2_cancelled_holding (g.waiting ∙ rw q refl, refl, λ c. ground arith)
        (rw q refl))
  cancels-IsGood _ q e = absurd (ground arith)

  main-IsGood : {t : State} (at : M) → s.at ≡ at → main s at ≡ some t → IsGood t
  unfolding main
  main-IsGood m_join2 q e = ground (arith, g)
  main-IsGood m_join1 q e = ground (arith, g)
  main-IsGood m_destroy q e =
      let j : Joined s.lock.magic s.t1 s.t2 m_destroy =
        subst (Joined s.lock.magic s.t1 s.t2) q g.joined in
      with_mutex true
        (record {
          waiting = destroy-same s.lock ∙ g.waiting;
          held = g.held;
          joined = (j.1, j.2, λ c. destroy-busy s.lock j.0 (g.waiting ∙ ap counted c));
        })
        e
  main-IsGood (m_done o) q e = absurd (ground arith)

pub Reach-IsGood : {s : State} → Reach s → IsGood s
Reach-IsGood start = record { waiting = refl; held = λ q. absurd (ground arith); joined = refl }
Reach-IsGood (later {s} r (ones e)) = thread1-IsGood s (Reach-IsGood r) s.t1 refl e
Reach-IsGood (later {s} r (twos e)) = thread2-IsGood s (Reach-IsGood r) s.t2 refl e
Reach-IsGood (later {s} r (ends c e)) = cancels-IsGood s (Reach-IsGood r) s.t2 refl e
Reach-IsGood (later {s} r (mains e)) = main-IsGood s (Reach-IsGood r) s.at refl e
