-- ===== src/Rwlock/Preference.antt =====
-- Writers go first: while one waits for the lock, no reader is let in.
use unpvol.Base.{ℕ, ◌+◌, ◌<◌, ◌≡◌, ◌≢◌, ◌⊎◌, inl, inr, arith, Bool, le-total, update, zero, suc}
use unpvol.Rwlock.Defs.{Rwlock, Wake, rdlock, rdlock_resume, tryrdlock}
use unpvol.Rwlock.System.{
  Pc, sleep_write, woken_write, reading, System, after_read, Woken, nobody, one, none_asleep,
  everyone, Step, call_rdlock, call_wrlock, call_tryrdlock, call_trywrlock, spurious_read,
  spurious_write, resume_read, resume_write, call_unlock, Reach,
}
use unpvol.Rwlock.Counts.{Tally, tally, asleep_write, awake_write}
use unpvol.Rwlock.Granted.{
  wrlock-not-reading, trywrlock-not-reading, wrlock_resume-not-reading, unlock-idle,
}
use unpvol.Rwlock.Invariant.{
  IsConsistent, SystemIsConsistent, Reach-IsConsistent, reading-counted, writing-counted,
}

module _ {rw : Rwlock} {a : Tally} (inv : IsConsistent rw a)
    (waiting : 0 < a.sleep_w + a.woken_w) where
  rdlock-refused : after_read (rdlock rw 0).outcome ≢ reading
  unfolding rdlock
  rdlock-refused e = ground arith

  tryrdlock-refused : after_read (tryrdlock rw 0).outcome ≢ reading
  unfolding tryrdlock
  tryrdlock-refused e = ground arith

  rdlock_resume-refused : (r : ℕ) → after_read (rdlock_resume rw r).outcome ≢ reading
  unfolding rdlock_resume
  rdlock_resume-refused zero e = ground arith
  rdlock_resume-refused (suc r) e = ground arith

writer-counted :
    (n : ℕ) (pc : ℕ → Pc) (i : ℕ)
    → i < n
    → (pc i ≡ sleep_write) ⊎ (pc i ≡ woken_write)
    → 0 < (tally n pc).sleep_w + (tally n pc).woken_w
unfolding tally
writer-counted n pc i lt (inl e) = ground (arith, le-total asleep_write n pc i lt)
writer-counted n pc i lt (inr e) = ground (arith, le-total awake_write n pc i lt)

not_by_update :
    (pc : ℕ → Pc) (i : ℕ) (q : Pc) (j : ℕ)
    → q ≢ reading
    → update pc i q j ≡ reading
    → pc j ≡ reading
not_by_update pc i q j ne e = ground arith

not_by_waking :
    {n : ℕ} {pc pc' : ℕ → Pc} {w : Wake}
    → Woken n pc w pc'
    → (j : ℕ) → pc' j ≡ reading
    → pc j ≡ reading
not_by_waking nobody k h = h
not_by_waking {pc} (one j lt e) k h = not_by_update pc j woken_write k (λ f. cc) h
not_by_waking (none_asleep g) k h = h
not_by_waking {pc} everyone k h = ground arith

module _ {n : ℕ} {s : System} (inv : SystemIsConsistent n s) where
  Step-no_reader :
      {may_fail : Bool} {t : System}
      → 0 < (tally n s.pc).sleep_w + (tally n s.pc).woken_w
      → Step may_fail n s t
      → (j : ℕ) → t.pc j ≡ reading
      → s.pc j ≡ reading
  Step-no_reader w (call_rdlock i lt e) j h = not_by_update s.pc i _ j (rdlock-refused inv w) h
  Step-no_reader w (call_tryrdlock i lt e) j h =
      not_by_update s.pc i _ j (tryrdlock-refused inv w) h
  Step-no_reader w (call_wrlock i lt e) j h = not_by_update s.pc i _ j (wrlock-not-reading s.lock) h
  Step-no_reader w (call_trywrlock i lt e) j h =
      not_by_update s.pc i _ j (trywrlock-not-reading s.lock) h
  Step-no_reader w (spurious_read i lt e) j h = not_by_update s.pc i _ j (λ f. cc) h
  Step-no_reader w (spurious_write i lt e) j h = not_by_update s.pc i _ j (λ f. cc) h
  Step-no_reader w (resume_read i r lt e f) j h =
      not_by_update s.pc i _ j (rdlock_resume-refused inv w r) h
  Step-no_reader w (resume_write i r lt e f) j h =
      not_by_update s.pc i _ j (wrlock_resume-not-reading s.lock r) h
  Step-no_reader w (call_unlock i lt (inl e) k) j h =
      let q = unlock-idle inv (inl (reading-counted n s.pc i lt e)) in
      not_by_update s.pc i _ j (λ f. cc) (not_by_waking k j h)
  Step-no_reader w (call_unlock i lt (inr e) k) j h =
      let q = unlock-idle inv (inr (writing-counted n s.pc i lt e)) in
      not_by_update s.pc i _ j (λ f. cc) (not_by_waking k j h)

-- From a reachable state in which a thread waits in `wrlock`, no step lets a reader in: whoever
-- has a read lock after the step had it before.
pub writer_preference :
    {may_fail : Bool} {n : ℕ} {s t : System}
    → Reach may_fail n s
    → (i : ℕ) → i < n
    → (s.pc i ≡ sleep_write) ⊎ (s.pc i ≡ woken_write)
    → Step may_fail n s t
    → (j : ℕ) → t.pc j ≡ reading
    → s.pc j ≡ reading
writer_preference {n} {s} r i lt w st j h =
    Step-no_reader (Reach-IsConsistent r) (writer-counted n s.pc i lt w) st j h
