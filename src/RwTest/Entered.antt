-- ===== src/RwTest/Entered.antt =====
-- Where a thread of test1.c may wait inside the lock: in a round of its loop, in rdlock if it is a
-- reader, in wrlock if it is a writer.
use unpvol.Base.{
  ℕ, zero, suc, ◌+◌, ◌<◌, ◌≡◌, ◌≢◌, inl, inr, refl, arith, Bool, true, false, ltb, update, ap, ◌∙◌,
}
use unpvol.Rwlock.Defs.{
  Rwlock, Outcome, returned, waits_readers, waits_writers, exited, Wake, rdlock, rdlock_resume,
  wrlock, wrlock_resume,
}
use unpvol.Rwlock.System.{
  idle, reading, writing, sleep_read, woken_read, sleep_write, woken_write, gone, after_read,
  after_write, after_unlock, Woken, nobody, one, none_asleep, everyone,
}
use unpvol.Rwlock.System
use unpvol.Rwlock.Invariant.{Reach-IsConsistent, reading-counted, writing-counted}
use unpvol.Rwlock.Granted.{unlock-idle}
use unpvol.RwTest.Defs.{Pc, r_head, w_head, hold_of}
use unpvol.RwTest.Program.{
  Program, r_enters, w_enters, r_within, w_within, Step, read_calls, read_resumes, write_calls,
  write_resumes, read_wakes, write_wakes, reads, writes, read_unlocks, write_unlocks, Reach, start,
  later,
}
use unpvol.RwTest.Linked.{IsLinked}
use unpvol.RwTest.Checks.{Reach-IsLinked, shared-reading, exclusive-writing}

abbrev reads_on : ℕ → Pc → Bool
reads_on nloop (r_head k) = ltb k nloop
reads_on nloop _ = false

abbrev writes_on : ℕ → Pc → Bool
writes_on nloop (w_head k) = ltb k nloop
writes_on nloop _ = false

-- A thread at the second place may stand at the first in the lock.
abbrev pub agree : ℕ → System.Pc → Pc → Bool
agree nloop sleep_read p = reads_on nloop p
agree nloop woken_read p = reads_on nloop p
agree nloop sleep_write p = writes_on nloop p
agree nloop woken_write p = writes_on nloop p
agree nloop _ p = true

rdlock-not-writers : (rw : Rwlock) → (rdlock rw 0).outcome ≢ waits_writers
unfolding rdlock
rdlock-not-writers rw e = ground arith

rdlock_resume-not-writers : (rw : Rwlock) → (rdlock_resume rw 0).outcome ≢ waits_writers
unfolding rdlock_resume
rdlock_resume-not-writers rw e = ground arith

wrlock-not-readers : (rw : Rwlock) → (wrlock rw 0).outcome ≢ waits_readers
unfolding wrlock
wrlock-not-readers rw e = ground arith

wrlock_resume-not-readers : (rw : Rwlock) → (wrlock_resume rw 0).outcome ≢ waits_readers
unfolding wrlock_resume
wrlock_resume-not-readers rw e = ground arith

within-agree :
    (nloop : ℕ) (l : System.Pc) (p q : Pc)
    → r_within p ≡ true
    → agree nloop l p ≡ true
    → agree nloop l q ≡ true
within-agree nloop l p q e h = ground arith

w_within-agree :
    (nloop : ℕ) (l : System.Pc) (p q : Pc)
    → w_within p ≡ true
    → agree nloop l p ≡ true
    → agree nloop l q ≡ true
w_within-agree nloop l p q e h = ground arith

Woken-agree :
    {n : ℕ} {pc pc' : ℕ → System.Pc} {w : Wake} (nloop j : ℕ) (p : Pc)
    → Woken n pc w pc'
    → agree nloop (pc j) p ≡ true
    → agree nloop (pc' j) p ≡ true
Woken-agree nloop j p nobody h = h
Woken-agree nloop j p (one i lt e) h = ground arith
Woken-agree nloop j p (none_asleep f) h = h
Woken-agree nloop j p everyone h = ground arith

abbrev pub AllAgree : (nloop n : ℕ) → Program → Type 0
AllAgree nloop n s = (j : ℕ) → j < n → agree nloop (s.lock.pc j) (s.test.pc j) ≡ true

module _ (nloop n : ℕ) (s : Program) (h : AllAgree nloop n s) where
  read-agree :
      (i k : ℕ) (o : Outcome)
      → s.test.pc i ≡ r_head k
      → k < nloop
      → o ≢ waits_writers
      → (j : ℕ) → j < n
      → agree nloop (update s.lock.pc i (after_read o) j) ((r_enters s.test i k o).pc j) ≡ true
  read-agree i k (returned zero) e lt f j lj = ground (arith, h j lj)
  read-agree i k (returned (suc x)) e lt f j lj = ground (arith, h j lj)
  read-agree i k waits_readers e lt f j lj = ground (arith, h j lj)
  read-agree i k waits_writers e lt f j lj = absurd (f refl)
  read-agree i k exited e lt f j lj = ground (arith, h j lj)

  write-agree :
      (i k : ℕ) (o : Outcome)
      → s.test.pc i ≡ w_head k
      → k < nloop
      → o ≢ waits_readers
      → (j : ℕ) → j < n
      → agree nloop (update s.lock.pc i (after_write o) j) ((w_enters s.test i k o).pc j) ≡ true
  write-agree i k (returned zero) e lt f j lj = ground (arith, h j lj)
  write-agree i k (returned (suc x)) e lt f j lj = ground (arith, h j lj)
  write-agree i k waits_writers e lt f j lj = ground (arith, h j lj)
  write-agree i k waits_readers e lt f j lj = absurd (f refl)
  write-agree i k exited e lt f j lj = ground (arith, h j lj)

  unlock-agree :
      (i : ℕ) (q : Pc) {pc : ℕ → System.Pc} {w : Wake} {l : System.Pc}
      → l ≡ idle
      → Woken n (update s.lock.pc i l) w pc
      → (j : ℕ) → j < n
      → agree nloop (pc j) (update s.test.pc i q j) ≡ true
  unlock-agree i q e wk j lj =
      Woken-agree nloop j (update s.test.pc i q j) wk (ground (arith, h j lj))

Step-AllAgree :
    {nloop r w : ℕ} {s t : Program}
    → Step nloop (r + w) s t
    → IsLinked nloop r w s
    → AllAgree nloop (r + w) s
    → AllAgree nloop (r + w) t
Step-AllAgree {nloop} {r} {w} {s} (read_calls i k lt e lo f) g h =
    read-agree nloop (r + w) s h i k _ e lo (rdlock-not-writers s.lock.lock)
Step-AllAgree {nloop} {r} {w} {s} (read_resumes i k lt e lo f) g h =
    read-agree nloop (r + w) s h i k _ e lo (rdlock_resume-not-writers s.lock.lock)
Step-AllAgree {nloop} {r} {w} {s} (write_calls i k lt e lo f) g h =
    write-agree nloop (r + w) s h i k _ e lo (wrlock-not-readers s.lock.lock)
Step-AllAgree {nloop} {r} {w} {s} (write_resumes i k lt e lo f) g h =
    write-agree nloop (r + w) s h i k _ e lo (wrlock_resume-not-readers s.lock.lock)
Step-AllAgree (read_wakes i lt f) g h = λ j lj. ground (arith, h j lj)
Step-AllAgree (write_wakes i lt f) g h = λ j lj. ground (arith, h j lj)
Step-AllAgree {nloop} {s} (reads i lt e) g h =
    λ j lj. ground (arith, h j lj, within-agree nloop (s.lock.pc i) (s.test.pc i) _ e (h i lt))
Step-AllAgree {nloop} {s} (writes i lt e) g h =
    λ j lj. ground (arith, h j lj, w_within-agree nloop (s.lock.pc i) (s.test.pc i) _ e (h i lt))
Step-AllAgree {nloop} {r} {w} {s} (read_unlocks i k lt e wk) g h =
    let has = shared-reading _ (g.same i lt ∙ ap hold_of e) in
    unlock-agree nloop (r + w) s h i _
      (unlock-idle (Reach-IsConsistent g.locks) (inl (reading-counted (r + w) s.lock.pc i lt has)))
      wk
Step-AllAgree {nloop} {r} {w} {s} (write_unlocks i k lt e wk) g h =
    let has = exclusive-writing _ (g.same i lt ∙ ap hold_of e) in
    unlock-agree nloop (r + w) s h i _
      (unlock-idle (Reach-IsConsistent g.locks) (inr (writing-counted (r + w) s.lock.pc i lt has)))
      wk

pub Reach-AllAgree : {nloop r w : ℕ} {s : Program} → Reach nloop r w s → AllAgree nloop (r + w) s
Reach-AllAgree start = λ j lj. refl
Reach-AllAgree (later p st) = Step-AllAgree st (Reach-IsLinked p) (Reach-AllAgree p)
