-- ===== src/RwTest/Checks.antt =====
-- The checks of test1.c, over the operations of the lock.
use unpvol.Base.{ℕ, ◌+◌, ◌<◌, ◌≡◌, ◌≢◌, ◌⊎◌, inl, inr, refl, arith, true, false, update, ◌∙◌, ap}
use unpvol.Rwlock.Defs.{unlock}
use unpvol.Rwlock.System.{
  idle, reading, writing, sleep_read, woken_read, sleep_write, woken_write, after_unlock, Woken,
  call_rdlock, call_wrlock, resume_read, resume_write, spurious_read, spurious_write, call_unlock,
}
use unpvol.Rwlock.System
use unpvol.Rwlock.Invariant.{Reach-IsConsistent, reading-counted, writing-counted}
use unpvol.Rwlock.Granted.{
  rdlock-granted, rdlock_resume-granted, wrlock-granted, wrlock_resume-granted, unlock-idle,
}
use unpvol.Rwlock.Refine
use unpvol.Rwlock.Refine.{free, shared, exclusive, hold_of-Woken}
use unpvol.RwTest.Defs
use unpvol.RwTest.Defs.{
  Shared, Pc, r_head, r_locked, r_counted, r_tested, r_done, w_head, w_locked, w_counted, w_alone,
  w_tested, w_done, failed, reader, writer, is_reader, is_writer, CanRead, CanWrite, hold_of,
}
use unpvol.RwTest.Safety.{checks_never_fail}
use unpvol.RwTest.Program.{
  Program, r_within, w_within, Step, read_calls, read_resumes, write_calls, write_resumes,
  read_wakes, write_wakes, reads, writes, read_unlocks, write_unlocks, Reach, start, later,
}
use unpvol.RwTest.Linked.{
  IsLinked, reads_at, writes_at, read-IsLinked, write-IsLinked, rdlock-fine, wrlock-fine,
  rdlock_resume-fine, wrlock_resume-fine,
}

r_within-is_reader : (p : Pc) → r_within p ≡ true → is_reader p ≡ true
r_within-is_reader p e = ground arith

w_within-is_writer : (p : Pc) → w_within p ≡ true → is_writer p ≡ true
w_within-is_writer p e = ground arith

r_within-CanRead : (nloop n : ℕ) (pc : ℕ → Pc) (p : Pc) → r_within p ≡ true → CanRead nloop n pc p
r_within-CanRead nloop n pc p e = ground arith

w_within-CanWrite : (nloop n : ℕ) (pc : ℕ → Pc) (p : Pc) → w_within p ≡ true → CanWrite nloop n pc p
w_within-CanWrite nloop n pc p e = ground arith

-- A thread inside the lock that does not fail stays inside.
reader-inside :
    (m : Shared) (p : Pc)
    → r_within p ≡ true
    → (reader m p).pc ≢ failed
    → hold_of p ≡ hold_of (reader m p).pc
unfolding reader
reader-inside m p e h = ground arith

writer-inside :
    (m : Shared) (p : Pc)
    → w_within p ≡ true
    → (writer m p).pc ≢ failed
    → hold_of p ≡ hold_of (writer m p).pc
unfolding writer
writer-inside m p e h = ground arith

pub shared-reading : (p : System.Pc) → Refine.hold_of p ≡ shared → p ≡ reading
shared-reading p e = ground arith

pub exclusive-writing : (p : System.Pc) → Refine.hold_of p ≡ exclusive → p ≡ writing
exclusive-writing p e = ground arith

module _ {nloop r w : ℕ} {s : Program} (g : IsLinked nloop r w s) where
  -- The lock takes a step that gives no thread more or less of it.
  lock-IsLinked :
      {l : System.System}
      → System.Step false (r + w) s.lock l
      → ((j : ℕ) → j < r + w → Refine.hold_of (l.pc j) ≡ Refine.hold_of (s.lock.pc j))
      → IsLinked nloop r w (record s { lock = l })
  lock-IsLinked st h = record {
    locks = System.later g.locks st;
    tests = g.tests;
    same = λ j lj. h j lj ∙ g.same j lj;
  }

  -- A thread takes a step inside the lock.
  test-IsLinked :
      (i : ℕ) {m : Shared} {q : Pc}
      → i < r + w
      → Defs.Reach nloop r w (record { mem = m; pc = update s.test.pc i q })
      → (q ≢ failed → hold_of (s.test.pc i) ≡ hold_of q)
      → IsLinked nloop r w (record s { test = record { mem = m; pc = update s.test.pc i q } })
  test-IsLinked i lt p h = record {
    locks = g.locks;
    tests = p;
    same =
        λ j lj. ground (arith, g.same j lj, h (λ x. checks_never_fail p i lt (ground (arith, x))));
  }

  unlock-IsLinked :
      (i : ℕ) (q : Pc) {pc : ℕ → System.Pc}
      → i < r + w
      → hold_of q ≡ free
      → (s.lock.pc i ≡ reading) ⊎ (s.lock.pc i ≡ writing)
      → after_unlock (unlock s.lock.lock 0 0 0).outcome ≡ idle
      → Defs.Reach nloop r w (record s.test { pc = update s.test.pc i q })
      → Woken
          (r + w)
          (update s.lock.pc i (after_unlock (unlock s.lock.lock 0 0 0).outcome))
          (unlock s.lock.lock 0 0 0).wake
          pc
      → IsLinked nloop r w (record {
        lock = record { lock = (unlock s.lock.lock 0 0 0).lock; pc = pc };
        test = record s.test { pc = update s.test.pc i q };
      })
  unlock-IsLinked i q lt f has e p wk = record {
    locks = System.later g.locks (call_unlock i lt has wk);
    tests = p;
    same = λ j lj. ground (arith, g.same j lj, hold_of-Woken wk j);
  }

Step-IsLinked :
    {nloop r w : ℕ} {s t : Program}
    → Step nloop (r + w) s t
    → IsLinked nloop r w s
    → IsLinked nloop r w t
unfolding reader writer
Step-IsLinked (read_calls i k lt e lo f) g =
    let inv = Reach-IsConsistent g.locks in
    read-IsLinked g i k _ _ lt e lo (call_rdlock i lt f) (rdlock-granted inv) (rdlock-fine inv)
Step-IsLinked {s} (read_resumes i k lt e lo f) g =
    read-IsLinked g i k _ _ lt e lo (resume_read i 0 lt f (λ ne. absurd (ne refl)))
      (rdlock_resume-granted (Reach-IsConsistent g.locks) 0) (rdlock_resume-fine s.lock.lock)
Step-IsLinked (write_calls i k lt e lo f) g =
    let inv = Reach-IsConsistent g.locks in
    write-IsLinked g i k _ _ lt e lo (call_wrlock i lt f) (wrlock-granted inv) (wrlock-fine inv)
Step-IsLinked {s} (write_resumes i k lt e lo f) g =
    write-IsLinked g i k _ _ lt e lo (resume_write i 0 lt f (λ ne. absurd (ne refl)))
      (wrlock_resume-granted (Reach-IsConsistent g.locks) 0) (wrlock_resume-fine s.lock.lock)
Step-IsLinked (read_wakes i lt f) g = lock-IsLinked g (spurious_read i lt f) (λ j lj. ground arith)
Step-IsLinked (write_wakes i lt f) g =
    lock-IsLinked g (spurious_write i lt f) (λ j lj. ground arith)
Step-IsLinked {nloop} {r} {w} {s} (reads i lt e) g =
    test-IsLinked g i lt
      (reads_at g i _ lt refl (r_within-is_reader _ e)
        (r_within-CanRead nloop (r + w) s.test.pc _ e))
      (reader-inside s.test.mem _ e)
Step-IsLinked {nloop} {r} {w} {s} (writes i lt e) g =
    test-IsLinked g i lt
      (writes_at g i _ lt refl (w_within-is_writer _ e)
        (w_within-CanWrite nloop (r + w) s.test.pc _ e))
      (writer-inside s.test.mem _ e)
Step-IsLinked {r} {w} {s} (read_unlocks i k lt e wk) g =
    let has = shared-reading _ (g.same i lt ∙ ap hold_of e) in
    unlock-IsLinked g i _ lt refl (inl has)
      (unlock-idle (Reach-IsConsistent g.locks) (inl (reading-counted (r + w) s.lock.pc i lt has)))
      (reads_at g i (r_done k) lt e refl tt) wk
Step-IsLinked {r} {w} {s} (write_unlocks i k lt e wk) g =
    let has = exclusive-writing _ (g.same i lt ∙ ap hold_of e) in
    unlock-IsLinked g i _ lt refl (inr has)
      (unlock-idle (Reach-IsConsistent g.locks) (inr (writing-counted (r + w) s.lock.pc i lt has)))
      (writes_at g i (w_done k) lt e refl tt) wk

begun-same : (r w j : ℕ) → free ≡ hold_of ((Defs.main r w).pc j)
begun-same r w j = ground arith

pub Reach-IsLinked : {nloop r w : ℕ} {s : Program} → Reach nloop r w s → IsLinked nloop r w s
Reach-IsLinked {r} {w} start = record {
  locks = System.start;
  tests = Defs.start;
  same = λ j lj. begun-same r w j;
}
Reach-IsLinked (later p st) = Step-IsLinked st (Reach-IsLinked p)

-- In every reachable state of the program over the operations of the lock, no thread has met one of
-- its `exit(-1)`: a reader inside sees no writer, and a writer inside sees no other writer and no
-- reader. And in the lock a thread stands where its own place says: with a read lock, with the
-- write lock, or with neither.
pub checks_hold :
    {nloop r w : ℕ} {s : Program}
    → Reach nloop r w s
    → (i : ℕ) → i < r + w
    → (s.test.pc i ≢ failed) × (Refine.hold_of (s.lock.pc i) ≡ hold_of (s.test.pc i))
checks_hold p i lt = let g = Reach-IsLinked p in (checks_never_fail g.tests i lt, g.same i lt)
