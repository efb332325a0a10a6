-- ===== src/RwTest/Linked.antt =====
-- What the threads of test1.c have of the lock beside what their places in `reader` and `writer` say.
use unpvol.Base.{
  ℕ, zero, suc, ◌+◌, ◌<◌, ◌≡◌, ◌≢◌, refl, arith, true, false, update, subst, sym, ◌∙◌, ap,
}
use unpvol.Rwlock.Defs.{
  Rwlock, Outcome, returned, waits_readers, waits_writers, exited, rdlock, rdlock_resume, wrlock,
  wrlock_resume,
}
use unpvol.Rwlock.System.{
  idle, reading, writing, sleep_read, woken_read, sleep_write, woken_write, after_read, after_write,
  after_unlock, Woken, settle, call_rdlock, call_wrlock, resume_read, resume_write, spurious_read,
  spurious_write, call_unlock,
}
use unpvol.Rwlock.System
use unpvol.Rwlock.Counts
use unpvol.Rwlock.Invariant.{IsConsistent}
use unpvol.Rwlock.Refine
use unpvol.Rwlock.Refine.{free, shared, exclusive, no_writer, no_holder, hold_of-Woken}
use unpvol.RwTest.Defs
use unpvol.RwTest.Defs.{
  Pc, r_head, r_locked, r_counted, r_tested, r_done, w_head, w_locked, w_counted, w_alone, w_tested,
  w_done, failed, reader, writer, is_reader, is_writer, CanRead, CanWrite, hold_of,
}
use unpvol.RwTest.Program.{Program, r_enters, w_enters}

-- No operation returns an error.
module _ {rw : Rwlock} {a : Counts.Tally} (inv : IsConsistent rw a) where
  pub rdlock-fine : (e : ℕ) → (rdlock rw 0).outcome ≢ returned (suc e)
  unfolding rdlock
  rdlock-fine e q = ground (arith, inv.ready)

  pub wrlock-fine : (e : ℕ) → (wrlock rw 0).outcome ≢ returned (suc e)
  unfolding wrlock
  wrlock-fine e q = ground (arith, inv.ready)

pub rdlock_resume-fine : (rw : Rwlock) (e : ℕ) → (rdlock_resume rw 0).outcome ≢ returned (suc e)
unfolding rdlock_resume
rdlock_resume-fine rw e q = ground arith

pub wrlock_resume-fine : (rw : Rwlock) (e : ℕ) → (wrlock_resume rw 0).outcome ≢ returned (suc e)
unfolding wrlock_resume
wrlock_resume-fine rw e q = ground arith

-- The threads have of the lock what the test program takes them to have.
pub record IsLinked (nloop r w : ℕ) (s : Program) : Type 0 where
  pub locks : System.Reach false (r + w) s.lock
  pub tests : Defs.Reach nloop r w s.test
  pub same : (j : ℕ) → j < r + w → Refine.hold_of (s.lock.pc j) ≡ hold_of (s.test.pc j)

module _ {nloop r w : ℕ} {s : Program} (g : IsLinked nloop r w s) where
  -- A step of `reader` or `writer` at a place that is known.
  pub reads_at :
      (i : ℕ) (p : Pc)
      → i < r + w
      → s.test.pc i ≡ p
      → is_reader p ≡ true
      → CanRead nloop (r + w) s.test.pc p
      → Defs.Reach nloop r w (record {
        mem = (reader s.test.mem p).mem;
        pc = update s.test.pc i (reader s.test.mem p).pc;
      })
  reads_at i p lt e h c =
      subst
        (λ q. Defs.Reach nloop r w (record {
          mem = (reader s.test.mem q).mem;
          pc = update s.test.pc i (reader s.test.mem q).pc;
        }))
        e
        (Defs.later g.tests (
          Defs.reads i lt (ap is_reader e ∙ h) (subst (CanRead nloop (r + w) s.test.pc) (sym e) c)))

  pub writes_at :
      (i : ℕ) (p : Pc)
      → i < r + w
      → s.test.pc i ≡ p
      → is_writer p ≡ true
      → CanWrite nloop (r + w) s.test.pc p
      → Defs.Reach nloop r w (record {
        mem = (writer s.test.mem p).mem;
        pc = update s.test.pc i (writer s.test.mem p).pc;
      })
  writes_at i p lt e h c =
      subst
        (λ q. Defs.Reach nloop r w (record {
          mem = (writer s.test.mem q).mem;
          pc = update s.test.pc i (writer s.test.mem q).pc;
        }))
        e
        (Defs.later g.tests (
          Defs.writes i lt (ap is_writer e ∙ h)
            (subst (CanWrite nloop (r + w) s.test.pc) (sym e) c)))

  -- A call of rdlock, or a resumption, that leaves the lock `l` and has the outcome `o`.
  pub read-IsLinked :
      (i k : ℕ) (l : Rwlock) (o : Outcome)
      → i < r + w
      → s.test.pc i ≡ r_head k
      → k < nloop
      → System.Step false
          (r + w)
          s.lock
          (record { lock = l; pc = update s.lock.pc i (after_read o) })
      → (after_read o ≡ reading → (Counts.tally (r + w) s.lock.pc).writers ≡ 0)
      → ((e : ℕ) → o ≢ returned (suc e))
      → IsLinked nloop r w (record {
        lock = record { lock = l; pc = update s.lock.pc i (after_read o) };
        test = r_enters s.test i k o;
      })
  unfolding reader
  read-IsLinked i k l (returned zero) lt e lo st granted fine = record {
    locks = System.later g.locks st;
    tests =
        reads_at i (r_head k) lt e refl
          (lo, λ j lj x. no_writer (r + w) s.lock.pc (granted refl) j lj (g.same j lj ∙ x));
    same = λ j lj. ground (arith, g.same j lj);
  }
  read-IsLinked i k l (returned (suc x)) lt e lo st granted fine = absurd (fine x refl)
  read-IsLinked i k l waits_readers lt e lo st granted fine = record {
    locks = System.later g.locks st;
    tests = g.tests;
    same = λ j lj. ground (arith, g.same j lj);
  }
  read-IsLinked i k l waits_writers lt e lo st granted fine = record {
    locks = System.later g.locks st;
    tests = g.tests;
    same = λ j lj. ground (arith, g.same j lj);
  }
  read-IsLinked i k l exited lt e lo st granted fine = record {
    locks = System.later g.locks st;
    tests = g.tests;
    same = λ j lj. ground (arith, g.same j lj);
  }

  -- A call of wrlock, or a resumption.
  pub write-IsLinked :
      (i k : ℕ) (l : Rwlock) (o : Outcome)
      → i < r + w
      → s.test.pc i ≡ w_head k
      → k < nloop
      → System.Step false
          (r + w)
          s.lock
          (record { lock = l; pc = update s.lock.pc i (after_write o) })
      → (after_write o ≡ writing
          → ((Counts.tally (r + w) s.lock.pc).writers ≡ 0)
            × ((Counts.tally (r + w) s.lock.pc).readers ≡ 0))
      → ((e : ℕ) → o ≢ returned (suc e))
      → IsLinked nloop r w (record {
        lock = record { lock = l; pc = update s.lock.pc i (after_write o) };
        test = w_enters s.test i k o;
      })
  unfolding writer
  write-IsLinked i k l (returned zero) lt e lo st granted fine = record {
    locks = System.later g.locks st;
    tests = writes_at i (w_head k) lt e refl (
      lo,
      λ j lj.
          sym (g.same j lj) ∙ no_holder (r + w) s.lock.pc (granted refl).0 (granted refl).1 j lj,
    );
    same = λ j lj. ground (arith, g.same j lj);
  }
  write-IsLinked i k l (returned (suc x)) lt e lo st granted fine = absurd (fine x refl)
  write-IsLinked i k l waits_readers lt e lo st granted fine = record {
    locks = System.later g.locks st;
    tests = g.tests;
    same = λ j lj. ground (arith, g.same j lj);
  }
  write-IsLinked i k l waits_writers lt e lo st granted fine = record {
    locks = System.later g.locks st;
    tests = g.tests;
    same = λ j lj. ground (arith, g.same j lj);
  }
  write-IsLinked i k l exited lt e lo st granted fine = record {
    locks = System.later g.locks st;
    tests = g.tests;
    same = λ j lj. ground (arith, g.same j lj);
  }
