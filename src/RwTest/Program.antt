-- ===== src/RwTest/Program.antt =====
-- The whole of test1.c: its threads call the operations of the read-write lock, wait inside them, and
-- between a lock and an unlock go through `reader` and `writer` of Defs.
use unpvol.Base.{ℕ, ◌+◌, ◌<◌, ◌≡◌, Bool, true, false, leb, update}
use unpvol.Rwlock.Defs.{Outcome, returned, rdlock, rdlock_resume, wrlock, wrlock_resume, unlock}
use unpvol.Rwlock.System.{
  idle, sleep_read, woken_read, sleep_write, woken_write, after_read, after_write, after_unlock,
  Woken, settle, start_state,
}
use unpvol.Rwlock.System
use unpvol.RwTest.Defs
use unpvol.RwTest.Defs.{
  Pc, r_head, r_locked, r_counted, r_tested, r_done, w_head, w_locked, w_counted, w_alone, w_tested,
  w_done, reader, writer,
}

-- The lock with the places of the threads in it, and the rest of the program.
pub record Program : Type 0 where
  pub lock : System.System
  pub test : Defs.System

-- A call of the lock that returns, with whatever result, lets the thread go on; else it waits inside.
abbrev pub r_enters : Defs.System → (i k : ℕ) → Outcome → Defs.System
r_enters s i k (returned e) = record s { pc = update s.pc i (r_locked k) }
r_enters s i k _ = s

abbrev pub w_enters : Defs.System → (i k : ℕ) → Outcome → Defs.System
w_enters s i k (returned e) = record s { pc = update s.pc i (w_locked k) }
w_enters s i k _ = s

-- Between the lock and the unlock.
abbrev pub r_within : Pc → Bool
r_within (r_locked k) = true
r_within (r_counted k) = true
r_within (r_tested k) = true
r_within _ = false

abbrev pub w_within : Pc → Bool
w_within (w_locked k) = true
w_within (w_counted k) = true
w_within (w_alone k) = true
w_within (w_tested k) = true
w_within _ = false

pub data Step (nloop n : ℕ) (s : Program) : Program → Type 0 where
  read_calls :
      (i k : ℕ)
      → i < n
      → s.test.pc i ≡ r_head k
      → k < nloop
      → s.lock.pc i ≡ idle
      → Step nloop n s (record {
        lock = settle s.lock i after_read (rdlock s.lock.lock 0);
        test = r_enters s.test i k (rdlock s.lock.lock 0).outcome;
      })
  read_resumes :
      (i k : ℕ)
      → i < n
      → s.test.pc i ≡ r_head k
      → k < nloop
      → s.lock.pc i ≡ woken_read
      → Step nloop n s (record {
        lock = settle s.lock i after_read (rdlock_resume s.lock.lock 0);
        test = r_enters s.test i k (rdlock_resume s.lock.lock 0).outcome;
      })
  write_calls :
      (i k : ℕ)
      → i < n
      → s.test.pc i ≡ w_head k
      → k < nloop
      → s.lock.pc i ≡ idle
      → Step nloop n s (record {
        lock = settle s.lock i after_write (wrlock s.lock.lock 0);
        test = w_enters s.test i k (wrlock s.lock.lock 0).outcome;
      })
  write_resumes :
      (i k : ℕ)
      → i < n
      → s.test.pc i ≡ w_head k
      → k < nloop
      → s.lock.pc i ≡ woken_write
      → Step nloop n s (record {
        lock = settle s.lock i after_write (wrlock_resume s.lock.lock 0);
        test = w_enters s.test i k (wrlock_resume s.lock.lock 0).outcome;
      })
  read_wakes :
      (i : ℕ)
      → i < n
      → s.lock.pc i ≡ sleep_read
      → Step nloop n s (record s { lock = record s.lock { pc = update s.lock.pc i woken_read } })
  write_wakes :
      (i : ℕ)
      → i < n
      → s.lock.pc i ≡ sleep_write
      → Step nloop n s (record s { lock = record s.lock { pc = update s.lock.pc i woken_write } })
  reads :
      (i : ℕ)
      → i < n
      → r_within (s.test.pc i) ≡ true
      → Step nloop n s (record s {
        test = record {
          mem = (reader s.test.mem (s.test.pc i)).mem;
          pc = update s.test.pc i (reader s.test.mem (s.test.pc i)).pc;
        };
      })
  writes :
      (i : ℕ)
      → i < n
      → w_within (s.test.pc i) ≡ true
      → Step nloop n s (record s {
        test = record {
          mem = (writer s.test.mem (s.test.pc i)).mem;
          pc = update s.test.pc i (writer s.test.mem (s.test.pc i)).pc;
        };
      })
  read_unlocks :
      (i k : ℕ) {pc : ℕ → System.Pc}
      → i < n
      → s.test.pc i ≡ r_done k
      → Woken n
          (update s.lock.pc i (after_unlock (unlock s.lock.lock 0 0 0).outcome))
          (unlock s.lock.lock 0 0 0).wake
          pc
      → Step nloop n s (record {
        lock = record { lock = (unlock s.lock.lock 0 0 0).lock; pc = pc };
        test = record s.test { pc = update s.test.pc i (r_head (k + 1)) };
      })
  write_unlocks :
      (i k : ℕ) {pc : ℕ → System.Pc}
      → i < n
      → s.test.pc i ≡ w_done k
      → Woken n
          (update s.lock.pc i (after_unlock (unlock s.lock.lock 0 0 0).outcome))
          (unlock s.lock.lock 0 0 0).wake
          pc
      → Step nloop n s (record {
        lock = record { lock = (unlock s.lock.lock 0 0 0).lock; pc = pc };
        test = record s.test { pc = update s.test.pc i (w_head (k + 1)) };
      })

-- `main` after it has made the threads.
abbrev pub begun : (nreaders nwriters : ℕ) → Program
begun nreaders nwriters = record { lock = start_state; test = Defs.main nreaders nwriters }

pub data Reach (nloop nreaders nwriters : ℕ) : Program → Type 0 where
  start : Reach nloop nreaders nwriters (begun nreaders nwriters)
  later :
      {s t : Program}
      → Reach nloop nreaders nwriters s
      → Step nloop (nreaders + nwriters) s t
      → Reach nloop nreaders nwriters t

-- Whether a step is one of the code and not a return of `pthread_cond_wait` without a signal.
abbrev pub is_own : {nloop n : ℕ} {s t : Program} → Step nloop n s t → Bool
is_own (read_wakes i lt e) = false
is_own (write_wakes i lt e) = false
is_own _ = true

-- Whether a thread has returned from `reader` or `writer`.
abbrev pub has_returned : ℕ → Pc → Bool
has_returned nloop (r_head k) = leb nloop k
has_returned nloop (w_head k) = leb nloop k
has_returned nloop _ = false
