-- ===== src/RwTest/Tests.antt =====
-- A run of the test program, and the theorem at it.
use unpvol.Base.{true, ◌≡◌, ◌≢◌, refl, arith}
use unpvol.Rwlock.Defs.{rdlock, wrlock, unlock}
use unpvol.Rwlock.System.{one}
use unpvol.Rwlock.Refine
use unpvol.RwTest.Defs.{reader, failed, hold_of}
use unpvol.RwTest.Program.{
  Program, Step, is_own, read_calls, read_unlocks, write_calls, write_resumes, reads, Reach, start,
  later,
}
use unpvol.RwTest.Checks.{checks_hold}
use unpvol.RwTest.Progress.{test_keeps_going}

-- One reader and one writer, one round each: the reader has the lock, the writer waits for it in the
-- lock, the reader goes through its checks and unlocks, and the writer is woken and gets the lock.
abbrev writer_in : (s : Program) × Reach 1 1 1 s
unfolding reader rdlock wrlock unlock
writer_in = (
  _,
  later
      (later
        (later
          (later
            (later
              (later (later start (read_calls 0 0 (omega arith) refl (omega arith) refl))
                (write_calls 1 0 (omega arith) refl (omega arith) refl))
              (reads 0 (omega arith) refl))
            (reads 0 (omega arith) refl))
          (reads 0 (omega arith) refl))
        (read_unlocks 0 0 (omega arith) refl (one 1 (omega arith) refl)))
      (write_resumes 1 0 (omega arith) refl (omega arith) refl),
)

checks_hold_example :
    (writer_in.0.test.pc 1 ≢ failed)
    × (Refine.hold_of (writer_in.0.lock.pc 1) ≡ hold_of (writer_in.0.test.pc 1))
checks_hold_example = checks_hold writer_in.1 1 (omega arith)

-- The reader has the lock and the writer sleeps in it.
abbrev writer_asleep : (s : Program) × Reach 1 1 1 s
unfolding rdlock wrlock
writer_asleep = (
  _,
  later (later start (read_calls 0 0 (omega arith) refl (omega arith) refl))
      (write_calls 1 0 (omega arith) refl (omega arith) refl),
)

test_keeps_going_example : (t : Program) × ((st : Step 1 2 writer_asleep.0 t) × (is_own st ≡ true))
unfolding writer_asleep
test_keeps_going_example = test_keeps_going writer_asleep.1 1 (omega arith) refl
