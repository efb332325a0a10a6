-- ===== src/RwTest/Safety.antt =====
-- The checks of the test program never fail over a lock that lets nobody in beside a writer.
use unpvol.Base.{ℕ, ◌+◌, ◌<◌, ◌≢◌, arith, le-total}
use unpvol.RwTest.Defs.{failed, System, Reach}
use unpvol.RwTest.Counts.{tally, has_failed, Reach-IsSound}

-- In no reachable state has a thread of the program met one of its `exit(-1)`: a reader with the
-- lock sees no writer, and a writer with the lock sees no other writer and no reader.
pub checks_never_fail :
    {nloop nreaders nwriters : ℕ} {s : System}
    → Reach nloop nreaders nwriters s
    → (i : ℕ) → i < nreaders + nwriters
    → s.pc i ≢ failed
unfolding tally
checks_never_fail {s} r i lt e = ground (arith, Reach-IsSound r, le-total has_failed _ s.pc i lt)
