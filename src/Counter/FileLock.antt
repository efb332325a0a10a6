-- ===== src/Counter/FileLock.antt =====
-- codes/9.Record_Locking/lockmain.c: processes that count the number in a file up under a record
-- lock. `sscanf` and `snprintf` with "%ld\n" are parameters: what a text reads as, and the text of a
-- number.
use unpvol.Base.{
  ℕ, zero, suc, ◌+◌, ◌-◌, ◌*◌, ◌≤◌, ◌≡◌, ◌⊎◌, refl, arith, Option, none, some, List, ◌++◌, length,
  take, drop, take-++, ◌∙◌, ap,
}
use unpvol.Counter.Loop.{Cell, System, Step, first, Reach}
use unpvol.Counter.Invariant.{above}
use unpvol.Counter.Result.{HaveReturned, rounds_add_up, loop_goes_on}

abbrev pub maxline : ℕ
maxline = 4096

-- The largest `long`.
abbrev pub long_max : ℕ
long_max = 9_223_372_036_854_775_807

abbrev pub nrounds : ℕ
nrounds = 20

-- `fcntl` with F_SETLKW and F_WRLCK on the whole file; the number is 1 while no process has the lock.
abbrev pub my_lock : ℕ → Option ℕ
my_lock zero = none
my_lock (suc v) = some v

pub my_lock_free : (v : ℕ) → my_lock (v + 1) ≡ some v
my_lock_free v = ground arith

-- `fcntl` with F_UNLCK
abbrev pub my_unlock : ℕ → ℕ
my_unlock v = v + 1

-- Rewind, read a line's worth, and scan it.
abbrev pub read_seqno : (List ℕ → ℕ) → List ℕ → ℕ
read_seqno scan file = scan (take maxline file)

-- Rewind and write the text: the file is not truncated, so what was longer stays behind it.
abbrev pub write_seqno : (ℕ → List ℕ) → ℕ → List ℕ → List ℕ
write_seqno print v file = print v ++ drop (length (print v)) file

module _ (scan : List ℕ → ℕ) (print : ℕ → List ℕ)
    (scan_print : (v : ℕ) (rest : List ℕ) → v ≤ long_max → scan (print v ++ rest) ≡ v)
    (print_fits : (v : ℕ) → v ≤ long_max → length (print v) ≤ maxline) where
  pub read_seqno-write_seqno :
      (v : ℕ) (file : List ℕ) → v ≤ long_max → read_seqno scan (write_seqno print v file) ≡ v
  read_seqno-write_seqno v file h =
      ap scan (take-++ maxline (print v) (drop (length (print v)) file) (print_fits v h))
      ∙ scan_print v (take (maxline - length (print v)) (drop (length (print v)) file)) h

  abbrev pub seqno : Cell
  seqno = record {
    Contents = List ℕ;
    load = read_seqno scan;
    store = write_seqno print;
    acquire = my_lock;
    release = my_unlock;
    top = long_max;
    load-store = read_seqno-write_seqno;
    acquire_held = refl;
    acquire_free = my_lock_free;
    releases = λ v. refl;
  }

  -- `main` of each process, before its first round, over a file.
  abbrev pub main : List ℕ → System seqno
  main file = first seqno 1 0 file

  -- Where scanning gives back a printed long whatever follows it, printed longs fit a line, and
  -- the number in the file and 20 * n more is a long:
  -- when in a reachable state all of `n` processes have returned, the number in the file is 20 * n
  -- more than it was, and the sequence numbers that they printed are the 20 * n numbers from the
  -- first one on, each printed once; in a reachable state in which not all have returned some
  -- process can go on.
  pub seqnos_are_unique :
      {n : ℕ} {file : List ℕ} {s : System seqno}
      → read_seqno scan file + n * nrounds ≤ long_max
      → Reach seqno nrounds n 1 0 file s
      → (HaveReturned seqno n s
          → (read_seqno scan s.mem.contents ≡ read_seqno scan file + n * nrounds)
            × (s.mem.found ≡ above (read_seqno scan file) (n * nrounds)))
        × (((t : System seqno) × Step seqno nrounds n s t) ⊎ HaveReturned seqno n s)
  seqnos_are_unique fits r = (rounds_add_up seqno refl fits r, loop_goes_on seqno refl fits r)
