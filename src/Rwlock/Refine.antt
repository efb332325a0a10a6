-- ===== src/Rwlock/Refine.antt =====
-- The threads over one lock implement the abstract read-write lock: readers share, a writer has
-- the lock alone; and no reader gets in ahead of a writer that waits.
use unpvol.Base.{ℕ, ◌<◌, ◌≡◌, ◌≢◌, inl, inr, refl, arith, Bool, le-total, update}
use unpvol.Rwlock.Defs.{Wake}
use unpvol.Rwlock.System.{
  Pc, idle, sleep_read, woken_read, sleep_write, woken_write, reading, writing, gone, System, Woken,
  nobody, one, none_asleep, everyone, Step, call_rdlock, call_wrlock, call_tryrdlock,
  call_trywrlock, spurious_read, spurious_write, resume_read, resume_write, call_unlock, Reach,
}
use unpvol.Rwlock.Counts.{tally, is_reading, is_writing}
use unpvol.Rwlock.Granted.{
  rdlock-granted, tryrdlock-granted, rdlock_resume-granted, wrlock-granted, trywrlock-granted,
  wrlock_resume-granted, rdlock-not-writing, tryrdlock-not-writing, rdlock_resume-not-writing,
  wrlock-not-reading, trywrlock-not-reading, wrlock_resume-not-reading, unlock-idle,
}
use unpvol.Rwlock.Invariant.{
  SystemIsConsistent, Reach-IsConsistent, reading-counted, writing-counted,
}

-- What a thread has of the lock.
pub data Hold : Type 0 where
  free shared exclusive : Hold

abbrev pub hold_of : Pc → Hold
hold_of reading = shared
hold_of writing = exclusive
hold_of _ = free

-- The abstract lock: what each of `n` threads has, before and after.
pub data AbsStep (n : ℕ) (h h' : ℕ → Hold) : Type 0 where
  stay : ((j : ℕ) → h' j ≡ h j) → AbsStep n h h'
  take_shared :
      (i : ℕ)
      → i < n
      → h i ≡ free
      → ((j : ℕ) → j < n → h j ≢ exclusive)
      → ((j : ℕ) → h' j ≡ update h i shared j)
      → AbsStep n h h'
  take_exclusive :
      (i : ℕ)
      → i < n
      → ((j : ℕ) → j < n → h j ≡ free)
      → ((j : ℕ) → h' j ≡ update h i exclusive j)
      → AbsStep n h h'
  give_back : (i : ℕ) → i < n → h i ≢ free → ((j : ℕ) → h' j ≡ update h i free j) → AbsStep n h h'

module _ (n : ℕ) (pc : ℕ → Pc) where
  pub no_writer : (tally n pc).writers ≡ 0 → (j : ℕ) → j < n → hold_of (pc j) ≢ exclusive
  unfolding tally
  no_writer z j lt e = ground (arith, le-total is_writing n pc j lt)

  pub no_holder :
      (tally n pc).writers ≡ 0 → (tally n pc).readers ≡ 0 → (j : ℕ) → j < n → hold_of (pc j) ≡ free
  unfolding tally
  no_holder zw zr j lt =
      ground (arith, le-total is_writing n pc j lt, le-total is_reading n pc j lt)

  -- A thread that holds nothing goes to `q`, to `reading` only where no thread writes and to
  -- `writing` only where none holds the lock.
  goes_to :
      (i : ℕ) (q : Pc)
      → i < n
      → hold_of (pc i) ≡ free
      → (q ≡ reading → (tally n pc).writers ≡ 0)
      → (q ≡ writing → ((tally n pc).writers ≡ 0) × ((tally n pc).readers ≡ 0))
      → AbsStep n (λ j. hold_of (pc j)) (λ j. hold_of (update pc i q j))
  goes_to i reading lt f hr hw = take_shared i lt f (no_writer (hr refl)) (λ j. ground arith)
  goes_to i writing lt f hr hw =
      take_exclusive i lt (no_holder (hw refl).0 (hw refl).1) (λ j. ground arith)
  goes_to i idle lt f hr hw = stay (λ j. ground arith)
  goes_to i sleep_read lt f hr hw = stay (λ j. ground arith)
  goes_to i woken_read lt f hr hw = stay (λ j. ground arith)
  goes_to i sleep_write lt f hr hw = stay (λ j. ground arith)
  goes_to i woken_write lt f hr hw = stay (λ j. ground arith)
  goes_to i gone lt f hr hw = stay (λ j. ground arith)

-- Waking threads changes what none of them holds.
pub hold_of-Woken :
    {n : ℕ} {pc pc' : ℕ → Pc} {w : Wake}
    → Woken n pc w pc'
    → (j : ℕ) → hold_of (pc' j) ≡ hold_of (pc j)
hold_of-Woken nobody k = refl
hold_of-Woken (one j lt e) k = ground arith
hold_of-Woken (none_asleep h) k = refl
hold_of-Woken everyone k = ground arith

holding : {p q : Pc} → p ≡ q → hold_of q ≡ free → hold_of p ≡ free
holding e f = rw e f

-- An unlock gives back what the thread had, whoever is woken.
gives_back :
    {n : ℕ} (pc : ℕ → Pc) {pc' : ℕ → Pc} {w : Wake} (i : ℕ) {q : Pc}
    → i < n
    → hold_of (pc i) ≢ free
    → q ≡ idle
    → Woken n (update pc i q) w pc'
    → AbsStep n (λ j. hold_of (pc j)) (λ j. hold_of (pc' j))
gives_back pc i lt ne e w = give_back i lt ne (λ j. ground (arith, hold_of-Woken w j))

Step-AbsStep :
    {may_fail : Bool} {n : ℕ} {s t : System}
    → SystemIsConsistent n s
    → Step may_fail n s t
    → AbsStep n (λ j. hold_of (s.pc j)) (λ j. hold_of (t.pc j))
Step-AbsStep {n} {s} inv (call_rdlock i lt e) =
    goes_to n s.pc i _ lt (holding e refl) (rdlock-granted inv)
      (λ f. absurd (rdlock-not-writing s.lock f))
Step-AbsStep {n} {s} inv (call_tryrdlock i lt e) =
    goes_to n s.pc i _ lt (holding e refl) (tryrdlock-granted inv)
      (λ f. absurd (tryrdlock-not-writing s.lock f))
Step-AbsStep {n} {s} inv (call_wrlock i lt e) =
    goes_to n s.pc i _ lt (holding e refl) (λ f. absurd (wrlock-not-reading s.lock f))
      (wrlock-granted inv)
Step-AbsStep {n} {s} inv (call_trywrlock i lt e) =
    goes_to n s.pc i _ lt (holding e refl) (λ f. absurd (trywrlock-not-reading s.lock f))
      (trywrlock-granted inv)
Step-AbsStep {n} {s} inv (spurious_read i lt e) =
    goes_to n s.pc i _ lt (holding e refl) (λ f. cc) (λ f. cc)
Step-AbsStep {n} {s} inv (spurious_write i lt e) =
    goes_to n s.pc i _ lt (holding e refl) (λ f. cc) (λ f. cc)
Step-AbsStep {n} {s} inv (resume_read i r lt e g) =
    goes_to n s.pc i _ lt (holding e refl) (rdlock_resume-granted inv r)
      (λ f. absurd (rdlock_resume-not-writing s.lock r f))
Step-AbsStep {n} {s} inv (resume_write i r lt e g) =
    goes_to n s.pc i _ lt (holding e refl) (λ f. absurd (wrlock_resume-not-reading s.lock r f))
      (wrlock_resume-granted inv r)
Step-AbsStep {n} {s} inv (call_unlock i lt (inl e) w) =
    gives_back s.pc i lt (λ f. ground arith) (unlock-idle inv (inl (reading-counted n s.pc i lt e)))
      w
Step-AbsStep {n} {s} inv (call_unlock i lt (inr e) w) =
    gives_back s.pc i lt (λ f. ground arith) (unlock-idle inv (inr (writing-counted n s.pc i lt e)))
      w

-- From a reachable state every step of the threads is a step of the abstract read-write lock, in
-- which a reader is let in only while no thread writes, a writer only while no thread has the
-- lock, and an unlock gives back what its caller had; all other steps change no holder.
pub rwlock_refines :
    {may_fail : Bool} {n : ℕ} {s t : System}
    → Reach may_fail n s
    → Step may_fail n s t
    → AbsStep n (λ j. hold_of (s.pc j)) (λ j. hold_of (t.pc j))
rwlock_refines r st = Step-AbsStep (Reach-IsConsistent r) st
