-- ===== src/RwTest/Progress.antt =====
-- Which thread of test1.c can go on.
use unpvol.Base.{
  ℕ, ◌+◌, ◌<◌, ◌≡◌, ◌≢◌, ◌⊎◌, inl, inr, refl, arith, true, false, pos, ap, ◌∙◌, sym, total-pos,
  le-total, dec_lt, total,
}
use unpvol.Rwlock.Defs.{Rwlock, Wake, no_wake, signal_writer, broadcast_readers}
use unpvol.Rwlock.System.{
  idle, reading, writing, sleep_read, woken_read, sleep_write, woken_write, gone, after_unlock,
  Woken, nobody, one, none_asleep, everyone,
}
use unpvol.Rwlock.System
use unpvol.Rwlock.Counts.{tally, is_reading, is_writing, asleep_write, is_gone}
use unpvol.Rwlock.Invariant.{IsConsistent, Reach-IsConsistent}
use unpvol.Rwlock.Safety.{no_lost_wakeup}
use unpvol.Rwlock.Refine
use unpvol.Rwlock.Refine.{free, shared, exclusive}
use unpvol.RwTest.Defs.{
  Pc, r_head, r_locked, r_counted, r_tested, r_done, w_head, w_done, failed, hold_of,
}
use unpvol.RwTest.Program.{
  Program, Step, read_calls, read_resumes, write_calls, write_resumes, reads, writes, read_unlocks,
  write_unlocks, Reach, is_own, has_returned,
}
use unpvol.RwTest.Checks.{Reach-IsLinked, checks_hold}
use unpvol.RwTest.Entered.{agree, Reach-AllAgree}

-- Whatever a call of the system does to the threads, there is a state after it.
some-Woken : (n : ℕ) (pc : ℕ → System.Pc) (w : Wake) → (pc' : ℕ → System.Pc) × Woken n pc w pc'
some-Woken n pc no_wake = (_, nobody)
some-Woken n pc broadcast_readers = (_, everyone)
some-Woken n pc signal_writer = elim (dec_lt 0 (total asleep_write n pc)) [
  | yes q ↦ let (j, lj, h) = total-pos asleep_write n pc q in (_, one j lj (ground arith))
  | no q ↦ (_, none_asleep (λ j lj e. ground (arith, le-total asleep_write n pc j lj)))
]

abbrev Goes : (nloop n : ℕ) → Program → Type 0
Goes nloop n s = (t : Program) × ((st : Step nloop n s t) × (is_own st ≡ true))

module _ (nloop n : ℕ) (s : Program) where
  -- A thread that has the lock can go on.
  holder-Goes : (j : ℕ) (p : Pc) → j < n → s.test.pc j ≡ p → hold_of p ≢ free → Goes nloop n s
  holder-Goes j (r_head k) lt e h = absurd (h refl)
  holder-Goes j (w_head k) lt e h = absurd (h refl)
  holder-Goes j failed lt e h = absurd (h refl)
  holder-Goes j (r_done k) lt e h = (_, (read_unlocks j k lt e (some-Woken n _ _).1, refl))
  holder-Goes j (w_done k) lt e h = (_, (write_unlocks j k lt e (some-Woken n _ _).1, refl))
  holder-Goes j (r_locked k) lt e h = (_, (reads j lt (rw e refl), refl))
  holder-Goes j (r_counted k) lt e h = (_, (reads j lt (rw e refl), refl))
  holder-Goes j (r_tested k) lt e h = (_, (reads j lt (rw e refl), refl))
  holder-Goes j _ lt e h = (_, (writes j lt (rw e refl), refl))

  -- A thread woken in wrlock can go on.
  woken-Goes :
      (j : ℕ) (p : Pc)
      → j < n
      → s.lock.pc j ≡ woken_write
      → s.test.pc j ≡ p
      → agree nloop woken_write p ≡ true
      → Goes nloop n s
  woken-Goes j (w_head k) lt f e a = (_, (write_resumes j k lt e (ground arith) f, refl))
  woken-Goes j _ lt f e a = absurd (ground arith)

  woken_read-Goes :
      (j : ℕ) (p : Pc)
      → j < n
      → s.lock.pc j ≡ woken_read
      → s.test.pc j ≡ p
      → agree nloop woken_read p ≡ true
      → Goes nloop n s
  woken_read-Goes j (r_head k) lt f e a = (_, (read_resumes j k lt e (ground arith) f, refl))
  woken_read-Goes j _ lt f e a = absurd (ground arith)

  -- A thread outside the lock with rounds left can call it.
  outside-Goes :
      (j : ℕ) (p : Pc)
      → j < n
      → s.lock.pc j ≡ idle
      → s.test.pc j ≡ p
      → hold_of p ≡ free
      → p ≢ failed
      → has_returned nloop p ≡ false
      → Goes nloop n s
  outside-Goes j (r_head k) lt f e h ne a = (_, (read_calls j k lt e (ground arith) f, refl))
  outside-Goes j (w_head k) lt f e h ne a = (_, (write_calls j k lt e (ground arith) f, refl))
  outside-Goes j failed lt f e h ne a = absurd (ne refl)
  outside-Goes j _ lt f e h ne a = cc

module _ {nloop r w : ℕ} {s : Program} (p : Reach nloop r w s) where
  lock_holder-Goes :
      (j : ℕ) → j < r + w → Refine.hold_of (s.lock.pc j) ≢ free → Goes nloop (r + w) s
  lock_holder-Goes j lj h =
      holder-Goes nloop (r + w) s j _ lj refl (λ f. h ((checks_hold p j lj).1 ∙ f))

  woken_writer-Goes : (j : ℕ) × (j < r + w) × (s.lock.pc j ≡ woken_write) → Goes nloop (r + w) s
  woken_writer-Goes (j, lj, f) =
      woken-Goes nloop (r + w) s j _ lj f refl
        (sym (ap (λ x. agree nloop x (s.test.pc j)) f) ∙ Reach-AllAgree p j lj)

  -- With the lock free a thread that has rounds left, or one woken in wrlock, can go on.
  free-Goes :
      (i : ℕ) (l : System.Pc)
      → i < r + w
      → s.lock.pc i ≡ l
      → has_returned nloop (s.test.pc i) ≡ false
      → s.lock.lock.refcount ≡ pos 0
      → Refine.hold_of l ≡ free
      → l ≢ gone
      → Goes nloop (r + w) s
  free-Goes i idle lt e left z h ng =
      outside-Goes nloop (r + w) s i _ lt e refl (sym (checks_hold p i lt).1 ∙ ap Refine.hold_of e)
        (checks_hold p i lt).0 left
  free-Goes i sleep_read lt e left z h ng =
      woken_writer-Goes (no_lost_wakeup (Reach-IsLinked p).locks z i lt (inr e))
  free-Goes i sleep_write lt e left z h ng =
      woken_writer-Goes (no_lost_wakeup (Reach-IsLinked p).locks z i lt (inl e))
  free-Goes i woken_read lt e left z h ng =
      woken_read-Goes nloop (r + w) s i _ lt e refl
        (sym (ap (λ x. agree nloop x (s.test.pc i)) e) ∙ Reach-AllAgree p i lt)
  free-Goes i woken_write lt e left z h ng = woken_writer-Goes (i, lt, e)
  free-Goes i gone lt e left z h ng = absurd (ng refl)
  free-Goes i _ lt e left z h ng = cc

-- Somebody has the lock, or its reference count is 0 and nobody has it.
holder_or_free :
    (n : ℕ) (rw : Rwlock) (pc : ℕ → System.Pc)
    → IsConsistent rw (tally n pc)
    → ((j : ℕ) × (j < n) × (Refine.hold_of (pc j) ≢ free))
      ⊎ ((rw.refcount ≡ pos 0) × ((j : ℕ) → j < n → Refine.hold_of (pc j) ≡ free))
unfolding tally
holder_or_free n rw pc inv = elim (dec_lt 0 (total is_reading n pc)) [
  | yes q ↦ let (j, lj, h) = total-pos is_reading n pc q in inl (j, lj, λ e. ground arith)
  | no q ↦ elim (dec_lt 0 (total is_writing n pc)) [
    | yes q' ↦ let (j, lj, h) = total-pos is_writing n pc q' in inl (j, lj, λ e. ground arith)
    | no q' ↦ inr (
      ground (arith, inv.held),
      λ j lj. ground (arith, le-total is_reading n pc j lj, le-total is_writing n pc j lj),
    )
  ]
]

never_gone :
    (n : ℕ) (rw : Rwlock) (pc : ℕ → System.Pc)
    → IsConsistent rw (tally n pc)
    → (j : ℕ) → j < n
    → pc j ≢ gone
unfolding tally
never_gone n rw pc inv j lj e = ground (arith, inv.none_lost, le-total is_gone n pc j lj)

-- In a reachable state of the program over the operations of the lock in which some thread has not
-- returned, some thread can take a step of its own, which a return of `pthread_cond_wait` without a
-- signal is not.
pub test_keeps_going :
    {nloop r w : ℕ} {s : Program}
    → Reach nloop r w s
    → (i : ℕ) → i < r + w
    → has_returned nloop (s.test.pc i) ≡ false
    → (t : Program) × ((st : Step nloop (r + w) s t) × (is_own st ≡ true))
test_keeps_going {nloop} {r} {w} {s} p i lt left =
    let inv = Reach-IsConsistent (Reach-IsLinked p).locks in
    elim (holder_or_free (r + w) s.lock.lock s.lock.pc inv) [
      | inl (j, lj, h) ↦ lock_holder-Goes p j lj h
      | inr (z, all) ↦
          free-Goes p i _ lt refl left z (all i lt)
            (never_gone (r + w) s.lock.lock s.lock.pc inv i lt)
    ]
