-- ===== src/Cancel/Lost.antt =====
-- What a cancelled waiter leaves behind.
use unpvol.Base.{
  ◌≡◌, ◌≢◌, ◌⊎◌, inl, inr, refl, arith, Bool, true, false, none, some, pos, ap, subst, ◌∙◌,
  if◌then◌else◌,
}
use unpvol.Rwlock.Defs.{Outcome, exited}
use unpvol.Cancel.Defs.{
  T1, t1_cancel, t1_returned, t2_cancelled_waiting, M, m_join2, m_join1, m_destroy, m_done, State,
  thread1, thread2, cancels, has_ended1, has_ended2, main, Step, ones, twos, ends, mains, Reach,
  Runs, here, more,
}
use unpvol.Cancel.Invariant.{counted, Joined, IsGood, Reach-IsGood}

-- thread2 has ended with the mutex, which thread1 and `main` wait for, the one by the lock, the other by
-- its join.
record IsHung (s : State) : Type 0 where
  gone : s.t2 ≡ t2_cancelled_waiting
  taken : s.mutex_free ≡ false
  unreturned : s.t1 ≢ t1_returned
  joining : (s.at ≡ m_join2) ⊎ (s.at ≡ m_join1)

has_ended1-returned : (p : T1) → has_ended1 p ≡ true → p ≡ t1_returned
has_ended1-returned p h = ground arith

-- A step that is taken only where `b` holds.
taken-IsHung :
    (b : Bool) {u t : State}
    → (b ≡ true → IsHung u)
    → (if b then some u else none) ≡ some t
    → IsHung t
taken-IsHung true h e = subst IsHung (ground arith) (h refl)
taken-IsHung false h e = absurd (ground arith)

module _ (s : State) (h : IsHung s) where
  thread1-IsHung : {t : State} (at : T1) → s.t1 ≡ at → thread1 s at ≡ some t → IsHung t
  unfolding thread1
  thread1-IsHung t1_cancel q e =
      taken-IsHung true
        (λ b. record {
          gone = h.gone;
          taken = h.taken;
          unreturned = λ c. ground (arith, c);
          joining = h.joining;
        })
        e
  thread1-IsHung _ q e = absurd (ground (arith, h.taken))

  main-IsHung : {t : State} (at : M) → s.at ≡ at → main s at ≡ some t → IsHung t
  unfolding main
  main-IsHung m_join2 q e =
      taken-IsHung (has_ended2 s.t2)
        (λ b. record {
          gone = h.gone;
          taken = h.taken;
          unreturned = h.unreturned;
          joining = inr refl;
        })
        e
  main-IsHung m_join1 q e =
      taken-IsHung (has_ended1 s.t1) (λ b. absurd (h.unreturned (has_ended1-returned s.t1 b))) e
  main-IsHung m_destroy q e = absurd (ground (arith, h.joining))
  main-IsHung (m_done o) q e = absurd (ground arith)

Step-IsHung : {s t : State} → IsHung s → Step s t → IsHung t
unfolding thread2 cancels
Step-IsHung {s} h (ones e) = thread1-IsHung s h s.t1 refl e
Step-IsHung {s} h (twos e) = absurd (ground (arith, h.gone))
Step-IsHung {s} h (ends c e) = absurd (ground (arith, h.gone))
Step-IsHung {s} h (mains e) = main-IsHung s h s.at refl e

Runs-IsHung : {s t : State} → IsHung s → Runs s t → IsHung t
Runs-IsHung h here = h
Runs-IsHung h (more r e) = Step-IsHung (Runs-IsHung h r) e

-- In a reachable state of testcancel in which thread2 has been cancelled inside `pthread_cond_wait`: the
-- lock still counts it as a waiting writer and its mutex is taken; if `main` has destroyed the lock, the
-- wrapper has met an error; and if thread1 has not returned, `main` does not get to destroy the lock in
-- any run from there.
pub cancelled_wait_stays :
    {s : State}
    → Reach s
    → s.t2 ≡ t2_cancelled_waiting
    → (s.lock.nwaitwriters ≡ pos 1)
      × (s.mutex_free ≡ false)
      × ((o : Outcome) → s.at ≡ m_done o → o ≡ exited)
      × (s.t1 ≢ t1_returned → (t : State) → Runs s t → (t.at ≡ m_join2) ⊎ (t.at ≡ m_join1))
cancelled_wait_stays {s} r gone =
    let g = Reach-IsGood r in
    let taken : s.mutex_free ≡ false = g.held gone in
    (
      g.waiting ∙ ap counted gone,
      taken,
      λ o q. (subst (Joined s.lock.magic s.t1 s.t2) q g.joined).2 gone,
      λ unreturned t runs.
          (Runs-IsHung
            (record {
              gone = gone;
              taken = taken;
              unreturned = unreturned;
              joining = still_joining s.at refl g unreturned;
            })
            runs).joining,
    )
  where
    still_joining :
        (at : M) → s.at ≡ at → IsGood s → s.t1 ≢ t1_returned → (s.at ≡ m_join2) ⊎ (s.at ≡ m_join1)
    still_joining m_join2 q g ne = inl q
    still_joining m_join1 q g ne = inr q
    still_joining m_destroy q g ne =
        absurd (ne (has_ended1-returned s.t1 (subst (Joined s.lock.magic s.t1 s.t2) q g.joined).2))
    still_joining (m_done o) q g ne =
        absurd (ne (has_ended1-returned s.t1 (subst (Joined s.lock.magic s.t1 s.t2) q g.joined).1))
