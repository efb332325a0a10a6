-- ===== src/RwTest/Counts.antt =====
-- How many threads stand where, and the invariant: the two counts are those of the threads
-- between their increment and their decrement.
use unpvol.Base.{
  ℕ, ◌+◌, ◌<◌, ◌≡◌, ◌≢◌, ◌⊎◌, arith, true, pos, update, total, total-update, total-zero,
}
use unpvol.Rwlock.Refine.{free, exclusive}
use unpvol.RwTest.Defs.{
  Pc, r_head, r_locked, r_counted, r_tested, r_done, w_head, w_locked, w_counted, w_alone, w_tested,
  w_done, failed, Shared, reader, writer, hold_of, is_reader, is_writer, CanRead, CanWrite, System,
  Step, reads, writes, main, Reach, start, later,
}

-- With the read lock and not counted, counted; the same of writers; and ended by `exit`.
abbrev pub r_outside : Pc → ℕ
r_outside (r_locked i) = 1
r_outside (r_done i) = 1
r_outside _ = 0

abbrev pub r_inside : Pc → ℕ
r_inside (r_counted i) = 1
r_inside (r_tested i) = 1
r_inside _ = 0

abbrev pub w_outside : Pc → ℕ
w_outside (w_locked i) = 1
w_outside (w_done i) = 1
w_outside _ = 0

abbrev pub w_inside : Pc → ℕ
w_inside (w_counted i) = 1
w_inside (w_alone i) = 1
w_inside (w_tested i) = 1
w_inside _ = 0

abbrev pub has_failed : Pc → ℕ
has_failed failed = 1
has_failed _ = 0

pub record Tally : Type 0 where
  pub ro : ℕ
  pub ri : ℕ
  pub wo : ℕ
  pub wi : ℕ
  pub bad : ℕ

unfoldable pub tally : ℕ → (ℕ → Pc) → Tally
tally n pc = record {
  ro = total r_outside n pc;
  ri = total r_inside n pc;
  wo = total w_outside n pc;
  wi = total w_inside n pc;
  bad = total has_failed n pc;
}

pub record Moved (a b : Tally) (p q : Pc) : Type 0 where
  pub m_ro : b.ro + r_outside p ≡ a.ro + r_outside q
  pub m_ri : b.ri + r_inside p ≡ a.ri + r_inside q
  pub m_wo : b.wo + w_outside p ≡ a.wo + w_outside q
  pub m_wi : b.wi + w_inside p ≡ a.wi + w_inside q
  pub m_bad : b.bad + has_failed p ≡ a.bad + has_failed q

update-Moved :
    (n : ℕ) (pc : ℕ → Pc) (i : ℕ) (q : Pc)
    → i < n
    → Moved (tally n pc) (tally n (update pc i q)) (pc i) q
unfolding tally
update-Moved n pc i q lt = record {
  m_ro = total-update r_outside n pc i q lt;
  m_ri = total-update r_inside n pc i q lt;
  m_wo = total-update w_outside n pc i q lt;
  m_wi = total-update w_inside n pc i q lt;
  m_bad = total-update has_failed n pc i q lt;
}

pub record IsSound (m : Shared) (t : Tally) : Type 0 where
  pub readers_counted : m.nreaders ≡ pos t.ri
  pub writers_counted : m.nwriters ≡ pos t.wi
  pub excluded : (t.wo + t.wi ≡ 0) ⊎ ((t.wo + t.wi ≡ 1) × (t.ro + t.ri ≡ 0))
  pub none_bad : t.bad ≡ 0

-- The lock lets a reader in: there is no writer. It lets a writer in: there is nobody.
no_writer :
    (n : ℕ) (pc : ℕ → Pc)
    → ((j : ℕ) → j < n → hold_of (pc j) ≢ exclusive)
    → (tally n pc).wo + (tally n pc).wi ≡ 0
unfolding tally
no_writer n pc h = omega (
  arith,
  total-zero w_outside n pc (λ j lt. grind (arith, h j lt)),
  total-zero w_inside n pc (λ j lt. grind (arith, h j lt)),
)

nobody :
    (n : ℕ) (pc : ℕ → Pc)
    → ((j : ℕ) → j < n → hold_of (pc j) ≡ free)
    → (tally n pc).wo + (tally n pc).wi + (tally n pc).ro + (tally n pc).ri ≡ 0
unfolding tally
nobody n pc h = omega (
  arith,
  total-zero w_outside n pc (λ j lt. ground (arith, h j lt)),
  total-zero w_inside n pc (λ j lt. ground (arith, h j lt)),
  total-zero r_outside n pc (λ j lt. ground (arith, h j lt)),
  total-zero r_inside n pc (λ j lt. ground (arith, h j lt)),
)

-- What the guards say of the tally.
abbrev ReadGuard : Tally → Pc → Type 0
ReadGuard t (r_head i) = t.wo + t.wi ≡ 0
ReadGuard t _ = Unit

abbrev WriteGuard : Tally → Pc → Type 0
WriteGuard t (w_head i) = t.wo + t.wi + t.ro + t.ri ≡ 0
WriteGuard t _ = Unit

CanRead-ReadGuard :
    (nloop n : ℕ) (pc : ℕ → Pc) (p : Pc) → CanRead nloop n pc p → ReadGuard (tally n pc) p
CanRead-ReadGuard nloop n pc (r_head i) (_, g) = no_writer n pc g
CanRead-ReadGuard nloop n pc _ g = tt

CanWrite-WriteGuard :
    (nloop n : ℕ) (pc : ℕ → Pc) (p : Pc) → CanWrite nloop n pc p → WriteGuard (tally n pc) p
CanWrite-WriteGuard nloop n pc (w_head i) (_, g) = nobody n pc g
CanWrite-WriteGuard nloop n pc _ g = tt

reader-IsSound :
    {m : Shared} {a b : Tally} (p : Pc)
    → is_reader p ≡ true
    → ReadGuard a p
    → Moved a b p (reader m p).pc
    → IsSound m a
    → IsSound (reader m p).mem b
unfolding reader
reader-IsSound (r_head i) e g m v = ground arith
reader-IsSound _ e g m v = ground arith

writer-IsSound :
    {m : Shared} {a b : Tally} (p : Pc)
    → is_writer p ≡ true
    → WriteGuard a p
    → Moved a b p (writer m p).pc
    → IsSound m a
    → IsSound (writer m p).mem b
unfolding writer
writer-IsSound (w_head i) e g m v = ground arith
writer-IsSound _ e g m v = ground arith

Step-IsSound :
    {nloop n : ℕ} {s t : System}
    → Step nloop n s t
    → IsSound s.mem (tally n s.pc)
    → IsSound t.mem (tally n t.pc)
Step-IsSound {nloop} {n} {s} (reads i lt e g) v =
    reader-IsSound (s.pc i) e (CanRead-ReadGuard nloop n s.pc (s.pc i) g)
      (update-Moved n s.pc i _ lt) v
Step-IsSound {nloop} {n} {s} (writes i lt e g) v =
    writer-IsSound (s.pc i) e (CanWrite-WriteGuard nloop n s.pc (s.pc i) g)
      (update-Moved n s.pc i _ lt) v

main-IsSound : (r w : ℕ) → IsSound (main r w).mem (tally (r + w) (main r w).pc)
unfolding tally
main-IsSound r w = ground (
  arith,
  total-zero r_outside (r + w) (main r w).pc (λ j lt. ground arith),
  total-zero r_inside (r + w) (main r w).pc (λ j lt. ground arith),
  total-zero w_outside (r + w) (main r w).pc (λ j lt. ground arith),
  total-zero w_inside (r + w) (main r w).pc (λ j lt. ground arith),
  total-zero has_failed (r + w) (main r w).pc (λ j lt. ground arith),
)

pub Reach-IsSound :
    {nloop r w : ℕ} {s : System} → Reach nloop r w s → IsSound s.mem (tally (r + w) s.pc)
Reach-IsSound {r} {w} start = main-IsSound r w
Reach-IsSound (later r st) = Step-IsSound st (Reach-IsSound r)
