-- ===== src/Mutex/ProdCons2/Safety.antt =====
-- What prodcons2.c promises.
use unpvol.Base.{ℕ, ◌<◌, ◌≡◌, inl, inr, refl, arith, total}
use unpvol.Mutex.ProdCons2.Defs.{c_returned, System, Reach}
use unpvol.Mutex.ProdCons2.Counts.{tally, uncounted}
use unpvol.Mutex.ProdCons2.Good.{Reach-IsGood, count_of, all_returned}

-- In a reachable state of prodcons2 over a mutex, with one producer at least, the consumer has printed
-- no mismatch; once it has returned, it has looked at `nitems` items, that many have been put, and the
-- producers' own counts add up to `nitems`.
pub join_orders :
    {nitems n : ℕ} {s : System}
    → 0 < n
    → Reach nitems n s
    → (s.c.errors ≡ 0)
      × (s.c.at ≡ c_returned
          → (s.c.i ≡ nitems) × (s.mem.nput ≡ nitems) × (total count_of n s.threads ≡ nitems))
unfolding tally
join_orders {nitems} {n} {s} hn r = (
  (Reach-IsGood hn r).holds.no_errors,
  λ q. (
    ground (arith, (Reach-IsGood hn r).sound),
    full q,
    elim (Reach-IsGood hn r).joined [
      | inl x ↦ absurd (ground arith)
      | inr all ↦
          omega
            (arith, full q, (Reach-IsGood hn r).counts, all_returned uncounted n s.threads refl all)
    ],
  ),
)
  where
    full : s.c.at ≡ c_returned → s.mem.nput ≡ nitems
    full q = ground (arith, (Reach-IsGood hn r).sound)
