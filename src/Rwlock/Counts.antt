-- ===== src/Rwlock/Counts.antt =====
-- How many threads stand where, and what a step does to these numbers.
use unpvol.Base.{
  ℕ, ◌+◌, ◌<◌, ◌≡◌, arith, update, total, total-update, total-zero, total-ext, total-sum,
}
use unpvol.Rwlock.System.{
  Pc, sleep_read, woken_read, sleep_write, woken_write, reading, writing, gone, wake_reader,
}

abbrev pub is_reading : Pc → ℕ
is_reading reading = 1
is_reading _ = 0

abbrev pub is_writing : Pc → ℕ
is_writing writing = 1
is_writing _ = 0

abbrev pub asleep_read : Pc → ℕ
asleep_read sleep_read = 1
asleep_read _ = 0

abbrev pub awake_read : Pc → ℕ
awake_read woken_read = 1
awake_read _ = 0

abbrev pub asleep_write : Pc → ℕ
asleep_write sleep_write = 1
asleep_write _ = 0

abbrev pub awake_write : Pc → ℕ
awake_write woken_write = 1
awake_write _ = 0

abbrev pub is_gone : Pc → ℕ
is_gone gone = 1
is_gone _ = 0

pub record Tally : Type 0 where
  pub readers : ℕ
  pub writers : ℕ
  pub sleep_r : ℕ
  pub woken_r : ℕ
  pub sleep_w : ℕ
  pub woken_w : ℕ
  pub lost : ℕ

unfoldable pub tally : ℕ → (ℕ → Pc) → Tally
tally n pc = record {
  readers = total is_reading n pc;
  writers = total is_writing n pc;
  sleep_r = total asleep_read n pc;
  woken_r = total awake_read n pc;
  sleep_w = total asleep_write n pc;
  woken_w = total awake_write n pc;
  lost = total is_gone n pc;
}

-- From `a` to `b` one thread goes from `p` to `q`.
pub record Moved (a b : Tally) (p q : Pc) : Type 0 where
  pub m_readers : b.readers + is_reading p ≡ a.readers + is_reading q
  pub m_writers : b.writers + is_writing p ≡ a.writers + is_writing q
  pub m_sleep_r : b.sleep_r + asleep_read p ≡ a.sleep_r + asleep_read q
  pub m_woken_r : b.woken_r + awake_read p ≡ a.woken_r + awake_read q
  pub m_sleep_w : b.sleep_w + asleep_write p ≡ a.sleep_w + asleep_write q
  pub m_woken_w : b.woken_w + awake_write p ≡ a.woken_w + awake_write q
  pub m_lost : b.lost + is_gone p ≡ a.lost + is_gone q

update-Moved :
    (n : ℕ) (pc : ℕ → Pc) (i : ℕ) (q : Pc)
    → i < n
    → Moved (tally n pc) (tally n (update pc i q)) (pc i) q
unfolding tally
update-Moved n pc i q lt = record {
  m_readers = total-update is_reading n pc i q lt;
  m_writers = total-update is_writing n pc i q lt;
  m_sleep_r = total-update asleep_read n pc i q lt;
  m_woken_r = total-update awake_read n pc i q lt;
  m_sleep_w = total-update asleep_write n pc i q lt;
  m_woken_w = total-update awake_write n pc i q lt;
  m_lost = total-update is_gone n pc i q lt;
}

pub moves :
    (n : ℕ) (pc : ℕ → Pc) (i : ℕ) {p : Pc} (q : Pc)
    → i < n
    → pc i ≡ p
    → Moved (tally n pc) (tally n (update pc i q)) p q
moves n pc i q lt e = rw (← e) (update-Moved n pc i q lt)

-- From `a` to `b` every reader asleep is woken.
pub record Roused (a b : Tally) : Type 0 where
  pub r_readers : b.readers ≡ a.readers
  pub r_writers : b.writers ≡ a.writers
  pub r_sleep_r : b.sleep_r ≡ 0
  pub r_woken_r : b.woken_r ≡ a.woken_r + a.sleep_r
  pub r_sleep_w : b.sleep_w ≡ a.sleep_w
  pub r_woken_w : b.woken_w ≡ a.woken_w
  pub r_lost : b.lost ≡ a.lost

asleep_read-wake_reader : (p : Pc) → asleep_read (wake_reader p) ≡ 0
asleep_read-wake_reader p = ground arith

awake_read-wake_reader : (p : Pc) → awake_read (wake_reader p) ≡ awake_read p + asleep_read p
awake_read-wake_reader p = ground arith

pub wake_reader-Roused :
    (n : ℕ) (pc : ℕ → Pc) → Roused (tally n pc) (tally n (λ j. wake_reader (pc j)))
unfolding tally
wake_reader-Roused n pc = record {
  r_readers = total-ext is_reading n _ _ (λ j _. ground arith);
  r_writers = total-ext is_writing n _ _ (λ j _. ground arith);
  r_sleep_r = total-zero asleep_read n _ (λ j _. asleep_read-wake_reader (pc j));
  r_woken_r = total-sum awake_read awake_read asleep_read wake_reader awake_read-wake_reader n pc;
  r_sleep_w = total-ext asleep_write n _ _ (λ j _. ground arith);
  r_woken_w = total-ext awake_write n _ _ (λ j _. ground arith);
  r_lost = total-ext is_gone n _ _ (λ j _. ground arith);
}
