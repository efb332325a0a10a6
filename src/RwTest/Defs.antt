-- ===== src/RwTest/Defs.antt =====
-- The two thread functions, a shared access at a time. The calls of `rcountlock` make each of the
-- two updates of `nreaders` one access. Here a thread passes the lock where no thread that is in
-- keeps it out; Program has the program over the operations of the lock.
use unpvol.Base.{
  ℕ, ◌+◌, ◌<◌, ◌≡◌, ◌≢◌, Bool, true, false, ltb, if◌then◌else◌, ℤ, pos, negsuc, ◌+ℤ◌, ◌-ℤ◌, is_pos,
  update,
}
use unpvol.Rwlock.Refine.{Hold, free, shared, exclusive}

-- `shared`, without its locks.
pub record Shared : Type 0 where
  pub nreaders : ℤ
  pub nwriters : ℤ

-- Where a thread stands, in the round `i` of its loop.
pub data Pc : Type 0 where
  r_head : (i : ℕ) → Pc  -- before the lock, or returned if `i` is `nloop`
  r_locked : (i : ℕ) → Pc  -- before `shared.nreaders++`
  r_counted : (i : ℕ) → Pc  -- before the test of `nwriters`
  r_tested : (i : ℕ) → Pc  -- before `shared.nreaders--`
  r_done : (i : ℕ) → Pc  -- before the unlock
  w_head : (i : ℕ) → Pc
  w_locked : (i : ℕ) → Pc  -- before `shared.nwriters++`
  w_counted : (i : ℕ) → Pc  -- before the test of `nwriters`
  w_alone : (i : ℕ) → Pc  -- before the test of `nreaders`
  w_tested : (i : ℕ) → Pc  -- before `shared.nwriters--`
  w_done : (i : ℕ) → Pc
  failed : Pc  -- `exit(-1)` after a message

pub record Local : Type 0 where
  pub mem : Shared
  pub pc : Pc

-- `reader`: one step of a thread in it.
unfoldable pub reader : Shared → Pc → Local
reader m (r_head i) = record { mem = m; pc = r_locked i }
reader m (r_locked i) = record {
  mem = record m { nreaders = m.nreaders +ℤ pos 1 };
  pc = r_counted i;
}
reader m (r_counted i) = record { mem = m; pc = if is_pos m.nwriters then failed else r_tested i }
reader m (r_tested i) = record { mem = record m { nreaders = m.nreaders -ℤ pos 1 }; pc = r_done i }
reader m (r_done i) = record { mem = m; pc = r_head (i + 1) }
reader m p = record { mem = m; pc = p }

abbrev is_more_than_one : ℤ → Bool
is_more_than_one (pos n) = ltb 1 n
is_more_than_one (negsuc n) = false

-- `writer`: one step of a thread in it.
unfoldable pub writer : Shared → Pc → Local
writer m (w_head i) = record { mem = m; pc = w_locked i }
writer m (w_locked i) = record {
  mem = record m { nwriters = m.nwriters +ℤ pos 1 };
  pc = w_counted i;
}
writer m (w_counted i) = record {
  mem = m;
  pc = if is_more_than_one m.nwriters then failed else w_alone i;
}
writer m (w_alone i) = record { mem = m; pc = if is_pos m.nreaders then failed else w_tested i }
writer m (w_tested i) = record { mem = record m { nwriters = m.nwriters -ℤ pos 1 }; pc = w_done i }
writer m (w_done i) = record { mem = m; pc = w_head (i + 1) }
writer m p = record { mem = m; pc = p }

-- What a thread has of the read-write lock.
abbrev pub hold_of : Pc → Hold
hold_of (r_locked i) = shared
hold_of (r_counted i) = shared
hold_of (r_tested i) = shared
hold_of (r_done i) = shared
hold_of (w_locked i) = exclusive
hold_of (w_counted i) = exclusive
hold_of (w_alone i) = exclusive
hold_of (w_tested i) = exclusive
hold_of (w_done i) = exclusive
hold_of _ = free

abbrev pub is_reader : Pc → Bool
is_reader (r_head i) = true
is_reader (r_locked i) = true
is_reader (r_counted i) = true
is_reader (r_tested i) = true
is_reader (r_done i) = true
is_reader _ = false

abbrev pub is_writer : Pc → Bool
is_writer (w_head i) = true
is_writer (w_locked i) = true
is_writer (w_counted i) = true
is_writer (w_alone i) = true
is_writer (w_tested i) = true
is_writer (w_done i) = true
is_writer _ = false

pub record System : Type 0 where
  pub mem : Shared
  pub pc : ℕ → Pc

-- When a thread may go on: at the head only while `i < nloop` and the lock lets it in.
abbrev pub CanRead : (nloop n : ℕ) → (ℕ → Pc) → Pc → Type 0
CanRead nloop n pc (r_head i) = (i < nloop) × ((j : ℕ) → j < n → hold_of (pc j) ≢ exclusive)
CanRead nloop n pc _ = Unit

abbrev pub CanWrite : (nloop n : ℕ) → (ℕ → Pc) → Pc → Type 0
CanWrite nloop n pc (w_head i) = (i < nloop) × ((j : ℕ) → j < n → hold_of (pc j) ≡ free)
CanWrite nloop n pc _ = Unit

pub data Step (nloop n : ℕ) (s : System) : System → Type 0 where
  reads :
      (i : ℕ)
      → i < n
      → is_reader (s.pc i) ≡ true
      → CanRead nloop n s.pc (s.pc i)
      → Step nloop n s (record {
        mem = (reader s.mem (s.pc i)).mem;
        pc = update s.pc i (reader s.mem (s.pc i)).pc;
      })
  writes :
      (i : ℕ)
      → i < n
      → is_writer (s.pc i) ≡ true
      → CanWrite nloop n s.pc (s.pc i)
      → Step nloop n s (record {
        mem = (writer s.mem (s.pc i)).mem;
        pc = update s.pc i (writer s.mem (s.pc i)).pc;
      })

-- `main`: `nreaders` threads in `reader`, then `nwriters` in `writer`.
abbrev pub main : (nreaders nwriters : ℕ) → System
main nreaders nwriters = record {
  mem = record { nreaders = pos 0; nwriters = pos 0 };
  pc = λ i.
      if ltb i nreaders then r_head 0 else if ltb i (nreaders + nwriters) then w_head 0 else failed;
}

pub data Reach (nloop nreaders nwriters : ℕ) : System → Type 0 where
  start : Reach nloop nreaders nwriters (main nreaders nwriters)
  later :
      {s t : System}
      → Reach nloop nreaders nwriters s
      → Step nloop (nreaders + nwriters) s t
      → Reach nloop nreaders nwriters t
