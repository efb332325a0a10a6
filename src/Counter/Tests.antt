-- ===== src/Counter/Tests.antt =====
-- Runs of the counting loop, and the theorems of its programs at them. The texts of the
-- file are eight bytes, the low one first.
use unpvol.Base.{
  ℕ, zero, suc, ◌+◌, ◌*◌, ◌/◌, ◌%◌, ◌<◌, ◌≤◌, ◌≡◌, ◌⊎◌, refl, arith, List, [], ◌∷◌, ◌++◌, length,
}
use unpvol.Counter.Loop.{Cell, round, System, Step, rounds, Reach, start, later}
use unpvol.Counter.Invariant.{above}
use unpvol.Counter.Result.{HaveReturned}
use unpvol.Counter.Server1.{shared_count, client1_counts}
use unpvol.Counter.FileLock.{read_seqno, seqno, long_max, nrounds, seqnos_are_unique, maxline}

-- A number as eight bytes, and back.
abbrev bytes : ℕ → ℕ → List ℕ
bytes zero v = []
bytes (suc k) v = (v % 256) ∷ bytes k (v / 256)

abbrev of_bytes : ℕ → List ℕ → ℕ
of_bytes zero cs = 0
of_bytes (suc k) [] = 0
of_bytes (suc k) (c ∷ cs) = c + 256 * of_bytes k cs

abbrev above_bytes : ℕ → ℕ
above_bytes zero = 1
above_bytes (suc k) = 256 * above_bytes k

of_bytes-bytes : (k v : ℕ) (rest : List ℕ) → v < above_bytes k → of_bytes k (bytes k v ++ rest) ≡ v
of_bytes-bytes zero v rest h = omega arith
of_bytes-bytes (suc k) v rest h = omega (arith, of_bytes-bytes k (v / 256) rest (omega arith))

length-bytes : (k v : ℕ) → length (bytes k v) ≡ k
length-bytes zero v = refl
length-bytes (suc k) v = omega (arith, length-bytes k (v / 256))

eight_back : (v : ℕ) (rest : List ℕ) → v ≤ long_max → of_bytes 8 (bytes 8 v ++ rest) ≡ v
eight_back v rest h = of_bytes-bytes 8 v rest (omega arith)

eight_fit : (v : ℕ) → v ≤ long_max → length (bytes 8 v) ≤ maxline
eight_fit v h = omega (arith, length-bytes 8 v)

abbrev file_cell : Cell
file_cell = seqno (of_bytes 8) (bytes 8) eight_back eight_fit

-- Two processes over a file with the number 7, with the first in its first round.
abbrev one_reads : (s : System file_cell) × Reach file_cell nrounds 2 1 0 (bytes 8 7) s
unfolding round
one_reads = (
  _,
  (later
      (later
        (later (later (later start (rounds 0 (omega arith) refl)) (rounds 0 (omega arith) refl))
          (rounds 0 (omega arith) refl))
        (rounds 0 (omega arith) refl))
      (rounds 1 (omega arith) refl)),
)

seqnos_are_unique_example :
    (HaveReturned file_cell 2 one_reads.0
      → (read_seqno (of_bytes 8) one_reads.0.mem.contents
          ≡ read_seqno (of_bytes 8) (bytes 8 7) + 2 * nrounds)
        × (one_reads.0.mem.found ≡ above (read_seqno (of_bytes 8) (bytes 8 7)) (2 * nrounds)))
    × (((t : System file_cell) × Step file_cell nrounds 2 one_reads.0 t)
        ⊎ HaveReturned file_cell 2 one_reads.0)
seqnos_are_unique_example =
    seqnos_are_unique (of_bytes 8) (bytes 8) eight_back eight_fit (omega arith) one_reads.1

-- Three clients with a round each, of which the last has returned.
abbrev last_counted : (s : System shared_count) × Reach shared_count 1 3 1 0 0 s
unfolding round
last_counted = (
  _,
  (later
      (later
        (later
          (later (later (later start (rounds 2 (omega arith) refl)) (rounds 2 (omega arith) refl))
            (rounds 2 (omega arith) refl))
          (rounds 2 (omega arith) refl))
        (rounds 2 (omega arith) refl))
      (rounds 2 (omega arith) refl)),
)

client1_counts_example :
    (HaveReturned shared_count 3 last_counted.0
      → (last_counted.0.mem.contents ≡ 3 * 1) × (last_counted.0.mem.found ≡ above 0 (3 * 1)))
    × (((t : System shared_count) × Step shared_count 1 3 last_counted.0 t)
        ⊎ HaveReturned shared_count 3 last_counted.0)
client1_counts_example = client1_counts (omega arith) last_counted.1
