-- ===== src/Counter/Server1.antt =====
-- codes/13.PosixSharedMemory/server1.c and client1.c: clients count an int in shared memory up under a
-- named semaphore, both of which server1 makes anew.
use unpvol.Base.{ℕ, ◌+◌, ◌*◌, ◌≤◌, ◌≡◌, ◌⊎◌, refl, arith, ◌∙◌}
use unpvol.Semaphore.Sem.{sem_wait, sem_post, sem_wait_free}
use unpvol.Counter.Loop.{Cell, System, Step, first, Reach}
use unpvol.Counter.Invariant.{above}
use unpvol.Counter.Result.{HaveReturned, rounds_add_up, loop_goes_on}

-- `ptr->count` with the semaphore, as client1 uses them.
abbrev pub shared_count : Cell
shared_count = record {
  Contents = ℕ;
  load = λ c. c;
  store = λ v c. v;
  acquire = sem_wait;
  release = sem_post;
  top = 2_147_483_647;
  load-store = λ v c h. refl;
  acquire_held = refl;
  acquire_free = sem_wait_free;
  releases = λ v. refl;
}

-- What server1 leaves: a new object, of zeros after `ftruncate`, and a semaphore of value 1; the
-- clients have not begun.
abbrev pub server1 : System shared_count
server1 = first shared_count 1 0 0

-- In a reachable state of any number of clients after server1, where n * nloop fits an int: when all
-- clients have returned, the count is n * nloop and the numbers that they printed are those below it,
-- each printed once; when not, one of them can go on.
pub client1_counts :
    {nloop n : ℕ} {s : System shared_count}
    → n * nloop ≤ 2_147_483_647
    → Reach shared_count nloop n 1 0 0 s
    → (HaveReturned shared_count n s
        → (s.mem.contents ≡ n * nloop) × (s.mem.found ≡ above 0 (n * nloop)))
      × (((t : System shared_count) × Step shared_count nloop n s t)
          ⊎ HaveReturned shared_count n s)
client1_counts {nloop} {n} {s} fits r = (
  λ all. (
    (rounds_add_up shared_count refl bound r all).0 ∙ whole,
    (rounds_add_up shared_count refl bound r all).1,
  ),
  loop_goes_on shared_count refl bound r,
)
  where
    whole : 0 + n * nloop ≡ n * nloop
    whole = omega arith

    bound : 0 + n * nloop ≤ 2_147_483_647
    bound = omega (arith, fits)
