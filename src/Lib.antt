-- ===== src/Lib.antt =====
-- The concurrent programs under codes/: a read-write lock over a mutex and two condition variables,
-- producers and consumers over semaphores and over mutexes, a ring of messages in shared memory,
-- message queues with notification, clients and servers over pipes and FIFOs, and counters under a
-- lock. They share no code but the lock, which test1.c and testcancel.c use; they
-- share the pattern: threads (or processes) that step through a short function over common data.
--
-- How a program is modelled. The common data are a record, a thread function is a function by
-- clauses from the data and the place where the thread stands to the data and its next place, or to
-- `none` where the thread is blocked or has returned; a data type Step lets any one thread take its
-- step, so that every interleaving is a sequence of steps, and Reach are the states that such
-- sequences lead to from the state that `main` builds. A step is one access of common data or one
-- call on a semaphore, mutex or condition variable; in Rwlock it is a stretch of a function that the
-- lock's own mutex covers. Loops are steps, so no fuel is used anywhere. Semaphores and mutexes are
-- numbers that a call takes one from or blocks at; a wait on a condition variable gives up its mutex
-- and may return without a signal. The int counters of the lock are integers with the theorem on
-- their range, the other counters are native numbers: the loops compare them with an int before each
-- count, so they stay below it, except in shmwrite.c and shmread.c, where the size of the object is
-- compared and a size above INT_MAX gives no result. `nitems`, `nloop` and the numbers of threads are
-- parameters.
--
--   Base         shared names, tests on numbers, integers, lists, and families indexed by thread
--   Rwlock       codes/8.Read_Write_Locks/my_rwlock/pthread_rwlock*.c: `my_pthread_rwlock_init` is
--                init, and so on for destroy, rdlock, wrlock, tryrdlock, trywrlock and unlock. The
--                two that wait are cut at `pthread_cond_wait`: rdlock up to the wait,
--                rdlock_resume from its return. System puts threads over one lock, Refine has the
--                abstract lock
--   RwTest       codes/8.Read_Write_Locks/my_rwlock/test1.c: Defs has reader and writer over a lock that
--                lets a reader in beside no writer and a writer alone, Program the whole program over
--                the operations of Rwlock. Linked and Checks relate the two; Entered says where a
--                thread may wait in the lock
--   Cancel       codes/8.Read_Write_Locks/my_rwlock/testcancel.c over the operations of Rwlock, with the
--                lock's mutex: thread1, thread2, main
--   Semaphore    codes/10.Semaphore: ProdCons2 is prodcons2.c, ProdCons3 is prodcons3.c, ProdCons4
--                is prodcons4.c, MyCat2 is mycat2.c; produce and consume are their two functions
--   Mutex        codes/7.Mutex_ConditionVariable: ProdCons2 is prodcons2.c, whose consumer comes
--                after the producers, ProdCons3 is prodcons3.c, whose consumer looks again and
--                again, ProdCons6 is prodcons6.c, whose consumer waits on a condition
--   SharedRing   codes/13.PosixSharedMemory/client2.c, server2.c and cliserv2.h: client is the loop
--                of client2.c, server that of server2.c
--   Counter      codes/9.Record_Locking/lockmain.c (FileLock) and codes/13.PosixSharedMemory/server1.c and
--                client1.c (Server1): one loop over an interface Cell, which says where the number is
--                kept and what guards it
--   SharedBytes  codes/13.PosixSharedMemory/shmwrite.c and shmread.c
--   MqNotify     codes/5.MessageQueue: mqnotifysig2.c (read_one_loop) and mqnotifysig3.c (drain_loop)
--                in Defs, and over the queue of Queue mqnotifysig1.c (Handler: handler is its
--                sig_usr1), mqnotifysig4.c (SigWait), mqnotifysig5.c (SelectPipe) and
--                mqnotifythread1.c (Threads). Priority has the order of the queue: the oldest message of
--                the highest priority comes first
--   Pipes        codes/4.PipeAndFifos/spipe.c (Spipe) and sfifo.c (Sfifo): client is the parent, server
--                the child. Channel has the pipe or FIFO under both
--   FifoServer   codes/4.PipeAndFifos/1snc: client.c and server.c (Once), where a FIFO has a name, and
--                an open waits for the other side; serverfork.c (Fork), Requests its parent,
--                Child its child; servern.c (Serial), with any number of clients
--
-- In each, Defs has the translation (Handler, SigWait, SelectPipe, Threads, Requests and Child have it
-- beside their theorems), Counts the numbers of threads in the classes that the invariant
-- weighs, Invariant and Good (Items, Copy) what holds of every reachable state, Blocked where a thread
-- waits, and Safety, Progress and the like the promises; Tests has runs at fixed inputs.
--
-- Parameters stand for what is not in the repository: the results of the pthread inits and locks in
-- Rwlock, whether `pthread_cond_wait` may fail, what `read` answers in MyCat2, the text of a long and what
-- a text scans as in FileLock, and in Pipes and FifoServer the capacity of a pipe, the contents of the
-- files, the request that a client formats and what it scans as.
--
-- Not modelled: the parsing of arguments, opening and mapping of shared memory, sleeping, and the
-- printing of text beyond the values that it shows; the order of memory accesses of real processors,
-- since every access here is atomic and seen at once; failures of `fork`, and of `read` and `write`
-- other than blocking; the reply in servern.c, which is that of serverfork.c; lockfcntl.c and
-- prodcons1.c, which repeat functions that are modelled; lockopen.c, incr_rwlock1.c, incr1.c and
-- incr2.c; `destroy` of the lock beside a thread that is entering it; and the commands that make one
-- library call.
pub mod Base
pub mod Rwlock
pub mod RwTest
pub mod Cancel
pub mod Semaphore
pub mod Mutex
pub mod SharedRing
pub mod Counter
pub mod SharedBytes
pub mod MqNotify
pub mod Pipes
pub mod FifoServer
