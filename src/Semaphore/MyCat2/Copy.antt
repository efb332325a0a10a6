-- ===== src/Semaphore/MyCat2/Copy.antt =====
-- The accounts of the semaphores of mycat2.c, and what the buffers hold.
use unpvol.Base.{
  ℕ, ◌+◌, ◌-◌, ◌%◌, ◌<◌, ◌≤◌, ◌≡◌, ◌≢◌, refl, arith, true, false, some, dec_lt, is_zero,
}
use unpvol.Semaphore.MyCat2.Defs.{
  nbuff, Buffer, Shared, Put, p_wait_empty, p_wait_mutex, p_post_mutex, p_read, p_test,
  p_post_stored, p_post_last, p_returned, Get, c_wait_stored, c_wait_mutex, c_post_mutex, c_test,
  c_write, c_next, c_post_empty, c_returned, Producer, Consumer, Produced, Consumed, next_buff,
  produce, consume, System, produces, consumes, main, Reach, start, later,
}

-- The producer holds the mutex; has a buffer to fill; has filled one that is not posted; has filled
-- one at `i` still; has met the empty read.
abbrev pub p_in_mutex : Put → ℕ
p_in_mutex p_post_mutex = 1
p_in_mutex _ = 0

abbrev pub has_empty : Put → ℕ
has_empty p_wait_mutex = 1
has_empty p_post_mutex = 1
has_empty p_read = 1
has_empty _ = 0

abbrev pub has_filled : Put → ℕ
has_filled p_test = 1
has_filled p_post_stored = 1
has_filled p_post_last = 1
has_filled _ = 0

abbrev pub still_at : Put → ℕ
still_at p_test = 1
still_at p_post_last = 1
still_at p_returned = 1
still_at _ = 0

abbrev pub has_ended : Put → ℕ
has_ended p_post_last = 1
has_ended p_returned = 1
has_ended _ = 0

-- The consumer holds the mutex; has a full buffer that is not written; has written it at `i`
-- still; owes the post of `nempty`; has met the empty read.
abbrev pub c_in_mutex : Get → ℕ
c_in_mutex c_post_mutex = 1
c_in_mutex _ = 0

abbrev pub has_full : Get → ℕ
has_full c_wait_mutex = 1
has_full c_post_mutex = 1
has_full c_test = 1
has_full c_write = 1
has_full c_returned = 1
has_full _ = 0

abbrev pub not_next : Get → ℕ
not_next c_next = 1
not_next _ = 0

abbrev pub owes_empty : Get → ℕ
owes_empty c_next = 1
owes_empty c_post_empty = 1
owes_empty _ = 0

pub record IsSound (m : Shared) (p : Producer) (c : Consumer) : Type 0 where
  pub exclusive : m.mutex + p_in_mutex p.at + c_in_mutex c.at ≡ 1
  pub slots : m.nempty + has_empty p.at + owes_empty c.at + p.reads ≡ nbuff + c.writes
  pub items : m.nstored + has_filled p.at + has_full c.at + c.writes ≡ p.reads
  pub put_at : p.i ≡ (p.reads - still_at p.at) % nbuff
  pub get_at : c.i ≡ (c.writes - not_next c.at) % nbuff
  pub started : still_at p.at ≤ p.reads
  pub wrote : not_next c.at ≤ c.writes

next_buff-mod : (k : ℕ) → next_buff (k % nbuff) ≡ (k + 1) % nbuff
next_buff-mod k = ground arith

module _ (input : ℕ → Buffer) {m : Shared} {p : Producer} {c : Consumer} (v : IsSound m p c) where
  produce-IsSound :
      {l : Produced} (at : Put)
      → p.at ≡ at
      → produce input m p at ≡ some l
      → IsSound l.mem l.thread c
  unfolding produce
  produce-IsSound p_test q e = ground (arith, next_buff-mod (p.reads - 1))
  produce-IsSound p_wait_empty q e = ground arith
  produce-IsSound _ q e = ground arith

  consume-IsSound :
      {l : Consumed} (at : Get) → c.at ≡ at → consume m c at ≡ some l → IsSound l.mem p l.thread
  unfolding consume
  consume-IsSound c_next q e = ground (arith, next_buff-mod (c.writes - 1))
  consume-IsSound c_wait_stored q e = ground arith
  consume-IsSound _ q e = ground arith

-- What the buffers hold, what has been written, and who has met the empty read.
abbrev pub NotEnded : (input : ℕ → Buffer) → ℕ → Type 0
NotEnded input k = is_zero (input k).n ≡ false

abbrev pub Knows : (input : ℕ → Buffer) → Consumer → Get → Type 0
Knows input c c_write = NotEnded input c.writes
Knows input c c_returned = is_zero (input c.writes).n ≡ true
Knows input c _ = Unit

abbrev pub PutKnows : (input : ℕ → Buffer) → Producer → Put → Type 0
PutKnows input p p_post_last = is_zero (input (p.reads - 1)).n ≡ true
PutKnows input p p_returned = is_zero (input (p.reads - 1)).n ≡ true
PutKnows input p _ = Unit

pub record Copies (input : ℕ → Buffer) (m : Shared) (p : Producer) (c : Consumer) : Type 0 where
  pub window : (k : ℕ) → c.writes ≤ k → k < p.reads → m.buff (k % nbuff) ≡ input k
  pub written : (k : ℕ) → k < c.writes → (c.out k ≡ input k) × NotEnded input k
  pub knows : Knows input c c.at
  pub read_on : (k : ℕ) → k < p.reads - still_at p.at → NotEnded input k
  pub put_knows : PutKnows input p p.at

slot-ne : (j k : ℕ) → j < k → k < j + nbuff → k % nbuff ≢ j % nbuff
slot-ne j k lo hi e = omega arith

module _ {input : ℕ → Buffer} {m : Shared} {p : Producer} {c : Consumer} (v : IsSound m p c)
    (h : Copies input m p c) where
  produce-window :
      {l : Produced} (at : Put)
      → p.at ≡ at
      → produce input m p at ≡ some l
      → (k : ℕ) → c.writes ≤ k
      → k < l.thread.reads
      → l.mem.buff (k % nbuff) ≡ input k
  unfolding produce
  produce-window p_read q e k lo hi = elim (dec_lt k p.reads) [
    | yes x ↦ ground (arith, h.window k, slot-ne k p.reads, v)
    | no x ↦ let y : k ≡ p.reads = ground arith in ground (arith, v)
  ]
  produce-window _ q e k lo hi = ground (arith, h.window k)

  consume-window :
      {l : Consumed} (at : Get)
      → consume m c at ≡ some l
      → (k : ℕ) → l.thread.writes ≤ k
      → k < p.reads
      → l.mem.buff (k % nbuff) ≡ input k
  unfolding consume
  consume-window c_test e k lo hi = ground (arith, h.window k)
  consume-window _ e k lo hi = ground (arith, h.window k)

  consume-written :
      {l : Consumed} (at : Get)
      → c.at ≡ at
      → consume m c at ≡ some l
      → (k : ℕ) → k < l.thread.writes
      → (l.thread.out k ≡ input k) × NotEnded input k
  unfolding consume
  consume-written c_write q e k hi = elim (dec_lt k c.writes) [
    | yes x ↦ ground (arith, h.written k)
    | no x ↦ let y : k ≡ c.writes = ground arith in ground (arith, v, h.knows, h.window c.writes)
  ]
  consume-written _ q e k hi = ground (arith, h.written k)

  consume-Knows :
      {l : Consumed} (at : Get)
      → c.at ≡ at
      → consume m c at ≡ some l
      → Knows input l.thread l.thread.at
  unfolding consume
  consume-Knows c_test q e = ground (arith, v, h.window c.writes)
  consume-Knows _ q e = ground arith

  -- The buffer of the last read, while the producer has not posted it.
  last_read : p.at ≡ p_test → m.buff p.i ≡ input (p.reads - 1)
  last_read q = ground (arith, v, h.window (p.reads - 1))

  produce-read_on :
      {l : Produced} (at : Put)
      → p.at ≡ at
      → produce input m p at ≡ some l
      → (k : ℕ) → k < l.thread.reads - still_at l.thread.at
      → NotEnded input k
  unfolding produce
  produce-read_on p_test q e k hi = elim (dec_lt k (p.reads - 1)) [
    | yes x ↦ ground (arith, h.read_on k)
    | no x ↦ let y : k ≡ p.reads - 1 = ground arith in ground (arith, last_read q)
  ]
  produce-read_on _ q e k hi = ground (arith, h.read_on k)

  produce-PutKnows :
      {l : Produced} (at : Put)
      → p.at ≡ at
      → produce input m p at ≡ some l
      → PutKnows input l.thread l.thread.at
  unfolding produce
  produce-PutKnows p_test q e = ground (arith, last_read q)
  produce-PutKnows _ q e = ground (arith, h.put_knows)

pub record IsGood (input : ℕ → Buffer) (s : System) : Type 0 where
  pub sound : IsSound s.mem s.p s.c
  pub copies : Copies input s.mem s.p s.c

main-IsGood : (input : ℕ → Buffer) → IsGood input main
main-IsGood input = record {
  sound = ground arith;
  copies = record {
    window = λ k lo hi. absurd (omega arith);
    written = λ k hi. absurd (omega arith);
    knows = tt;
    read_on = λ k hi. absurd (omega arith);
    put_knows = tt;
  };
}

pub Reach-IsGood : {input : ℕ → Buffer} {s : System} → Reach input s → IsGood input s
Reach-IsGood {input} start = main-IsGood input
Reach-IsGood {input} (later {s} r (produces e)) =
    let g = Reach-IsGood r in
    record {
      sound = produce-IsSound input g.sound s.p.at refl e;
      copies = record {
        window = produce-window g.sound g.copies s.p.at refl e;
        written = g.copies.written;
        knows = g.copies.knows;
        read_on = produce-read_on g.sound g.copies s.p.at refl e;
        put_knows = produce-PutKnows g.sound g.copies s.p.at refl e;
      };
    }
Reach-IsGood {input} (later {s} r (consumes e)) =
    let g = Reach-IsGood r in
    record {
      sound = consume-IsSound input g.sound s.c.at refl e;
      copies = record {
        window = consume-window g.sound g.copies s.c.at e;
        written = consume-written g.sound g.copies s.c.at refl e;
        knows = consume-Knows g.sound g.copies s.c.at refl e;
        read_on = g.copies.read_on;
        put_knows = g.copies.put_knows;
      };
    }
