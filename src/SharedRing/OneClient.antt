-- ===== src/SharedRing/OneClient.antt =====
-- With one client the server prints what the client has sent, each text once and in order.
use unpvol.Base.{ℕ, zero, suc, ◌+◌, ◌*◌, ◌%◌, ◌<◌, ◌≤◌, ◌≡◌, ◌≢◌, refl, arith, some, update, dec_lt}
use unpvol.SharedRing.Defs.{
  mesgsize, nmesg, Shmstruct, Send, k_trywait, k_post_overflow, k_wait_mutex, k_offset,
  k_post_mutex, k_copy, k_post_stored, Client, Receive, s_wait_stored, s_wait_mutex, s_print,
  s_post_mutex, s_post_empty, Server, Sent, Received, next_slot, client, server, System, sends,
  receives, main, Reach, start, later,
}

-- The client has a slot and has not counted it in `nput`; has an offset and has not copied; has
-- copied and not posted.
abbrev has_slot : Send → ℕ
has_slot k_wait_mutex = 1
has_slot k_offset = 1
has_slot _ = 0

abbrev has_offset : Send → ℕ
has_offset k_post_mutex = 1
has_offset k_copy = 1
has_offset _ = 0

abbrev has_copied : Send → ℕ
has_copied k_post_stored = 1
has_copied _ = 0

-- The server has an item that it has not printed; has printed one and not posted `nempty`.
abbrev has_item : Receive → ℕ
has_item s_wait_mutex = 1
has_item s_print = 1
has_item _ = 0

abbrev owes_slot : Receive → ℕ
owes_slot s_post_mutex = 1
owes_slot s_post_empty = 1
owes_slot _ = 0

-- The offset of the slot that the client is about to write.
abbrev KnowsOffset : Client → Send → Type 0
KnowsOffset c k_post_mutex = c.offset ≡ c.sent % nmesg * mesgsize
KnowsOffset c k_copy = c.offset ≡ c.sent % nmesg * mesgsize
KnowsOffset c _ = Unit

-- The round in hand is already counted as sent or as an overflow.
abbrev has_counted : Send → ℕ
has_counted k_post_overflow = 1
has_counted k_post_stored = 1
has_counted _ = 0

record IsSound (m : Shmstruct) (c : Client) (s : Server) : Type 0 where
  slots : m.nempty + has_slot c.at + owes_slot s.at + (c.sent + has_offset c.at) ≡ nmesg + s.printed
  items : m.nstored + has_copied c.at + has_item s.at + s.printed ≡ c.sent
  put_at : m.nput ≡ (c.sent + has_offset c.at) % nmesg
  get_at : s.index ≡ s.printed % nmesg
  offset_of : KnowsOffset c c.at
  rounds : c.sent + m.noverflow ≡ c.i + has_counted c.at

next_slot-mod : (k : ℕ) → next_slot (k % nmesg) ≡ (k + 1) % nmesg
next_slot-mod k = ground arith

module _ {m : Shmstruct} {c : Client} {s : Server} (v : IsSound m c s)
    (offs : (k : ℕ) → m.msgoff k ≡ k * mesgsize) where
  client-IsSound :
      (nloop j : ℕ) {l : Sent} (at : Send)
      → c.at ≡ at
      → client nloop j m c at ≡ some l
      → IsSound l.mem l.client s
  unfolding client
  client-IsSound nloop j k_offset q e = ground (arith, offs m.nput, next_slot-mod c.sent)
  client-IsSound nloop j k_trywait q e = ground arith
  client-IsSound nloop j _ q e = ground arith

  server-IsSound :
      {l : Received} (at : Receive) → s.at ≡ at → server m s at ≡ some l → IsSound l.mem c l.server
  unfolding server
  server-IsSound s_print q e = ground (arith, next_slot-mod s.printed)
  server-IsSound s_wait_stored q e = ground arith
  server-IsSound _ q e = ground arith

record HoldsTexts (m : Shmstruct) (c : Client) (s : Server) : Type 0 where
  offsets : (k : ℕ) → m.msgoff k ≡ k * mesgsize
  window :
      (k : ℕ) → s.printed ≤ k → k < c.sent → m.msgdata (k % nmesg * mesgsize) ≡ some (0, c.log k)
  printed_all : (k : ℕ) → k < s.printed → s.out k ≡ some (0, c.log k)
  logged : (k : ℕ) → k < c.sent → c.log k < c.i + has_copied c.at
  ordered : (k k' : ℕ) → k < k' → k' < c.sent → c.log k < c.log k'

slot-ne : (j k : ℕ) → j < k → k < j + nmesg → k % nmesg * mesgsize ≢ j % nmesg * mesgsize
slot-ne j k lo hi e = omega arith

module _ {m : Shmstruct} {c : Client} {s : Server} (v : IsSound m c s) (h : HoldsTexts m c s) where
  module _ (nloop : ℕ) {l : Sent} where
    client-offsets :
        (at : Send) → client nloop 0 m c at ≡ some l → (k : ℕ) → l.mem.msgoff k ≡ k * mesgsize
    unfolding client
    client-offsets k_copy e k = ground (arith, h.offsets k)
    client-offsets _ e k = ground (arith, h.offsets k)

    client-window :
        (at : Send)
        → c.at ≡ at
        → client nloop 0 m c at ≡ some l
        → (k : ℕ) → s.printed ≤ k
        → k < l.client.sent
        → l.mem.msgdata (k % nmesg * mesgsize) ≡ some (0, l.client.log k)
    unfolding client
    client-window k_copy q e k lo hi = elim (dec_lt k c.sent) [
      | yes x ↦ ground (arith, h.window k, slot-ne k c.sent, v)
      | no x ↦ let y : k ≡ c.sent = ground arith in ground (arith, v)
    ]
    client-window _ q e k lo hi = ground (arith, h.window k)

    client-printed :
        (at : Send)
        → client nloop 0 m c at ≡ some l
        → s.printed ≤ c.sent
        → (k : ℕ) → k < s.printed
        → s.out k ≡ some (0, l.client.log k)
    unfolding client
    client-printed k_copy e le k hi = ground (arith, h.printed_all k)
    client-printed _ e le k hi = ground (arith, h.printed_all k)

    client-logged :
        (at : Send)
        → c.at ≡ at
        → client nloop 0 m c at ≡ some l
        → (k : ℕ) → k < l.client.sent
        → l.client.log k < l.client.i + has_copied l.client.at
    unfolding client
    client-logged k_copy q e k hi = ground (arith, h.logged k)
    client-logged _ q e k hi = ground (arith, h.logged k)

    client-ordered :
        (at : Send)
        → c.at ≡ at
        → client nloop 0 m c at ≡ some l
        → (k k' : ℕ) → k < k'
        → k' < l.client.sent
        → l.client.log k < l.client.log k'
    unfolding client
    client-ordered k_copy q e k k' lo hi = ground (arith, h.ordered k k', h.logged k)
    client-ordered _ q e k k' lo hi = ground (arith, h.ordered k k')

  server-HoldsTexts :
      {l : Received} (at : Receive)
      → s.at ≡ at
      → server m s at ≡ some l
      → HoldsTexts l.mem c l.server
  unfolding server
  server-HoldsTexts s_print q e = record {
    offsets = λ k. ground (arith, h.offsets k);
    window = λ k lo hi. ground (arith, h.window k);
    printed_all = λ k hi. ground (arith, h.printed_all k, h.window s.printed, h.offsets s.index, v);
    logged = λ k hi. ground (arith, h.logged k);
    ordered = λ k k' lo hi. ground (arith, h.ordered k k');
  }
  server-HoldsTexts s_wait_stored q e = record {
    offsets = λ k. ground (arith, h.offsets k);
    window = λ k lo hi. ground (arith, h.window k);
    printed_all = λ k hi. ground (arith, h.printed_all k);
    logged = λ k hi. ground (arith, h.logged k);
    ordered = λ k k' lo hi. ground (arith, h.ordered k k');
  }
  server-HoldsTexts _ q e = record {
    offsets = λ k. ground (arith, h.offsets k);
    window = λ k lo hi. ground (arith, h.window k);
    printed_all = λ k hi. ground (arith, h.printed_all k);
    logged = λ k hi. ground (arith, h.logged k);
    ordered = λ k k' lo hi. ground (arith, h.ordered k k');
  }

-- The invariant of a run with one client, which is client 0.
record IsGood (s : System) : Type 0 where
  sound : IsSound s.mem (s.clients 0) s.srv
  texts : HoldsTexts s.mem (s.clients 0) s.srv

main-IsGood : (nloop : ℕ) → IsGood (main nloop)
main-IsGood nloop = record {
  sound = ground arith;
  texts = record {
    offsets = λ k. refl;
    window = λ k lo hi. absurd (omega arith);
    printed_all = λ k hi. absurd (omega arith);
    logged = λ k hi. absurd (omega arith);
    ordered = λ k k' lo hi. absurd (omega arith);
  };
}

sends-IsGood :
    (nloop : ℕ) {s : System} {l : Sent}
    → client nloop 0 s.mem (s.clients 0) (s.clients 0).at ≡ some l
    → IsGood s
    → IsGood (record s { mem = l.mem; clients = update s.clients 0 l.client })
sends-IsGood nloop {s} e g =
    let at = (s.clients 0).at in
    record {
      sound = client-IsSound g.sound g.texts.offsets nloop 0 at refl e;
      texts = record {
        offsets = client-offsets g.sound g.texts nloop at e;
        window = client-window g.sound g.texts nloop at refl e;
        printed_all = client-printed g.sound g.texts nloop at e (omega (arith, g.sound));
        logged = client-logged g.sound g.texts nloop at refl e;
        ordered = client-ordered g.sound g.texts nloop at refl e;
      };
    }

at_zero :
    (nloop : ℕ) {s : System} {l : Sent} (j : ℕ)
    → j < 1
    → client nloop j s.mem (s.clients j) (s.clients j).at ≡ some l
    → IsGood s
    → IsGood (record s { mem = l.mem; clients = update s.clients j l.client })
at_zero nloop zero lt e g = sends-IsGood nloop e g
at_zero nloop (suc j) lt e g = absurd (omega arith)

Reach-IsGood : {nloop : ℕ} {s : System} → Reach nloop 1 s → IsGood s
Reach-IsGood {nloop} start = main-IsGood nloop
Reach-IsGood {nloop} (later r (sends j lt e)) = at_zero nloop j lt e (Reach-IsGood r)
Reach-IsGood (later {s} r (receives e)) =
    let g = Reach-IsGood r in
    record {
      sound = server-IsSound g.sound g.texts.offsets s.srv.at refl e;
      texts = server-HoldsTexts g.sound g.texts s.srv.at refl e;
    }

-- With one client, in a reachable state: the texts that the server has printed are the first ones
-- that the client has sent, in order; their rounds go up; and every round that the client has
-- finished was either sent or counted as an overflow.
pub printed_in_order :
    {nloop : ℕ} {s : System}
    → Reach nloop 1 s
    → (s.srv.printed ≤ (s.clients 0).sent)
      × ((k : ℕ) → k < s.srv.printed → s.srv.out k ≡ some (0, (s.clients 0).log k))
      × ((k k' : ℕ) → k < k' → k' < (s.clients 0).sent → (s.clients 0).log k < (s.clients 0).log k')
      × ((s.clients 0).i ≤ (s.clients 0).sent + s.mem.noverflow)
      × ((s.clients 0).sent + s.mem.noverflow ≤ (s.clients 0).i + 1)
printed_in_order r =
    let g = Reach-IsGood r in
    (
      omega (arith, g.sound),
      g.texts.printed_all,
      g.texts.ordered,
      ground (arith, g.sound),
      ground (arith, g.sound),
    )
