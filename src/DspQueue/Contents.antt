-- ===== src/DspQueue/Contents.antt =====
-- The packets that a queue's memory holds between the read and the write position, oldest first.
use fastrpc.Common.{
  ℕ, ◌+◌, ◌-◌, ◌*◌, ◌%◌, ◌≤◌, ◌<◌, ◌≡◌, ap, subst, ◌∙◌, Bool, true, some, ◌⊎◌, arith, leb, ltb,
  if◌then◌else◌, Bytes, at, has_bit, List, [], ◌∷◌, ◌++◌, from_le-congr,
}
use fastrpc.DspQueue.State.{Buffer, flag_user_ready}
use fastrpc.DspQueue.Header.{peek_locked, parse_header}
use fastrpc.DspQueue.Transfer.{buffer_bytes}
use fastrpc.DspQueue.Emit.{span8}

-- A packet as the reader is to get it.
pub record Item : Type 0 where
  pub flags : ℕ
  pub num_buffers : ℕ
  pub buffers : ℕ → Buffer
  pub message_length : ℕ
  pub message : Bytes

abbrev pub item_length : Item → ℕ
item_length it = 8 + it.num_buffers * 24 + it.message_length

-- Whether the packet whose header stands at `r` has been moved to the start of the queue.
abbrev pub is_moved : ℕ → ℕ → Item → Bool
is_moved qsize r it = ltb (qsize - r) (item_length it)

abbrev pub item_start : ℕ → ℕ → Item → ℕ
item_start qsize r it = if is_moved qsize r it then 0 else r

-- The bytes that reading the packet frees.
abbrev pub item_span : ℕ → ℕ → Item → ℕ
item_span qsize r it = (if is_moved qsize r it then qsize - r else 0) + span8 (item_length it)

-- The position `n` bytes on from `r`.
abbrev pub advance : ℕ → ℕ → ℕ → ℕ
advance qsize r n = if leb qsize (r + n) then r + n - qsize else r + n

-- The packet `it` is at position `r` of the memory.
pub record Stored (mem : Bytes) (qsize r : ℕ) (it : Item) : Type 0 where
  pub header :
      peek_locked mem r
      ≡ some (record {
        flags = it.flags;
        num_buffers = it.num_buffers;
        message_length = it.message_length;
      })
  pub buffers_at :
      (i : ℕ)
      → i < it.num_buffers * 24
      → mem (item_start qsize r it + 8 + i) ≡ buffer_bytes it.buffers i
  pub message_at :
      (i : ℕ)
      → i < it.message_length
      → mem (item_start qsize r it + 8 + it.num_buffers * 24 + i) ≡ it.message i
  pub ready : has_bit it.flags flag_user_ready ≡ true
  pub buffers_le : it.num_buffers ≤ 64
  pub message_le : it.message_length ≤ 65536

-- The `n` bytes from position `r` on hold exactly these packets.
abbrev pub Contents : Bytes → ℕ → ℕ → ℕ → List Item → Type 0
Contents mem qsize r n [] = n ≡ 0
Contents mem qsize r n (it ∷ its) =
    Stored mem qsize r it
    × (item_span qsize r it ≤ n)
    × Contents mem qsize (advance qsize r (item_span qsize r it)) (n - item_span qsize r it) its

-- Index `i` is one of the `n` bytes from position `r` on, going round at `qsize`.
abbrev pub InUse : ℕ → ℕ → ℕ → ℕ → Type 0
InUse qsize r n i = (i < qsize) × (((r ≤ i) × (i < r + n)) ⊎ (i + qsize < r + n))

-- Two memories agree on these bytes.
abbrev pub Agree : Bytes → Bytes → ℕ → ℕ → ℕ → Type 0
Agree mem mem' qsize r n = (i : ℕ) → InUse qsize r n i → mem' i ≡ mem i

module _ {mem mem' : Bytes} {qsize r n : ℕ} (it : Item) (hq : qsize % 8 ≡ 0) (hr : r % 8 ≡ 0)
    (hrq : r < qsize) (hn : n ≤ qsize) (hs : item_span qsize r it ≤ n)
    (agree : Agree mem mem' qsize r n) where
  same_header : peek_locked mem' r ≡ peek_locked mem r
  unfolding peek_locked
  same_header =
      ap parse_header (from_le-congr 8 (at mem' r) (at mem r) (λ i h. agree (r + i) (ground arith)))

  Stored-agree : Stored mem qsize r it → Stored mem' qsize r it
  Stored-agree s = record {
    header = same_header ∙ s.header;
    buffers_at = λ i h. agree (item_start qsize r it + 8 + i) (ground arith) ∙ s.buffers_at i h;
    message_at = λ i h.
        agree (item_start qsize r it + 8 + it.num_buffers * 24 + i) (ground arith)
        ∙ s.message_at i h;
    ready = s.ready;
    buffers_le = s.buffers_le;
    message_le = s.message_le;
  }

  -- What is left after the packet is still among the bytes on which the memories agree.
  Agree-advance :
      Agree mem mem' qsize (advance qsize r (item_span qsize r it)) (n - item_span qsize r it)
  Agree-advance i u = agree i (ground arith)

-- The packets stay as they are under changes outside the bytes in use.
pub Contents-kept :
    {mem mem' : Bytes} {qsize : ℕ} (r n : ℕ) (its : List Item)
    → qsize % 8 ≡ 0
    → r % 8 ≡ 0
    → r < qsize
    → n ≤ qsize
    → Agree mem mem' qsize r n
    → Contents mem qsize r n its
    → Contents mem' qsize r n its
Contents-kept r n [] hq hr hrq hn agree c = c
Contents-kept {mem} {mem'} {qsize} r n (it ∷ its) hq hr hrq hn agree (s, hs, c) = (
  Stored-agree it hq hr hrq hn hs agree s,
  hs,
  Contents-kept (advance qsize r (item_span qsize r it)) (n - item_span qsize r it) its hq
      (ground arith) (ground arith) (omega arith) (Agree-advance it hq hr hrq hn hs agree) c,
)

-- A packet behind the last one is appended.
pub Contents-append :
    {mem : Bytes} {qsize : ℕ} (r n w m : ℕ) (its : List Item) (it : Item)
    → r < qsize
    → w ≡ advance qsize r n
    → m ≡ n + item_span qsize w it
    → m ≤ qsize
    → Contents mem qsize r n its
    → Stored mem qsize w it
    → Contents mem qsize r m (its ++ it ∷ [])
Contents-append {mem} {qsize} r n w m [] it hrq hw hm hn c s =
    let e : w ≡ r = ground arith in
    let hm' : m ≡ n + item_span qsize r it = hm ∙ ap (λ k. n + item_span qsize k it) e in
    (subst (λ k. Stored mem qsize k it) e s, omega arith, omega arith)
Contents-append {mem} {qsize} r n w m (x ∷ its) it hrq hw hm hn (sx, hs, c) s = (
  sx,
  omega arith,
  Contents-append (advance qsize r (item_span qsize r x)) (n - item_span qsize r x) w
      (m - item_span qsize r x) its it (ground arith) (ground arith) (omega arith) (omega arith) c
      s,
)
