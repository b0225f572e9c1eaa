-- ===== src/DspQueue/Refs.antt =====
-- Reference counts of mapped buffers: `fastrpc_buffer_ref` of src/fastrpc_mem.c on the static mapping
-- list of one domain, the loop over a packet's buffers, and the loop that undoes it.
pub mod Undo
use fastrpc.Common.{
  refl, ap, ◌∙◌, ℕ, zero, suc, ◌+◌, ◌-◌, ◌*◌, ◌%◌, ◌≤◌, ◌<◌, ◌≡◌, Bool, true, false, ◌&&◌, ◌||◌,
  not, Option, none, some, List, [], ◌∷◌, arith, leb, ltb, ◌==◌, if◌then◌else◌, has_bit,
}
use fastrpc.DspQueue.State.{
  Buffer, StaticMap, aee_success, aee_ebadparm, aee_erpc, aee_enosuchmap, buffer_flag_ref,
  buffer_flag_deref,
}

-- The `ref` argument: 0, 1, -1, or any other value.
pub data RefChange : Type 0 where
  keep gain lose other : RefChange

-- The result code, the address and size handed out, and the mapping list afterwards.
pub record RefResult : Type 0 where
  pub code : ℕ
  pub out : Option (ℕ × ℕ)
  pub maps : List StaticMap

-- The part after the search, on the mapping that was found.
unfoldable pub ref_map : StaticMap → RefChange → List StaticMap → RefResult
ref_map m change rest =
    let out : Option (ℕ × ℕ) = some (m.vaddr, m.length) in
    if m.refs == 0 then record { code = aee_erpc; out = none; maps = m ∷ rest } else elim change [
      | keep ↦ record { code = aee_success; out = out; maps = m ∷ rest }
      | gain ↦ record {
        code = aee_success;
        out = out;
        maps = record m { refs = m.refs + 1 } ∷ rest;
      }
      | lose ↦
          if m.refs == 1
          then record { code = aee_ebadparm; out = out; maps = m ∷ rest }
          else record {
            code = aee_success;
            out = out;
            maps = record m { refs = m.refs - 1 } ∷ rest;
          }
      | other ↦ record { code = aee_erpc; out = out; maps = m ∷ rest }
    ]

abbrev pub keep_map : StaticMap → RefResult → RefResult
keep_map m r = record r { maps = m ∷ r.maps }

-- The search for the first mapping of `fd`, and what follows it.
unfoldable pub ref_list : List StaticMap → ℕ → RefChange → RefResult
unfolding ref_map
ref_list [] fd change = record { code = aee_enosuchmap; out = none; maps = [] }
ref_list (m ∷ ms) fd change =
    if m.fd == fd then ref_map m change ms else keep_map m (ref_list ms fd change)

-- NUM_DOMAINS_EXTEND
abbrev pub num_domains_extend : ℕ
num_domains_extend = 32

-- `fastrpc_buffer_ref`
unfoldable pub buffer_ref : ℕ → List StaticMap → ℕ → RefChange → RefResult
unfolding ref_list
buffer_ref domain maps fd change =
    if ltb domain num_domains_extend
    then ref_list maps fd change
    else record { code = aee_ebadparm; out = none; maps = maps }

-- What the loop over the buffers comes to: the result code, `buf_refs`, the address and size that
-- the last call handed out, and the mappings.
pub record RefLoop : Type 0 where
  pub code : ℕ
  pub buf_refs : ℕ
  pub out : Option (ℕ × ℕ)
  pub maps : List StaticMap

-- The reference change that a buffer's flags ask for.
abbrev pub change_of : Buffer → RefChange
change_of b =
    if has_bit b.flags buffer_flag_ref
    then gain
    else if has_bit b.flags buffer_flag_deref
    then lose
    else keep

-- The offset and size test of the loop, on the mapped size.
abbrev pub within_map : Buffer → Option (ℕ × ℕ) → Bool
within_map b none = false
within_map b (some (va, size)) = if b.size == 0 then b.offset == 0 else leb (b.offset + b.size) size

-- One round of the loop for buffer `b` with `i` references handled: the code is zero if the loop
-- goes on, and `range_code` is the code for a range outside the mapping.
unfoldable pub ref_one : ℕ → ℕ → List StaticMap → ℕ → Buffer → RefLoop
unfolding buffer_ref
ref_one range_code domain maps i b =
    if has_bit b.flags buffer_flag_ref && has_bit b.flags buffer_flag_deref
    then record { code = aee_ebadparm; buf_refs = i; out = none; maps = maps }
    else let r = buffer_ref domain maps b.fd (change_of b) in
      if r.code == 0
      then record {
        code = if within_map b r.out then 0 else range_code;
        buf_refs = i + 1;
        out = r.out;
        maps = r.maps;
      }
      else record { code = r.code; buf_refs = i; out = r.out; maps = r.maps }

-- The loop over the `n` buffers from `b` on.
unfoldable pub ref_buffers : ℕ → ℕ → List StaticMap → ℕ → ℕ → (ℕ → Buffer) → RefLoop
ref_buffers range_code domain maps i zero bs = record {
  code = 0;
  buf_refs = i;
  out = none;
  maps = maps;
}
ref_buffers range_code domain maps i (suc n) bs =
    let r = ref_one range_code domain maps i (bs 0) in
    let rest = ref_buffers range_code domain r.maps r.buf_refs n (λ k. bs (suc k)) in
    if r.code == 0 then rest else r

-- One round of the undo loop at `bail`.
abbrev pub undo_one : ℕ → List StaticMap → Buffer → RefResult
undo_one domain maps b =
    if has_bit b.flags buffer_flag_ref
    then buffer_ref domain maps b.fd lose
    else if has_bit b.flags buffer_flag_deref
    then buffer_ref domain maps b.fd gain
    else record { code = 0; out = none; maps = maps }

-- The undo loop of `dspqueue_write_noblock`, over the first `n` buffers, in their order.
unfoldable pub undo_buffers : ℕ → List StaticMap → ℕ → (ℕ → Buffer) → List StaticMap
unfolding buffer_ref
undo_buffers domain maps zero bs = maps
undo_buffers domain maps (suc n) bs =
    undo_buffers domain (undo_one domain maps (bs 0)).maps n (λ k. bs (suc k))

-- The undo loop of `dspqueue_read_noblock`, where the code of each call becomes `nErr`.
unfoldable pub undo_read_buffers : ℕ → ℕ → List StaticMap → ℕ → (ℕ → Buffer) → ℕ × List StaticMap
unfolding buffer_ref
undo_read_buffers code domain maps zero bs = (code, maps)
undo_read_buffers code domain maps (suc n) bs =
    let r = undo_one domain maps (bs 0) in
    let code' =
      if has_bit (bs 0).flags buffer_flag_ref || has_bit (bs 0).flags buffer_flag_deref
      then r.code
      else code in
    undo_read_buffers code' domain r.maps n (λ k. bs (suc k))

-- A received buffer with its address and size in this process.
abbrev pub place_buffer : Buffer → Option (ℕ × ℕ) → Buffer
place_buffer b none = b
place_buffer b (some (va, size)) =
    if b.size == 0
    then record b { address = va; size = size }
    else record b { address = va + b.offset }

-- The buffers as they stand in the packet.
unfoldable pub plain_buffers : ℕ → (ℕ → Buffer) → List Buffer
plain_buffers zero bs = []
plain_buffers (suc n) bs = bs 0 ∷ plain_buffers n (λ k. bs (suc k))

-- The buffers as the loop of `dspqueue_read_noblock` leaves them: those from the first refused one on
-- stay as they stand in the packet.
unfoldable pub place_buffers : ℕ → ℕ → List StaticMap → ℕ → (ℕ → Buffer) → List Buffer
unfolding plain_buffers
place_buffers range_code domain maps zero bs = []
place_buffers range_code domain maps (suc n) bs =
    let r = ref_one range_code domain maps 0 (bs 0) in
    let rest = place_buffers range_code domain r.maps n (λ k. bs (suc k)) in
    if r.code == 0 then place_buffer (bs 0) r.out ∷ rest else plain_buffers (suc n) bs
