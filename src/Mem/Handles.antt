-- ===== src/Mem/Handles.antt =====
-- DMA handles of src/fastrpc_mem.c: the first `dma_handle_count` entries of `dhandles`.
pub mod Cut
pub mod Counts
pub mod Registration
use fastrpc.Common.{
  ℕ, zero, suc, ◌+◌, ◌-◌, ◌&&◌, ◌||◌, not, Bool, Option, none, some, List, [], ◌∷◌, ◌++◌, ltb, ◌==◌,
  if◌then◌else◌, ℤ, pos, negsuc, find, update_first, length, false, true,
}
use fastrpc.DspQueue.State.{aee_ebadparm}

-- `struct dma_handle_info`
pub record DmaHandle : Type 0 where
  pub fd : ℕ
  pub len : ℕ
  pub used : ℕ
  pub attr : ℕ

abbrev pub aee_einvhandle : ℕ
aee_einvhandle = 44

abbrev pub max_dma_handles : ℕ
max_dma_handles = 256

abbrev pub attr_nomap : ℕ
attr_nomap = 16

abbrev pub holds : ℕ → DmaHandle → Bool
holds fd h = ltb 0 h.used && h.fd == fd

abbrev pub is_free : DmaHandle → Bool
is_free h = h.used == 0

-- Another registration: the attribute is set only if there is none.
abbrev pub use_again : ℕ → DmaHandle → DmaHandle
use_again attr h = record h { attr = if h.attr == 0 then attr else h.attr; used = h.used + 1 }

abbrev pub new_handle : ℕ → ℕ → ℕ → DmaHandle
new_handle fd len attr = record { fd = fd; len = len; used = 1; attr = attr }

-- The second loop: the first free entry, or a new one at the end.
unfoldable pub claim : List DmaHandle → DmaHandle → ℕ × List DmaHandle
claim hs h = elim (find is_free hs) [
  | some old ↦ (0, update_first is_free (λ x. h) hs)
  | none ↦ if ltb (length hs) max_dma_handles then (0, hs ++ h ∷ []) else (aee_einvhandle, hs)
]

-- `remote_register_dma_handle_attr`, with the code of `fastrpc_init_once`.
unfoldable pub register_handle : ℕ → List DmaHandle → ℤ → ℕ → ℕ → ℕ × List DmaHandle
unfolding claim
register_handle init_once hs (negsuc n) len attr =
    (if init_once == 0 then aee_ebadparm else init_once, hs)
register_handle init_once hs (pos fd) len attr =
    let fresh = claim hs (new_handle fd len attr) in
    let shared : ℕ × List DmaHandle = (0, update_first (holds fd) (use_again attr) hs) in
    if not (init_once == 0)
    then (init_once, hs)
    else if not (attr == 0 || attr == attr_nomap)
    then (aee_ebadparm, hs)
    else elim (find (holds fd) hs) [ none ↦ fresh | some h ↦ shared ]

-- The first `n` entries, where `dma_handle_count` becomes `n`.
unfoldable pub take_handles : ℕ → List DmaHandle → List DmaHandle
take_handles zero hs = []
take_handles (suc n) [] = []
take_handles (suc n) (h ∷ hs) = h ∷ take_handles n hs

-- The index of the entry in use for `fd` from index `i` on, with `last_used` when the loop gets there.
unfoldable pub seek : ℕ → ℕ → ℕ → List DmaHandle → Option (ℕ × (ℕ × DmaHandle))
seek fd i last_used [] = none
seek fd i last_used (h ∷ hs) =
    let rest = seek fd (i + 1) (if is_free h then last_used else i) hs in
    if holds fd h then some (i, (last_used, h)) else rest

abbrev pub use_less : DmaHandle → DmaHandle
use_less h = record h { used = h.used - 1 }

-- `unregister_dma_handle`: `*len`, `*attr` and the entries.
unfoldable pub unregister_handle : List DmaHandle → ℕ → ℕ × (ℕ × List DmaHandle)
unfolding take_handles seek
unregister_handle hs fd = elim (seek fd 0 0 hs) [
  | none ↦ (0, (0, hs))
  | some (i, (last_used, h)) ↦
      let hs' = update_first (holds fd) use_less hs in
      let cut =
        if i + 1 == length hs && h.used == 1 then take_handles (last_used + 1) hs' else hs' in
      (h.len, (h.attr, cut))
]
