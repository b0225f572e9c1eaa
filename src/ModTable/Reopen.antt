-- ===== src/ModTable/Reopen.antt =====
-- Opening a module of src/mod_table.c that is open: one reference more, until it is closed once.
use fastrpc.Common.{
  ℕ, ◌+◌, ◌≤◌, ◌<◌, ◌≡◌, inl, inr, refl, ◌∙◌, ap, Bool, true, false, not, ◌&&◌, Bool-cases, some,
  List, length, leb, ◌==◌, if◌then◌else◌, put_at_back, put_at_there, arith,
}
use fastrpc.ModTable.Close.{one_less, unlink_with, close_unlink, close_release, mod_close}
use fastrpc.ModTable.Open.{given, reuse, open_from_static, name_room}
use fastrpc.ModTable.Load.{open_dynamic, mod_open}
use fastrpc.ModTable.Registry.Steps.{less_more}
use fastrpc.ModTable.Registry.Runs.{find_open-key}
use fastrpc.ModTable.Registry.{IsSound, first_slot-some, mod-IsSound}
use fastrpc.ModTable.{
  OpenMod, ModTable, Loader, max_rev_handles, rev_handle_size, sizeof_open_mod, key_of, set_slot,
  find_opened, find_open, one_more, same_text,
}

-- A name that is open gives its handle again.
mod_open-opened :
    (l : Loader) (uri : List ℕ) (t : ModTable) (i : ℕ)
    → length uri ≤ 111
    → find_opened t uri ≡ some i
    → mod_open l uri t ≡ given (t.slots i).key (set_slot i (one_more (t.slots i)) t)
unfolding mod_open open_from_static open_dynamic
mod_open-opened l uri t i short e =
    elim (Bool-cases (leb (sizeof_open_mod + name_room uri) rev_handle_size)) [
      | inl y ↦ rw (y, open_from_static) (rw (e, reuse) refl)
      | inr n ↦
          let fits : leb (sizeof_open_mod + length uri + 1) rev_handle_size ≡ true = ground arith in
          rw (n, open_from_static) (rw (fits, open_dynamic) (rw (e, reuse) refl))
    ]

-- A close that finds more than one reference.
close_again :
    (l : Loader) (t : ModTable) (i : ℕ)
    → let u = set_slot i (one_more (t.slots i)) t in
      find_open u (key_of l i) ≡ some i
      → ((t.slots i).refs == 0) ≡ false
      → mod_close l (key_of l i) u ≡ (0, t)
unfolding mod_close close_unlink
close_again l t i found pos =
    let m = t.slots i in
    let u = set_slot i (one_more m) t in
    let same : one_less (u.slots i) ≡ m =
      ap one_less (put_at_there t.slots i (one_more m)) ∙ less_more m in
    let kept : close_unlink i u ≡ (false, t) =
      ap (λ (n : OpenMod). unlink_with n i u) same
      ∙ rw pos (
          ap (λ (slots : ℕ → OpenMod). (false, record t { slots = slots }))
            (put_at_back t.slots i (one_more m) m refl)) in
    rw (found, mod_close)
      (ap (λ (r : Bool × ModTable). if r.0 then close_release l i (r.1) else (0, r.1)) kept)

-- With a sound table, opening a module that is open already, by a name of at most 111 bytes, gives the
-- handle that it has; closing that handle then succeeds, releases nothing, and leaves the table as it
-- was before both.
pub mod_close-mod_open :
    (l : Loader) (uri : List ℕ) (t : ModTable) (i : ℕ)
    → IsSound l t
    → length uri ≤ 111
    → find_opened t uri ≡ some i
    → t.is_open i ≡ true
    → let o = mod_open l uri t in
      (o.code ≡ 0) × (o.handle ≡ some (key_of l i)) × (mod_close l (key_of l i) o.table ≡ (0, t))
mod_close-mod_open l uri t i s short e listed =
    let m = t.slots i in
    let u = set_slot i (one_more m) t in
    let r =
      first_slot-some (λ (j : ℕ). not ((t.slots j).key == 0) && same_text (t.slots j).uri uri) 0
        max_rev_handles i (unfold find_opened in e) in
    let lt : i < max_rev_handles = omega (arith, r.2) in
    let key : m.key ≡ key_of l i = ground (arith, s i lt, listed) in
    let pos : (m.refs == 0) ≡ false = ground (arith, s i lt, listed) in
    let sound = mod-IsSound l t i (one_more m) s (ground (arith, s i lt, listed)) in
    let found : find_open u (key_of l i) ≡ some i =
      find_open-key l u (key_of l i) i sound lt listed refl in
    rw (mod_open-opened l uri t i short e) (refl, ap some key, close_again l t i found pos)
