-- ===== src/ModTable/Registry/Openings.antt =====
-- The operations of src/mod_table.c that open a module keep its slots sound.
use fastrpc.Common.{
  ℕ, ◌+◌, ◌≡◌, inl, inr, refl, Bool, true, not, ◌&&◌, Bool-cases, none, some, Option-cases, List,
  ◌==◌, if◌then◌else◌, put_at, leb, arith,
}
use fastrpc.Ioctl.{aee_enomemory}
use fastrpc.Mem.Handles.{aee_einvhandle}
use fastrpc.ModTable.Open.{
  Opened, refused, keyed, reuse, find_static, free_slot, enter_static, static_in_slot,
  open_from_static, name_room,
}
use fastrpc.ModTable.Registry.{
  IsSlot, IsSound, HasKeys, IsUnlisted, first_slot-some, slot-IsSound, mod-IsSound,
  next_available-IsUnlisted,
}
use fastrpc.ModTable.{
  OpenMod, StaticMod, ModTable, Loader, handle_opened, log_event, max_rev_handles, rev_handle_size,
  sizeof_open_mod, blank_mod, key_of, set_slot, find_opened, next_available, one_more, same_text,
}

-- The search for an open module: one reference more.
reuse-IsSound :
    (l : Loader) (t : ModTable) (uri : List ℕ) (fresh : Opened)
    → HasKeys l
    → IsSound l t
    → IsSound l fresh.table
    → IsSound l (reuse uri fresh t).table
reuse-IsSound l t uri fresh k s h = elim (Option-cases (find_opened t uri)) [
  | inl n ↦ rw (n, reuse) h
  | inr (i, e) ↦ rw (e, reuse) (mod-IsSound l t i (one_more (t.slots i)) s (reused i e))
]
  where
    reused : (i : ℕ) → find_opened t uri ≡ some i → IsSlot l i (one_more (t.slots i)) (t.is_open i)
    reused i e =
        let r =
          first_slot-some (λ (j : ℕ). not ((t.slots j).key == 0) && same_text (t.slots j).uri uri) 0
            max_rev_handles i (unfold find_opened in e) in
        ground (arith, s i (omega (arith, r.2)), r.0)

-- A slot that is not listed may become any module without a key.
pub free_slot-IsSound :
    (l : Loader) (t : ModTable) (i : ℕ) (m : OpenMod)
    → IsSound l t
    → IsUnlisted t i
    → IsSound l (free_slot i m t)
free_slot-IsSound l t i m s f = mod-IsSound l t i (record m { key = 0 }) s (inr (f.unlisted, refl))

-- It may be listed with its key.
pub listed-IsSound :
    (l : Loader) (t : ModTable) (i : ℕ) (m : OpenMod)
    → IsSound l t
    → m.key ≡ key_of l i
    → m.refs ≡ 1
    → IsSound l (record (set_slot i m t) { is_open = put_at t.is_open i true })
listed-IsSound l t i m s e r = slot-IsSound l t i m true s (inl (refl, e, omega (arith, r)))

enter_static-IsSound :
    (l : Loader) (i : ℕ) (uri : List ℕ) (m : OpenMod) (t : ModTable)
    → IsSound l t
    → IsUnlisted t i
    → m.key ≡ key_of l i
    → m.refs ≡ 1
    → IsSound l (enter_static l i uri m t).table
unfolding enter_static
enter_static-IsSound l i uri m t s f e r = elim (Option-cases m.handle_invoke) [
  | inl n ↦ rw (n, enter_static) (listed-IsSound l t i m s e r)
  | inr (g, n) ↦ elim (Bool-cases ((l.open_handle g t.log uri).0 == 0)) [
    | inl ok ↦
        rw (n, enter_static)
          (rw ok (
            listed-IsSound l (log_event (handle_opened g (l.open_handle g t.log uri).1) t) i
              (record m { h64 = (l.open_handle g t.log uri).1 }) s e r))
    | inr bad ↦ rw (n, enter_static) (rw bad (free_slot-IsSound l t i m s f))
  ]
]

static_in_slot-IsSound :
    (l : Loader) (mods : List StaticMod) (uri : List ℕ) (i : ℕ) (t : ModTable)
    → IsSound l t
    → IsUnlisted t i
    → IsSound l (static_in_slot l mods uri i t).table
unfolding static_in_slot
static_in_slot-IsSound l mods uri i t s f =
    let found = find_static mods (blank_mod uri) in
    elim (Option-cases (found.1)) [
      | inl n ↦ rw (n, static_in_slot) (free_slot-IsSound l t i (found.2) s f)
      | inr (g, n) ↦
          rw (n, static_in_slot)
            (enter_static-IsSound l i uri
              (keyed l i (record (found.2) { invoke = g.invoke; handle_invoke = g.handle_invoke }))
              t s f refl refl)
    ]

-- A search for an open module, and for a free slot where there is none.
pub searched-IsSound :
    (l : Loader) (t : ModTable) (uri : List ℕ) (in_slot : ℕ → Opened) (fits : Bool)
    → HasKeys l
    → IsSound l t
    → ((i : ℕ) → IsUnlisted t i → IsSound l (in_slot i).table)
    → let fresh : Opened = elim (next_available t) [
      | none ↦ refused aee_einvhandle t
      | some i ↦ in_slot i
    ] in
      IsSound l (if fits then reuse uri fresh t else refused aee_enomemory t).table
searched-IsSound l t uri in_slot fits k s h = elim (Bool-cases fits) [
  | inr n ↦ rw n s
  | inl y ↦ rw y (elim (Option-cases (next_available t)) [
    | inl n ↦ rw n (reuse-IsSound l t uri (refused aee_einvhandle t) k s s)
    | inr (i, n) ↦
        rw n (reuse-IsSound l t uri (in_slot i) k s (h i (next_available-IsUnlisted l t i k s n)))
  ])
]

pub open_from_static-IsSound :
    (l : Loader) (mods : List StaticMod) (uri : List ℕ) (t : ModTable)
    → HasKeys l
    → IsSound l t
    → IsSound l (open_from_static l mods uri t).table
unfolding open_from_static
open_from_static-IsSound l mods uri t k s =
    searched-IsSound l t uri (λ i. static_in_slot l mods uri i t)
      (leb (sizeof_open_mod + name_room uri) rev_handle_size) k s
      (λ i f. static_in_slot-IsSound l mods uri i t s f)
