-- ===== src/ModTable/Registry/Runs.antt =====
-- Over all sequences of the operations of src/mod_table.c: the slots stay sound.
use fastrpc.Common.{
  ℕ, Option, ◌<◌, ◌≡◌, ◌↔◌, inl, inr, refl, Bool, true, false, ◌&&◌, some, Option-cases, List, [],
  ◌==◌, arith,
}
use fastrpc.ModTable.Close.{
  mod_close, end_call, Functions, register_override, register_static, register_const,
}
use fastrpc.ModTable.Load.{mod_open}
use fastrpc.ModTable.Registry.Loading.{mod_open-IsSound}
use fastrpc.ModTable.Registry.{
  IsSlot, IsSound, HasKeys, SameSlots, mod-IsSound, first_slot-none, SameSlots-IsSound,
}
use fastrpc.ModTable.{
  StaticMod, ConstMod, ModTable, Loader, max_rev_handles, key_of, find_open, blank_mod, one_more,
  set_slot,
}
use fastrpc.ModTable.Registry.Steps.{find_open-IsListed, mod_close-IsSound, end_call-IsSound}

-- A step: an operation with any name, handle or registration, and the two ends of an invocation by
-- itself, so that the module's function and other threads can work in between. An invocation ends while
-- its slot is in use: no module is closed more often than it was opened.
pub data Step (l : Loader) : ModTable → ModTable → Type 0 where
  opened : (t : ModTable) (uri : List ℕ) → Step l t (mod_open l uri t).table
  closed : (t : ModTable) (handle : ℕ) → Step l t (mod_close l handle t).1
  begun :
      (t : ModTable) (handle i : ℕ)
      → find_open t handle ≡ some i
      → Step l t (set_slot i (one_more (t.slots i)) t)
  ended :
      (t : ModTable) (i : ℕ) → i < max_rev_handles → t.is_open i ≡ true → Step l t (end_call i t)
  overridden : (t : ModTable) (m : Bool) (s : StaticMod) → Step l t (register_override m s t).1
  registered : (t : ModTable) (m : Bool) (s : StaticMod) → Step l t (register_static m s t).1
  const_registered : (t : ModTable) (m : Bool) (c : ConstMod) → Step l t (register_const m c t).1

pub data Reach (l : Loader) (s : ModTable) : ModTable → Type 0 where
  here : Reach l s s
  next : {t u : ModTable} → Reach l s t → Step l t u → Reach l s u

-- Functions that work on the table by its operations, and leave a module in use that has two references
-- or more: its own, for a function that closes what it opens.
pub record UsesTable (l : Loader) (run : Functions) : Type 0 where
  pub uses : (f : ℕ) (h : Option ℕ) (t : ModTable) → Reach l t (run f h t).1
  pub keeps :
      (f : ℕ) (h : Option ℕ) (t : ModTable) (i : ℕ)
      → t.is_open i ≡ true
      → 1 < (t.slots i).refs
      → (run f h t).1.is_open i ≡ true

registered-SameSlots :
    (m : Bool) (s : StaticMod) (t : ModTable) → SameSlots t (register_static m s t).1
unfolding register_static
registered-SameSlots m s t = ground arith

overridden-SameSlots :
    (m : Bool) (s : StaticMod) (t : ModTable) → SameSlots t (register_override m s t).1
unfolding register_override
overridden-SameSlots m s t = ground arith

const-SameSlots : (m : Bool) (c : ConstMod) (t : ModTable) → SameSlots t (register_const m c t).1
unfolding register_const
const-SameSlots m c t = ground arith

Step-IsSound : {l : Loader} {t u : ModTable} → HasKeys l → Step l t u → IsSound l t → IsSound l u
Step-IsSound {l} k (opened t uri) s = mod_open-IsSound l uri t k s
Step-IsSound {l} k (closed t handle) s = mod_close-IsSound l handle t s
Step-IsSound {l} k (begun t handle i e) s =
    let f = find_open-IsListed t handle i e in
    mod-IsSound l t i (one_more (t.slots i)) s (ground (arith, s i f.in_table, f))
Step-IsSound {l} k (ended t i lt listed) s = end_call-IsSound l i t lt listed s
Step-IsSound {l} k (overridden t m c) s =
    SameSlots-IsSound l t (register_override m c t).1 (overridden-SameSlots m c t) s
Step-IsSound {l} k (registered t m c) s =
    SameSlots-IsSound l t (register_static m c t).1 (registered-SameSlots m c t) s
Step-IsSound {l} k (const_registered t m c) s =
    SameSlots-IsSound l t (register_const m c t).1 (const-SameSlots m c t) s

pub Reach-IsSound :
    {l : Loader} {s t : ModTable} → HasKeys l → IsSound l s → Reach l s t → IsSound l t
Reach-IsSound k h here = h
Reach-IsSound k h (next r step) = Step-IsSound k step (Reach-IsSound k h r)

-- The table with no module in it.
abbrev pub no_modules : ModTable
no_modules = record {
  slots = λ i. blank_mod [];
  is_open = λ i. false;
  overrides = [];
  statics = [];
  consts = [];
  log = [];
}

-- The handle of a listed slot finds that slot.
pub find_open-key :
    (l : Loader) (t : ModTable) (handle i : ℕ)
    → IsSound l t
    → i < max_rev_handles
    → t.is_open i ≡ true
    → handle ≡ key_of l i
    → find_open t handle ≡ some i
find_open-key l t handle i s lt listed key = elim (Option-cases (find_open t handle)) [
  | inl n ↦
      let p = λ (j : ℕ). t.is_open j && (t.slots j).key == handle in
      let miss : p i ≡ false =
        first_slot-none p 0 max_rev_handles i (unfold find_open in n) (omega arith) lt in
      absurd (ground (arith, s i lt))
  | inr (j, n) ↦
      let f = find_open-IsListed t handle j n in
      let same : j ≡ i = ground (arith, s j f.in_table, f, s i lt) in rw (← same) n
]

-- Over all sequences of openings, closings and registrations and of beginnings and ends of invocations
-- from the empty table, where an invocation ends while its slot is in use, with any loader whose table
-- has no slot at address zero: a slot is in the hash table, with the key that its own address gives and
-- at least one reference, or it is free; and a handle finds the one slot whose address it is.
pub Reach-IsSlot :
    {l : Loader} {t : ModTable} (i handle : ℕ)
    → HasKeys l
    → Reach l no_modules t
    → i < max_rev_handles
    → IsSlot l i (t.slots i) (t.is_open i)
      × ((find_open t handle ≡ some i) ↔ ((t.is_open i ≡ true) × (handle ≡ key_of l i)))
Reach-IsSlot {l} {t} i handle k r lt =
    let s = Reach-IsSound k (λ j h. inr (refl, refl)) r in
    (
      s i lt,
      (
        λ e.
            let f = find_open-IsListed t handle i e in
            (f.listed, ground (arith, s i lt, f.has_key, f.listed)),
        λ h. find_open-key l t handle i s lt (h.0) (h.1),
      ),
    )
