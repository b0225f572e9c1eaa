-- ===== src/ModTable/Libraries/Steps.antt =====
-- Over all sequences of the operations of src/mod_table.c: no library is lost or closed too often.
use fastrpc.Common.{
  ℕ, ◌+◌, ◌<◌, ◌∙◌, ap, true, false, ◌==◌, put_at, put_at_there, ◌≡◌, refl, Bool, Bool-cases, inl,
  inr, Option-cases, arith,
}
use fastrpc.ModTable.Close.{
  one_less, without_key, end_with, end_call, register_override, register_static, register_const,
}
use fastrpc.ModTable.Libraries.Loading.{mod_open-Owes}
use fastrpc.ModTable.Libraries.{
  libs_opened, libs_closed, libs_held, has_lib, Owes, mod_close-Owes, set_slot-Owes, unlisted-Owes,
  release_lib-Owes, release_handle-Owes,
}
use fastrpc.ModTable.Registry.Steps.{find_open-IsListed}
use fastrpc.ModTable.Registry.Runs.{
  Step, opened, closed, begun, ended, overridden, registered, const_registered, Reach, here, next,
  no_modules, Reach-IsSound,
}
use fastrpc.ModTable.Registry.{IsSound, HasKeys, released-SameSlots}
use fastrpc.ModTable.{
  StaticMod, ConstMod, ModTable, Loader, max_rev_handles, find_const, set_slot, one_more,
  release_lib, release_handle,
}

const-Owes :
    (lib : ℕ) (m : Bool) (c : ConstMod) (t : ModTable)
    → Owes lib 0 t
    → Owes lib 0 (register_const m c t).1
unfolding register_const
const-Owes lib m c t h = elim (Bool-cases m) [
  | inr n ↦ rw n h
  | inl y ↦ rw y (elim (Option-cases (find_const t c.key)) [
    | inl n ↦ rw (n, register_const) h
    | inr (old, n) ↦ rw (n, register_const) h
  ])
]

static-Owes :
    (lib : ℕ) (m : Bool) (s : StaticMod) (t : ModTable)
    → Owes lib 0 t
    → Owes lib 0 (register_static m s t).1
unfolding register_static
static-Owes lib m s t h = elim (Bool-cases m) [ inl y ↦ rw y h | inr n ↦ rw n h ]

override-Owes :
    (lib : ℕ) (m : Bool) (s : StaticMod) (t : ModTable)
    → Owes lib 0 t
    → Owes lib 0 (register_override m s t).1
unfolding register_override
override-Owes lib m s t h = elim (Bool-cases m) [ inl y ↦ rw y h | inr n ↦ rw n h ]

-- The end of a call gives a reference back, and the library with the last one.
end_call-Owes :
    (lib i : ℕ) (t : ModTable)
    → i < max_rev_handles
    → t.is_open i ≡ true
    → Owes lib 0 t
    → Owes lib 0 (end_call i t)
unfolding end_call end_with
end_call-Owes lib i t lt listed o =
    let m = one_less (t.slots i) in
    let u = record (set_slot i m t) { is_open = put_at t.is_open i false } in
    elim (Bool-cases (m.refs == 0)) [
      | inr more ↦ rw more (set_slot-Owes lib 0 i m t lt refl o)
      | inl last ↦
          let w = release_lib m (release_handle m u) in
          let same = released-SameSlots m u in
          let free : w.is_open i ≡ false =
            ap (λ (f : ℕ → Bool). f i) (same.1) ∙ put_at_there t.is_open i false in
          let owed = unlisted-Owes lib 0 i m t lt listed o in
          let closed =
            release_lib-Owes lib 0 m (release_handle m u)
              (release_handle-Owes lib (0 + has_lib lib m.dlhandle) m u owed) in
          rw last (set_slot-Owes lib 0 i (without_key m) w lt (rw free refl) closed)
    ]

Step-Owes :
    {l : Loader} {t u : ModTable} (lib : ℕ)
    → HasKeys l
    → Step l t u
    → IsSound l t
    → Owes lib 0 t
    → Owes lib 0 u
Step-Owes {l} lib k (opened t uri) s o = mod_open-Owes lib l uri t k s o
Step-Owes {l} lib k (closed t handle) s o = mod_close-Owes lib l handle t o
Step-Owes lib k (begun t handle i e) s o =
    let f = find_open-IsListed t handle i e in
    set_slot-Owes lib 0 i (one_more (t.slots i)) t f.in_table refl o
Step-Owes lib k (ended t i lt listed) s o = end_call-Owes lib i t lt listed o
Step-Owes lib k (overridden t m c) s o = override-Owes lib m c t o
Step-Owes lib k (registered t m c) s o = static-Owes lib m c t o
Step-Owes lib k (const_registered t m c) s o = const-Owes lib m c t o

pub Reach-Owes :
    {l : Loader} {s t : ModTable} (lib : ℕ)
    → HasKeys l
    → IsSound l s
    → Owes lib 0 s
    → Reach l s t
    → Owes lib 0 t
Reach-Owes lib k h o here = o
Reach-Owes lib k h o (next r step) =
    Step-Owes lib k step (Reach-IsSound k h r) (Reach-Owes lib k h o r)

-- Over all sequences of openings, closings and registrations and of beginnings and ends of invocations
-- from the empty table, where an invocation ends while its slot is in use, with any answers of the
-- loader: every library was opened as often as it was closed and is held by slots in use. So a failed
-- opening closes the library that it opened, and the last reference to a module closes its library.
pub Reach-libs_held :
    {l : Loader} {t : ModTable} (lib : ℕ)
    → HasKeys l
    → Reach l no_modules t
    → libs_opened lib t.log
      ≡ libs_closed lib t.log + libs_held lib max_rev_handles t.slots t.is_open
unfolding libs_opened libs_closed libs_held
Reach-libs_held lib k r = omega (arith, Reach-Owes lib k (λ i lt. inr (refl, refl)) (omega arith) r)
