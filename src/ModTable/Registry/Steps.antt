-- ===== src/ModTable/Registry/Steps.antt =====
-- The single operations of src/mod_table.c: the slots stay sound.
use fastrpc.Common.{
  ℕ, ◌<◌, ◌≡◌, inl, inr, refl, sym, ◌∙◌, ap, true, false, ◌&&◌, Bool-cases, Option, none, some,
  Option-cases, ◌==◌, put_at, put_at_twice, arith,
}
use fastrpc.ModTable.Close.{
  one_less, without_key, close_unlink, close_release, mod_close, end_with, end_call, ending,
}
use fastrpc.ModTable.Registry.{
  IsSound, SameSlots, first_slot-some, slot-IsSound, mod-IsSound, SameSlots-IsSound,
  released-SameSlots,
}
use fastrpc.ModTable.{
  release_handle, release_lib, OpenMod, ModTable, Loader, max_rev_handles, set_slot, find_open,
  one_more,
}

-- A slot that a handle is found at.
pub record IsListed (t : ModTable) (handle i : ℕ) : Type 0 where
  pub in_table : i < max_rev_handles
  pub listed : t.is_open i ≡ true
  pub has_key : (t.slots i).key ≡ handle

pub find_open-IsListed :
    (t : ModTable) (handle i : ℕ) → find_open t handle ≡ some i → IsListed t handle i
unfolding find_open
find_open-IsListed t handle i h =
    let r =
      first_slot-some (λ (j : ℕ). t.is_open j && (t.slots j).key == handle) 0 max_rev_handles i h in
    record {
      in_table = omega (arith, r.2);
      listed = ground (arith, r.0);
      has_key = ground (arith, r.0);
    }

close_unlink-IsSound :
    (l : Loader) (t : ModTable) (handle i : ℕ)
    → IsSound l t
    → IsListed t handle i
    → IsSound l (close_unlink i t).1
unfolding close_unlink
close_unlink-IsSound l t handle i s f =
    let m = one_less (t.slots i) in
    elim (Bool-cases (m.refs == 0)) [
      | inl last ↦ rw last (slot-IsSound l t i (without_key m) false s (inr (refl, refl)))
      | inr more ↦ rw more (mod-IsSound l t i m s (ground (arith, s i f.in_table, f)))
    ]

pub close_release-SameSlots :
    (l : Loader) (i : ℕ) (t : ModTable) → SameSlots t (close_release l i t).1
unfolding close_release
close_release-SameSlots l i t = released-SameSlots (t.slots i) t

pub mod_close-IsSound :
    (l : Loader) (handle : ℕ) (t : ModTable) → IsSound l t → IsSound l (mod_close l handle t).1
unfolding mod_close
mod_close-IsSound l handle t s = elim (Option-cases (find_open t handle)) [
  | inl n ↦ rw (n, mod_close) s
  | inr (i, n) ↦
      let u = close_unlink i t in
      let u_sound = close_unlink-IsSound l t handle i s (find_open-IsListed t handle i n) in
      elim (Bool-cases (u.0)) [
        | inl last ↦
            rw (n, mod_close)
              (rw last (
                SameSlots-IsSound l (u.1) (close_release l i (u.1)).1
                  (close_release-SameSlots l i (u.1)) u_sound))
        | inr more ↦ rw (n, mod_close) (rw more u_sound)
      ]
]

-- The end of a call keeps the slots sound, whatever the call left in its slot.
pub end_call-IsSound :
    (l : Loader) (i : ℕ) (t : ModTable)
    → i < max_rev_handles
    → t.is_open i ≡ true
    → IsSound l t
    → IsSound l (end_call i t)
unfolding end_call end_with
end_call-IsSound l i t lt listed s =
    let m = one_less (t.slots i) in
    let u = record (set_slot i m t) { is_open = put_at t.is_open i false } in
    elim (Bool-cases (m.refs == 0)) [
      | inr more ↦ rw more (mod-IsSound l t i m s (ground (arith, s i lt)))
      | inl last ↦
          let same = released-SameSlots m u in
          let v = set_slot i (without_key m) (release_lib m (release_handle m u)) in
          let slots_same : v.slots ≡ put_at t.slots i (without_key m) =
            ap (λ (f : ℕ → OpenMod). put_at f i (without_key m)) (same.0)
            ∙ put_at_twice t.slots i m (without_key m) in
          rw last (
            SameSlots-IsSound l
              (record (set_slot i (without_key m) t) { is_open = put_at t.is_open i false }) v
              (slots_same, same.1) (slot-IsSound l t i (without_key m) false s (inr (refl, refl))))
    ]

pub less_more : (m : OpenMod) → one_less (one_more m) ≡ m
less_more m = ground arith

pub some_inj : {A : Type 0} (x y : A) → some x ≡ some y → x ≡ y
some_inj x y h = cc

pub ending-some :
    (i : ℕ) (o : Option (ℕ × ModTable)) (r : ℕ × ModTable)
    → ending i o ≡ some r
    → (q : ℕ × ModTable) × (o ≡ some q) × (r.1 ≡ end_call i (q.1))
ending-some i none r e = absurd (ground arith)
ending-some i (some q) r e =
    (q, refl, ap (λ (x : ℕ × ModTable). x.1) (sym (some_inj (q.0, end_call i (q.1)) r e)))
