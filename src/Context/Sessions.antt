-- ===== src/Context/Sessions.antt =====
-- The sessions that src/fastrpc_context.c opens and closes for a context.
use fastrpc.Common.{ℕ, ◌≡◌, ◌≢◌, inl, inr, refl, Bool-cases, List, [], ◌∷◌, map, arith, ◌==◌}
use fastrpc.Context.{Calls, open_sessions, close_sessions}

-- Every domain has a session, whose device is in `devs`.
abbrev pub Opened : Calls → List ℕ → List ℕ → Type 0
Opened c [] devs = devs ≡ []
Opened c (e ∷ es) [] = ⊥
Opened c (e ∷ es) (dev ∷ devs) = (c.session_open e ≡ (0, dev)) × Opened c es devs

-- The domains whose sessions are closed where every domain up to the first that has no session was
-- asked for one: those that left a device, be it with an error.
pub data Undone (c : Calls) : List ℕ → List ℕ → Type 0 where
  ended : Undone c [] []
  closes :
      (e : ℕ) (es closed : List ℕ)
      → (c.session_open e).0 ≡ 0
      → (c.session_open e).1 ≢ 0
      → Undone c es closed
      → Undone c (e ∷ es) (e ∷ closed)
  no_device :
      (e : ℕ) (es closed : List ℕ)
      → (c.session_open e).0 ≡ 0
      → (c.session_open e).1 ≡ 0
      → Undone c es closed
      → Undone c (e ∷ es) closed
  stops :
      (e : ℕ) (es : List ℕ)
      → (c.session_open e).0 ≢ 0
      → (c.session_open e).1 ≡ 0
      → Undone c (e ∷ es) []
  stops_late :
      (e : ℕ) (es : List ℕ)
      → (c.session_open e).0 ≢ 0
      → (c.session_open e).1 ≢ 0
      → Undone c (e ∷ es) (e ∷ [])

pub open_sessions-Opened :
    (c : Calls) (ids : List ℕ) → (open_sessions c ids).0 ≡ 0 → Opened c ids (open_sessions c ids).1
unfolding open_sessions
open_sessions-Opened c [] h = refl
open_sessions-Opened c (e ∷ es) h = elim (Bool-cases ((c.session_open e).0 == 0)) [
  | inl t ↦
      let zero_code : (c.session_open e).0 ≡ 0 = ground arith in
      rw t ((λ k. (zero_code k, (c.session_open e).1)), open_sessions-Opened c es (rw t at h))
  | inr n ↦ absurd (ground (arith, rw n at h))
]

no_sessions : (es ds : List ℕ) → close_sessions es (map (λ (x : ℕ). 0) ds) ≡ []
unfolding close_sessions
no_sessions [] ds = refl
no_sessions (e ∷ es) [] = refl
no_sessions (e ∷ es) (d ∷ ds) = no_sessions es ds

pub close_sessions-Undone :
    (c : Calls) (ids : List ℕ) → Undone c ids (close_sessions ids (open_sessions c ids).1)
unfolding open_sessions close_sessions
close_sessions-Undone c [] = ended
close_sessions-Undone c (e ∷ es) = elim (Bool-cases ((c.session_open e).0 == 0)) [
  | inl t ↦ rw t (elim (Bool-cases ((c.session_open e).1 == 0)) [
    | inl z ↦ rw z (no_device e es _ (ground arith) (ground arith) (close_sessions-Undone c es))
    | inr d ↦ rw d (closes e es _ (ground arith) (ground arith) (close_sessions-Undone c es))
  ])
  | inr n ↦ rw n (elim (Bool-cases ((c.session_open e).1 == 0)) [
    | inl z ↦ rw (z, no_sessions es es) (stops e es (ground arith) (ground arith))
    | inr d ↦ rw (d, no_sessions es es) (stops_late e es (ground arith) (ground arith))
  ])
]
