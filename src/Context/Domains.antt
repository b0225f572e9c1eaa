-- ===== src/Context/Domains.antt =====
-- Which lists of domains a context can be created on.
use fastrpc.Common.{ℕ, ◌<◌, ◌≡◌, ◌≢◌, ◌↔◌, ◌⊎◌, true, false, List, [], ◌∷◌, map, arith}
use fastrpc.Context.{domain_of, first_or_zero, all_valid, all_are, occurs, all_differ, init_domains}

abbrev pub All : (ℕ → Type 0) → List ℕ → Type 0
All P [] = Unit
All P (x ∷ xs) = P x × All P xs

-- No two of them are equal.
abbrev pub Different : List ℕ → Type 0
Different [] = Unit
Different (x ∷ xs) = All (λ y. y ≢ x) xs × Different xs

all_valid-All : (es : List ℕ) → (all_valid es ≡ true) ↔ All (λ e. e < 32) es
unfolding all_valid
all_valid-All [] = ground arith
all_valid-All (e ∷ es) = ground (arith, all_valid-All es)

all_are-All : (d : ℕ) (es : List ℕ) → (all_are d es ≡ true) ↔ All (λ e. e ≡ d) es
unfolding all_are
all_are-All d [] = ground arith
all_are-All d (e ∷ es) = ground (arith, all_are-All d es)

occurs-All : (d : ℕ) (es : List ℕ) → (occurs d es ≡ false) ↔ All (λ e. e ≢ d) es
unfolding occurs
occurs-All d [] = ground arith
occurs-All d (e ∷ es) = ground (arith, occurs-All d es)

all_differ-Different : (ds : List ℕ) → (all_differ ds ≡ true) ↔ Different ds
unfolding all_differ
all_differ-Different [] = ground arith
all_differ-Different (d ∷ ds) = ground (arith, occurs-All d ds, all_differ-Different ds)

-- The domains of a context are accepted exactly if every effective domain id is less than 32, and either
-- all of them belong to one domain or no two of them belong to the same domain.
pub init_domains-All :
    (ids : List ℕ)
    → let domains = map domain_of ids in
      (init_domains ids ≡ 0)
      ↔ (All (λ e. e < 32) ids × (All (λ d. d ≡ first_or_zero domains) domains ⊎ Different domains))
unfolding init_domains
init_domains-All ids =
    let domains = map domain_of ids in
    ground (
      arith,
      all_valid-All ids,
      all_are-All (first_or_zero domains) domains,
      all_differ-Different domains,
    )
