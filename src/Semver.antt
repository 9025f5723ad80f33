-- ===== src/Semver.antt =====
-- Semantic versions: pkg/semver/semver.go. The components are never negative, as NewVersion refuses
-- negative ones. Printing is left out; what package strings and Atoi answer is a parameter.
pub mod Order
pub mod Tests
use joblet.Prelude.{
  ℕ, Bool, true, false, ◌&&◌, not, String, Option, none, some, List, [], ◌∷◌, ltb, ◌==◌,
  if◌then◌else◌,
}
use joblet.Prelude.Int.{ℤ, pos, negsuc}

-- Version
pub record Version : Type 0 where
  pub major : ℕ
  pub minor : ℕ
  pub patch : ℕ

-- A component: none for a text that is no number, and for a negative one
unfoldable pub component : Option ℤ → Option ℕ
component none = none
component (some (pos n)) = some n
component (some (negsuc n)) = none

-- NewVersion, of the parts between the dots, without the prefix v; none for an error
unfoldable pub new_version : (String → Option ℤ) → List String → Option Version
new_version atoi (a ∷ b ∷ c ∷ []) = elim (component (atoi a)) [
  | none ↦ none
  | some x ↦ elim (component (atoi b)) [
    | none ↦ none
    | some y ↦ elim (component (atoi c)) [
      | none ↦ none
      | some z ↦ some (record { major = x; minor = y; patch = z })
    ]
  ]
]
new_version atoi parts = none

-- GreaterThan
unfoldable pub greater_than : Version → Version → Bool
greater_than v w =
    if not (v.major == w.major)
    then ltb w.major v.major
    else if not (v.minor == w.minor)
    then ltb w.minor v.minor
    else ltb w.patch v.patch

-- Equal
unfoldable pub equal : Version → Version → Bool
equal v w = v.major == w.major && v.minor == w.minor && v.patch == w.patch

-- LessThan
unfoldable pub less_than : Version → Version → Bool
less_than v w = not (greater_than v w) && not (equal v w)
