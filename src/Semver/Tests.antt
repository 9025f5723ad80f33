-- ===== src/Semver/Tests.antt =====
-- Versions at concrete components.
use joblet.Prelude.{String, Option, none, some, [], ◌∷◌, ◌≡◌, refl, true, str_eq, if◌then◌else◌}
use joblet.Prelude.Int.{ℤ, pos, negsuc}
use joblet.Semver.{Version, component, new_version, greater_than}
use joblet.Semver.Order.{IsOrdered, versions-IsOrdered}

-- The numbers of some texts
abbrev atoi : String → Option ℤ
atoi s =
    if str_eq s "1"
    then some (pos 1)
    else if str_eq s "2"
    then some (pos 2)
    else if str_eq s "10"
    then some (pos 10)
    else if str_eq s "-1"
    then some (negsuc 0)
    else none

abbrev v1_2_10 : Version
v1_2_10 = record { major = 1; minor = 2; patch = 10 }

abbrev v1_10_1 : Version
v1_10_1 = record { major = 1; minor = 10; patch = 1 }

abbrev v2_1_1 : Version
v2_1_1 = record { major = 2; minor = 1; patch = 1 }

parsed : new_version atoi ("1" ∷ "2" ∷ "10" ∷ []) ≡ some v1_2_10
unfolding new_version component
parsed = refl

negative_refused : new_version atoi ("1" ∷ "-1" ∷ "10" ∷ []) ≡ none
unfolding new_version component
negative_refused = refl

numeric_order : greater_than v1_10_1 v1_2_10 ≡ true
unfolding greater_than
numeric_order = refl

versions-IsOrdered_example : IsOrdered v2_1_1 v1_10_1 v1_2_10
versions-IsOrdered_example = versions-IsOrdered v2_1_1 v1_10_1 v1_2_10
