-- ===== src/Semver/Order.antt =====
-- The order of versions.
use joblet.Prelude.{◌≡◌, ◌⊎◌, arith, true, false}
use joblet.Semver.{Version, greater_than, equal, less_than}

-- What GreaterThan, Equal and LessThan say of three versions
pub record IsOrdered (u v w : Version) : Type 0 where
  pub converse : less_than v w ≡ greater_than w v
  pub equal_same : equal v w ≡ true → v ≡ w
  pub irreflexive : greater_than v v ≡ false
  pub transitive : greater_than u v ≡ true → greater_than v w ≡ true → greater_than u w ≡ true
  pub total : (greater_than v w ≡ true) ⊎ (less_than v w ≡ true) ⊎ (equal v w ≡ true)

-- The comparisons of versions are a strict linear order: LessThan is the converse of GreaterThan, Equal is
-- equality, GreaterThan is irreflexive and transitive, and of two versions one is greater or they are
-- equal.
pub versions-IsOrdered : (u v w : Version) → IsOrdered u v w
unfolding greater_than equal less_than
versions-IsOrdered u v w = record {
  converse = ground arith;
  equal_same = λ h. ground arith;
  irreflexive = ground arith;
  transitive = λ h k. ground arith;
  total = ground arith;
}
