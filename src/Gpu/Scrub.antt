-- ===== src/Gpu/Scrub.antt =====
-- What scrubOnRelease does to the pool.

use joblet.Prelude.{
  ==→eq, str_eq_refl, subst, ℕ, ◌≡◌, refl, inl, inr, true, String, Option, some, List, [], ◌∷◌,
  arith, contains, Bool-cases, Option-cases, str_eq, ◌==◌, ◌⊎◌,
}
use joblet.Prelude.Int.{ℤ, pos, ltb_ℤ, ◌≤ℤ◌}
use joblet.Gpu.{scrub_residual_threshold_mb, verify_clean, verify_each, scrub_on_release}
use joblet.Gpu.Device.{Gpu, QuarantineReason, find, modify, isolate}
use joblet.Gpu.Pool.{find-modify}

-- A scrub does nothing but isolate GPUs: it keeps whatever an isolation keeps.
module _ {ℓ} (Q : List Gpu → Type ℓ)
    (isolates : (gs : List Gpu) (i : ℕ) (r : QuarantineReason) → Q gs → Q (modify gs i (isolate r)))
    (used : ℕ → Option ℤ) where
  verify_clean_rule : (i : ℕ) (gs : List Gpu) → Q gs → Q (verify_clean used i gs)
  unfolding verify_clean
  verify_clean_rule i gs q = elim (Option-cases (used i)) [
    | inl e ↦ rw (e, verify_clean) (isolates gs i QuarantineReason.unverified q)
    | inr (mb, e) ↦ elim (Bool-cases (ltb_ℤ (pos 64) mb)) [
      | inl over ↦ rw (e, over, verify_clean) (isolates gs i (QuarantineReason.residual mb) q)
      | inr clean ↦ rw (e, clean, verify_clean) q
    ]
  ]

  verify_each_rule : (is : List ℕ) (gs : List Gpu) → Q gs → Q (verify_each used is gs)
  unfolding verify_each
  verify_each_rule [] gs q = q
  verify_each_rule (i ∷ is) gs q =
      verify_each_rule is (verify_clean used i gs) (verify_clean_rule i gs q)

  pub scrub_rule :
      (policy : String) (is : List ℕ) (gs : List Gpu)
      → Q gs
      → Q (scrub_on_release policy used is gs)
  unfolding scrub_on_release
  scrub_rule policy is gs q = elim (Bool-cases (str_eq policy "strict")) [
    | inl e ↦ rw e (verify_each_rule is gs q)
    | inr e ↦ rw e q
  ]

-- The scrub of one GPU leaves it quarantined or reported clean.
abbrev pub IsScrubbed : (ℕ → Option ℤ) → ℕ → Gpu → Type 0
IsScrubbed used i g =
    (g.quarantined ≡ true)
    ⊎ ((mb : ℤ) × (used i ≡ some mb) × (mb ≤ℤ pos scrub_residual_threshold_mb))

module _ (used : ℕ → Option ℤ) where
  -- What holds of the GPU found at `j`, if there is one.
  abbrev ScrubbedAt : ℕ → List Gpu → Type 0
  ScrubbedAt j gs = (g : Gpu) → find gs j ≡ some g → IsScrubbed used j g

  isolates_scrubbed :
      (j : ℕ) (gs : List Gpu) (i : ℕ) (r : QuarantineReason)
      → ScrubbedAt j gs
      → ScrubbedAt j (modify gs i (isolate r))
  isolates_scrubbed j gs i r h g e = elim (Bool-cases (i == j)) [
    | inl hit ↦ inl (ground (arith, find-modify (isolate r) (λ g. refl) gs i j))
    | inr miss ↦ h g (ground (arith, find-modify (isolate r) (λ g. refl) gs i j))
  ]

  verify_clean-scrubs : (i : ℕ) (gs : List Gpu) → ScrubbedAt i (verify_clean used i gs)
  unfolding verify_clean
  verify_clean-scrubs i gs g e = elim (Option-cases (used i)) [
    | inl lost ↦
        let at = find-modify (isolate QuarantineReason.unverified) (λ g. refl) gs i i in
        inl (ground (arith, at))
    | inr (mb, read) ↦
        let at = find-modify (isolate (QuarantineReason.residual mb)) (λ g. refl) gs i i in
        elim (Bool-cases (ltb_ℤ (pos scrub_residual_threshold_mb) mb)) [
          | inl over ↦ inl (ground (arith, at))
          | inr clean ↦ inr (mb, read, ground arith)
        ]
  ]

  verify_each-scrubs :
      (is : List ℕ) (gs : List Gpu) (i : ℕ)
      → contains is i ≡ true
      → ScrubbedAt i (verify_each used is gs)
  unfolding verify_each
  verify_each-scrubs [] gs i e = absurd (cc)
  verify_each-scrubs (j ∷ is) gs i e = elim (Bool-cases (j == i)) [
    | inl hit ↦
        let here : ScrubbedAt j (verify_clean used j gs) = verify_clean-scrubs j gs in
        verify_each_rule (ScrubbedAt i) (isolates_scrubbed i) used is (verify_clean used j gs)
          (subst (λ k. ScrubbedAt k (verify_clean used j gs)) (==→eq j i hit) here)
    | inr miss ↦ verify_each-scrubs is (verify_clean used j gs) i (ground arith)
  ]

  pub scrub_on_release-scrubs :
      (is : List ℕ) (gs : List Gpu) (i : ℕ)
      → contains is i ≡ true
      → ScrubbedAt i (scrub_on_release "strict" used is gs)
  unfolding scrub_on_release
  scrub_on_release-scrubs is gs i e = rw (str_eq_refl "strict") (verify_each-scrubs is gs i e)
