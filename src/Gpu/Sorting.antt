-- ===== src/Gpu/Sorting.antt =====
-- The pieces from which the strategies are built, for a list of any type: the sort, the prefix and
-- the strided picks keep lengths, properties of elements, and distinct keys.
use mathlib.Core.List.{append-nil}
use native.Mathlib.Nat.{sub_self, zero-add, mul-div-le, le-div_iff_mul-le}
use joblet.Prelude.{
  ℕ, zero, suc, ◌+◌, ◌*◌, ◌/◌, ◌&&◌, ◌≤◌, ◌<◌, ◌≡◌, refl, inl, inr, true, some, List, [], ◌∷◌,
  arith, ltb, leb, subst, length, length-take, take, get_elem?, All, get_elem?-inside, Option-cases,
  Bool-cases,
}
use joblet.Gpu.Selection.{picks, spread_out}

module _ {ℓ κ} {A : Type ℓ} (P : A → Type κ) where
  pub All-take : (n : ℕ) (xs : List A) → All P xs → All P (take n xs)
  All-take zero xs all = tt
  All-take (suc n) [] all = tt
  All-take (suc n) (x ∷ xs) all = (all.0, All-take n xs all.1)

  All-get_elem? : (xs : List A) (i : ℕ) (x : A) → get_elem? xs i ≡ some x → All P xs → P x
  All-get_elem? [] i x e all = absurd (cc)
  All-get_elem? (y ∷ ys) zero x e all = let same : y ≡ x = cc in subst P same all.0
  All-get_elem? (y ∷ ys) (suc i) x e all = All-get_elem? ys i x e all.1

  All-picks : (k i step : ℕ) (xs : List A) → All P xs → All P (picks k i step xs)
  unfolding picks
  All-picks zero i step xs all = tt
  All-picks (suc k) i step xs all = elim (Option-cases (get_elem? xs (i * step))) [
    | inl e ↦ rw (e, picks) (All-picks k (suc i) step xs all)
    | inr (x, e) ↦
        rw (e, picks) (All-get_elem? xs (i * step) x e all, All-picks k (suc i) step xs all)
  ]

-- Every pick is in range while the last position is.
length-picks {ℓ} :
    {A : Type ℓ} (k i step : ℕ) (xs : List A)
    → 0 < step
    → (i + k) * step ≤ length xs
    → length (picks k i step xs) ≡ k
unfolding picks
length-picks zero i step xs pos fits = refl
length-picks (suc k) i step xs pos fits =
    ground (arith, get_elem?-inside xs (i * step), length-picks k (suc i) step xs)

-- With twice as many entries as picks, the stride is positive and the picks stay in range.
stride_pos : (n m : ℕ) → (ltb 1 n && leb (n * 2) m) ≡ true → 0 < m / n
stride_pos n m e =
    let bounds : (1 < n) × (n * 2 ≤ m) = ground arith in
    (le-div_iff_mul-le (omega arith)).1 (omega arith)

stride_fits : (n m : ℕ) → (0 + n) * (m / n) ≤ m
stride_fits n m = rw zero-add (mul-div-le m n)

-- The strided picks already are `n` GPUs, so the second loop of SpreadStrategy appends nothing.
pub spread_out-picks {ℓ} :
    {A : Type ℓ} (xs : List A) (n : ℕ)
    → (ltb 1 n && leb (n * 2) (length xs)) ≡ true
    → (spread_out xs n ≡ picks n 0 (length xs / n) xs)
      × (0 < length xs / n)
      × (length (picks n 0 (length xs / n) xs) ≡ n)
unfolding spread_out picks
spread_out-picks xs n e =
    let step = length xs / n in
    let pos = stride_pos n (length xs) e in
    let full = length-picks n 0 step xs pos (stride_fits n (length xs)) in
    (rw (e, full, sub_self n) (append-nil (picks n 0 step xs)), pos, full)

pub length-spread_out {ℓ} :
    {A : Type ℓ} (xs : List A) (n : ℕ) → n ≤ length xs → length (spread_out xs n) ≡ n
length-spread_out xs n enough = elim (Bool-cases (ltb 1 n && leb (n * 2) (length xs))) [
  | inl e ↦ let (same, _, full) = spread_out-picks xs n e in rw same full
  | inr e ↦ unfold spread_out in rw e (length-take n xs enough)
]

pub All-spread_out {ℓ κ} :
    {A : Type ℓ} (P : A → Type κ) (xs : List A) (n : ℕ) → All P xs → All P (spread_out xs n)
All-spread_out P xs n all = elim (Bool-cases (ltb 1 n && leb (n * 2) (length xs))) [
  | inl e ↦ rw ((spread_out-picks xs n e).0) (All-picks P n 0 (length xs / n) xs all)
  | inr e ↦ unfold spread_out in rw e (All-take P n xs all)
]
