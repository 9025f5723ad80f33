-- ===== src/StateStore/Listing.antt =====
-- What List of state/internal/storage/memory.go answers.
use mathlib.Core.List.{Perm}
use mathlib.Core.List.Perm
use joblet.Prelude.{
  ℕ, zero, suc, ◌<◌, ◌≤◌, ◌≡◌, ◌⊎◌, inl, inr, refl, sym, ap, ◌∙◌, subst, arith, Bool, true, false,
  ◌&&◌, ◌||◌, String, some, List, [], ◌∷◌, keep, take, length, length-take, ltb, str_eq,
  str_eq_refl, str_eq→eq, All, Bool-cases, if◌then◌else◌, if_true, if_false,
}
use joblet.Prelude.Int.{ℤ, pos, negsuc, pos_part, ltb_ℤ}
use joblet.Prelude.Map
use joblet.Prelude.Sort.{
  length-sort_slice, sort_slice-perm, All-sort_slice, IsSortedBy, sort_slice-IsSortedBy,
}
use joblet.Jobs.Domain.{Job}
use joblet.StateStore.{Backend, Filter, matches_filter, less_by, one_of, sort_jobs, cut, list}

keep-All {ℓ} : {A : Type ℓ} (p : A → Bool) (xs : List A) → All (λ x. p x ≡ true) (keep p xs)
keep-All p [] = tt
keep-All p (x ∷ xs) = elim (Bool-cases (p x)) [
  | inl e ↦ rw e (e, keep-All p xs)
  | inr e ↦ rw e (keep-All p xs)
]

take-All {ℓ κ} : {A : Type ℓ} (P : A → Type κ) (n : ℕ) (xs : List A) → All P xs → All P (take n xs)
take-All P zero xs h = tt
take-All P (suc n) [] h = tt
take-All P (suc n) (x ∷ xs) (h, hs) = (h, take-All P n xs hs)

take-IsSortedBy {ℓ} :
    {A : Type ℓ} (less : A → A → Bool) (n : ℕ) (xs : List A)
    → IsSortedBy less xs
    → IsSortedBy less (take n xs)
take-IsSortedBy less zero xs h = tt
take-IsSortedBy less (suc n) [] h = tt
take-IsSortedBy less (suc zero) (x ∷ xs) h = tt
take-IsSortedBy less (suc (suc n)) (x ∷ []) h = tt
take-IsSortedBy less (suc (suc n)) (x ∷ y ∷ ys) (h, hs) =
    (h, take-IsSortedBy less (suc n) (y ∷ ys) hs)

-- The stored jobs that the filter lets pass
abbrev pub matching : Backend → Filter → List Job
matching m f = keep (matches_filter (some f)) (Map.values m)

-- Is there a limit, and are there more jobs than it?
abbrev pub exceeds : ℤ → ℕ → Bool
exceeds (pos n) k = ltb 0 n && ltb n k
exceeds (negsuc n) k = false

-- A limit that cuts, or none that does
cut-cases :
    (limit : ℤ) (js : List Job)
    → ((exceeds limit (length js) ≡ false) × (cut limit js ≡ js))
      ⊎ ((n : ℕ) × (limit ≡ pos n) × 0 < n × n < length js × (cut limit js ≡ take n js))
unfolding cut
cut-cases (negsuc n) js = inl (refl, refl)
cut-cases (pos n) js = elim (Bool-cases (ltb 0 n && ltb n (length js))) [
  | inl e ↦ inr (n, refl, ground arith, ground arith, if_true _ _ e)
  | inr e ↦ inl (e, if_false _ _ e)
]

-- The jobs before the cut
sorted : Backend → Filter → List Job
sorted m f =
    if str_eq f.sort_by "" then matching m f else sort_jobs f.sort_by f.sort_desc (matching m f)

sorted-perm : (m : Backend) (f : Filter) → Perm (sorted m f) (matching m f)
unfolding sorted sort_jobs
sorted-perm m f = elim (Bool-cases (str_eq f.sort_by "")) [
  | inl e ↦ rw e Perm.rfl
  | inr e ↦ rw e (sort_slice-perm _ (matching m f))
]

sorted-All : (m : Backend) (f : Filter) → All (λ j. matches_filter (some f) j ≡ true) (sorted m f)
unfolding sorted sort_jobs
sorted-All m f =
    let all = keep-All (matches_filter (some f)) (Map.values m) in
    elim (Bool-cases (str_eq f.sort_by "")) [
      | inl e ↦ rw e all
      | inr e ↦ rw e (All-sort_slice _ _ (matching m f) all)
    ]

sorted-length : (m : Backend) (f : Filter) → length (sorted m f) ≡ length (matching m f)
unfolding sorted sort_jobs
sorted-length m f = elim (Bool-cases (str_eq f.sort_by "")) [
  | inl e ↦ rw e refl
  | inr e ↦ rw e (length-sort_slice _ (matching m f))
]

-- Is the text one of these?
abbrev pub OneOf : String → List String → Type 0
OneOf s [] = ⊥
OneOf s (x ∷ xs) = (s ≡ x) ⊎ OneOf s xs

-- A status passes if it is one of several statuses that are asked for, or else the single one, if any.
abbrev pub StatusPasses : List String → String → String → Type 0
StatusPasses [] single status = (single ≡ "") ⊎ (status ≡ single)
StatusPasses (s ∷ ss) single status = OneOf status (s ∷ ss)

-- The jobs that the filter asks for
abbrev pub Passes : Filter → Job → Type 0
Passes f j =
    StatusPasses f.statuses f.status j.status × ((f.node_id ≡ "") ⊎ (j.node_id ≡ f.node_id))

-- Did the first job start before the second?
abbrev pub earlier : Job → Job → Bool
earlier a b = ltb_ℤ a.start_time b.start_time

-- What List answers for a filter
pub record IsListing (m : Backend) (f : Filter) (js : List Job) : Type 0 where
  pub passing : (j : Job) → Passes f j → matches_filter (some f) j ≡ true
  pub all_pass : All (Passes f) js
  pub within : (n : ℕ) → f.limit ≡ pos n → 0 < n → length js ≤ n
  pub complete : exceeds f.limit (length (matching m f)) ≡ false → Perm js (matching m f)
  pub in_order :
      (f.sort_by ≡ "createdAt") ⊎ (f.sort_by ≡ "startTime")
      → f.sort_desc ≡ false
      → IsSortedBy earlier js

one_of-OneOf : (ss : List String) (s : String) → one_of ss s ≡ true → OneOf s ss
unfolding one_of
one_of-OneOf [] s h = ground (arith, h)
one_of-OneOf (x ∷ xs) s h = elim (Bool-cases (str_eq s x)) [
  | inl e ↦ inl (str_eq→eq s x e)
  | inr e ↦ inr (one_of-OneOf xs s (ground (arith, h, e)))
]

OneOf-one_of : (ss : List String) (s : String) → OneOf s ss → one_of ss s ≡ true
unfolding one_of
OneOf-one_of [] s h = absurd h
OneOf-one_of (x ∷ xs) s (inl e) =
    let same : str_eq s x ≡ true = subst (λ y. str_eq s y ≡ true) e (str_eq_refl s) in
    ground (arith, same)
OneOf-one_of (x ∷ xs) s (inr h) =
    let rest = OneOf-one_of xs s h in
    elim (Bool-cases (str_eq s x)) [ inl e ↦ ground (arith, e) | inr e ↦ ground (arith, e, rest) ]

-- A test that an empty text switches off
test-means :
    (asked given : String)
    → (str_eq asked "" || str_eq given asked) ≡ true
    → (asked ≡ "") ⊎ (given ≡ asked)
test-means asked given h = elim (Bool-cases (str_eq asked "")) [
  | inl e ↦ inl (str_eq→eq asked "" e)
  | inr e ↦ inr (str_eq→eq given asked (ground (arith, h, e)))
]

means-test :
    (asked given : String)
    → (asked ≡ "") ⊎ (given ≡ asked)
    → (str_eq asked "" || str_eq given asked) ≡ true
means-test asked given (inl e) =
    let same : str_eq asked "" ≡ true = subst (λ y. str_eq asked y ≡ true) e (str_eq_refl asked) in
    ground (arith, same)
means-test asked given (inr e) =
    let same : str_eq given asked ≡ true =
      subst (λ y. str_eq given y ≡ true) e (str_eq_refl given) in
    elim (Bool-cases (str_eq asked "")) [
      | inl empty ↦ ground (arith, empty)
      | inr more ↦ ground (arith, more, same)
    ]

-- The test of the statuses in matchesFilter
abbrev by_status : List String → String → String → Bool
by_status ss single status = elim ss as (λ l. Bool) [
  | [] ↦ str_eq single "" || str_eq status single
  | _ ∷ _ ↦ one_of ss status
]

by_status-means :
    (ss : List String) (single status : String)
    → by_status ss single status ≡ true
    → StatusPasses ss single status
by_status-means [] single status h = test-means single status h
by_status-means (s ∷ ss) single status h = one_of-OneOf (s ∷ ss) status h

means-by_status :
    (ss : List String) (single status : String)
    → StatusPasses ss single status
    → by_status ss single status ≡ true
means-by_status [] single status h = means-test single status h
means-by_status (s ∷ ss) single status h = OneOf-one_of (s ∷ ss) status h

matches-both :
    (f : Filter) (j : Job)
    → matches_filter (some f) j ≡ (
        by_status f.statuses f.status j.status
        && (str_eq f.node_id "" || str_eq j.node_id f.node_id))
unfolding matches_filter
matches-both f j = refl

matches-Passes : (f : Filter) (j : Job) → matches_filter (some f) j ≡ true → Passes f j
matches-Passes f j h =
    let both = sym (matches-both f j) ∙ h in
    (
      by_status-means f.statuses f.status j.status (ground arith),
      test-means f.node_id j.node_id (ground arith),
    )

Passes-matches : (f : Filter) (j : Job) → Passes f j → matches_filter (some f) j ≡ true
Passes-matches f j (h, k) =
    let one = means-by_status f.statuses f.status j.status h in
    let two = means-test f.node_id j.node_id k in matches-both f j ∙ ground (arith, one, two)

All-map {ℓ κ κ'} :
    {A : Type ℓ} {P : A → Type κ} {Q : A → Type κ'} (xs : List A)
    → ((x : A) → P x → Q x)
    → All P xs
    → All Q xs
All-map [] f h = tt
All-map (x ∷ xs) f (h, hs) = (f x h, All-map xs f hs)

time-asym :
    (key : String)
    → str_eq key "status" ≡ false
    → (a b : Job) → less_by key a b ≡ true
    → less_by key b a ≡ false
unfolding less_by
time-asym key other a b h = ground (arith, other, h)

sorted-IsSortedBy :
    (m : Backend) (f : Filter)
    → str_eq f.sort_by "" ≡ false
    → str_eq f.sort_by "status" ≡ false
    → f.sort_desc ≡ false
    → IsSortedBy (less_by f.sort_by) (sorted m f)
unfolding sorted sort_jobs less_by matches_filter
sorted-IsSortedBy m f given other up =
    rw (given, up)
      (sort_slice-IsSortedBy (less_by f.sort_by) (time-asym f.sort_by other) (matching m f))

less_by-earlier : (key : String) → str_eq key "status" ≡ false → less_by key ≡ earlier
unfolding less_by
less_by-earlier key other = λ i a b. at a b i
  where
    at : (a b : Job) → less_by key a b ≡ earlier a b
    at a b = rw other refl

-- The keys of the start time
sorted-InOrder :
    (m : Backend) (f : Filter)
    → (f.sort_by ≡ "createdAt") ⊎ (f.sort_by ≡ "startTime")
    → f.sort_desc ≡ false
    → IsSortedBy earlier (sorted m f)
sorted-InOrder m f key up =
    let (given, other) : (str_eq f.sort_by "" ≡ false) × (str_eq f.sort_by "status" ≡ false) =
      elim key [
        | inl e ↦ (ap (λ k. str_eq k "") e, ap (λ k. str_eq k "status") e)
        | inr e ↦ (ap (λ k. str_eq k "") e, ap (λ k. str_eq k "status") e)
      ] in
    subst (λ less. IsSortedBy less (sorted m f)) (less_by-earlier f.sort_by other)
      (sorted-IsSortedBy m f given other up)

-- List with a filter answers only jobs with a status and a node that the filter asks for, never more
-- than a positive limit, all the stored jobs with such a status and node where the limit does not
-- cut, and, where it is asked for the ascending order by createdAt or startTime, no job before one
-- that started earlier.
pub list-IsListing : (m : Backend) (f : Filter) → IsListing m f (list m (some f))
unfolding list sorted
list-IsListing m f = elim (cut-cases f.limit (sorted m f)) [
  | inl (keeps, eq) ↦ subst (IsListing m f) (sym eq) (record {
    passing = Passes-matches f;
    all_pass = All-map (sorted m f) (matches-Passes f) (sorted-All m f);
    within = λ n e p.
        let bound = subst (λ (l : ℤ). exceeds l (length (sorted m f)) ≡ false) e keeps in
        ground arith;
    complete = λ _. sorted-perm m f;
    in_order = sorted-InOrder m f;
  })
  | inr (n, limit, positive, long, eq) ↦ subst (IsListing m f) (sym eq) (record {
    passing = Passes-matches f;
    all_pass = take-All _ n (sorted m f) (All-map (sorted m f) (matches-Passes f) (sorted-All m f));
    within = λ k e p.
        let same : n ≡ k = ap pos_part (sym limit ∙ e) in
        omega (arith, same, length-take n (sorted m f) (omega arith));
    complete = λ fits.
        let shown = subst (λ (l : ℤ). exceeds l (length (matching m f)) ≡ false) limit fits in
        let size = sorted-length m f in absurd (ground (arith, shown, size));
    in_order = λ key up. take-IsSortedBy earlier n (sorted m f) (sorted-InOrder m f key up);
  })
]
