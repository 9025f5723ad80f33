-- ===== src/Limits/Cores.antt =====
-- The sets of CPU cores that ParseCPUCoreSet makes.
use joblet.Prelude.{
  ℕ, zero, suc, ◌+◌, ◌-◌, ◌≤◌, ◌<◌, ◌≡◌, inl, inr, refl, sym, ap, ◌∙◌, subst, arith, true, false,
  ◌&&◌, String, some, List, [], ◌∷◌, Result, ok, str_eq, ltb, leb, ◌==◌, contains, Distinct, ==→eq,
  ==_refl, str_eq→eq, Bool-cases, Result-cases, if◌then◌else◌,
}
use joblet.Prelude.Int.{pos}
use joblet.Limits.{
  Texts, CpuCoreSet, core_range, parse_range, parse_list, has_duplicate, parse_cpu_core_set,
  max_int, has_core, no_cores, LimitError,
}

-- A core that was seen is not found again.
has_duplicate-seen :
    (seen cs : List ℕ) (d : ℕ)
    → has_duplicate seen cs ≡ false
    → contains seen d ≡ true
    → contains cs d ≡ false
unfolding has_duplicate
has_duplicate-seen seen [] d h s = refl
has_duplicate-seen seen (c ∷ cs) d h s = elim (Bool-cases (contains seen c)) [
  | inl twice ↦ absurd (ground (arith, twice, h))
  | inr once ↦
      let ih = has_duplicate-seen (c ∷ seen) cs d (ground (arith, once, h)) (ground (arith, s)) in
      elim (Bool-cases (c == d)) [
        | inl same ↦
            let e = ==→eq c d same in absurd (ground (arith, once, s, ap (contains seen) e))
        | inr other ↦ ground (arith, ih, other)
      ]
]

has_duplicate-Distinct : (seen cs : List ℕ) → has_duplicate seen cs ≡ false → Distinct cs
unfolding has_duplicate
has_duplicate-Distinct seen [] h = tt
has_duplicate-Distinct seen (c ∷ cs) h = elim (Bool-cases (contains seen c)) [
  | inl twice ↦ absurd (ground (arith, twice, h))
  | inr once ↦
      let rest : has_duplicate (c ∷ seen) cs ≡ false = ground (arith, once, h) in
      let first = ==_refl c in
      (
        has_duplicate-seen (c ∷ seen) cs c rest (ground (arith, first)),
        has_duplicate-Distinct (c ∷ seen) cs rest,
      )
]

-- Whatever it accepts, ParseCPUCoreSet gives a set with no core twice, and keeps the text.
pub parse_cpu_core_set-Distinct :
    (t : Texts) (spec : String) (c : CpuCoreSet)
    → parse_cpu_core_set t spec ≡ ok c
    → Distinct c.cores × (c.spec ≡ spec)
unfolding parse_cpu_core_set
parse_cpu_core_set-Distinct t spec c h = elim (Bool-cases (str_eq spec "")) [
  | inl empty ↦
      let e : no_cores ≡ c = grind arith in
      subst (λ c. Distinct c.cores × (c.spec ≡ spec)) e (tt, sym (str_eq→eq spec "" empty))
  | inr given ↦
      let parsed : Result LimitError (List ℕ) =
        if t.has spec "-"
        then parse_range t (t.split spec "-")
        else parse_list t (t.split spec ",") [] in
      elim (Result-cases parsed) [
        | inl (e, bad) ↦ absurd (grind arith)
        | inr (cs, good) ↦ elim (Bool-cases (has_duplicate [] cs)) [
          | inl twice ↦ absurd (grind arith)
          | inr once ↦
              let e : record { cores = cs; spec = spec } ≡ c = grind arith in
              subst (λ (c : CpuCoreSet). Distinct c.cores × (c.spec ≡ spec)) e
                (has_duplicate-Distinct [] cs once, refl)
        ]
      ]
]

-- The n numbers from start on
abbrev numbers : ℕ → ℕ → List ℕ
numbers start zero = []
numbers start (suc n) = start ∷ numbers (suc start) n

-- The loop ends where its end is below the largest int.
core_range-numbers :
    (n i end : ℕ) → i + n ≡ end + 1 → end < max_int → core_range (suc n) i end ≡ some (numbers i n)
unfolding core_range
core_range-numbers zero i end e small = ground (arith, e)
core_range-numbers (suc n) i end e small =
    let ih = core_range-numbers n (suc i) end (omega (arith, e)) small in
    let below : (i == max_int) ≡ false = ground (arith, e, small) in ground (arith, ih, below, e)

numbers-contains :
    (start n x : ℕ) → contains (numbers start n) x ≡ (leb start x && ltb x (start + n))
numbers-contains start zero x = ground arith
numbers-contains start (suc n) x = ground (arith, numbers-contains (suc start) n x)

numbers-single :
    (seen : List ℕ) (start n : ℕ)
    → ((x : ℕ) → start ≤ x → contains seen x ≡ false)
    → has_duplicate seen (numbers start n) ≡ false
unfolding has_duplicate
numbers-single seen start zero h = refl
numbers-single seen start (suc n) h =
    let fresh = h start (omega arith) in
    let ih = numbers-single (start ∷ seen) (suc start) n λ x p. ground (arith, h x (omega arith)) in
    ground (arith, fresh, ih)

-- A text that splits at its dash into the numbers m and n, the second not below the first and below the
-- largest int, is parsed, in a loop that ends, into the set of exactly the cores from m to n.
pub parse_cpu_core_set-range :
    (t : Texts) (spec a b : String) (m n : ℕ)
    → str_eq spec "" ≡ false
    → t.has spec "-" ≡ true
    → t.split spec "-" ≡ a ∷ b ∷ []
    → t.atoi (t.trim a) ≡ some (pos m)
    → t.atoi (t.trim b) ≡ some (pos n)
    → m ≤ n
    → n < max_int
    → (c : CpuCoreSet) × (parse_cpu_core_set t spec ≡ ok c)
      × ((x : ℕ) → has_core c x ≡ (leb m x && leb x n))
unfolding parse_cpu_core_set parse_range has_core
parse_cpu_core_set-range t spec a b m n given dash parts first second le small =
    let cs = numbers m (n + 1 - m) in
    let single = numbers-single [] m (n + 1 - m) λ x p. refl in
    let rounds : n + 2 - m ≡ suc (n + 1 - m) = omega (arith, le) in
    let loop : core_range (n + 2 - m) m n ≡ some cs =
      ap (λ r. core_range r m n) rounds
      ∙ core_range-numbers (n + 1 - m) m n (omega (arith, le)) small in
    let parsed : parse_range t (t.split spec "-") ≡ ok cs =
      ap (parse_range t) parts ∙ ground (arith, first, second, le, loop) in
    (
      record { cores = cs; spec = spec },
      ground (arith, given, dash, parsed, single),
      λ x. ground (arith, numbers-contains m (n + 1 - m) x, le),
    )
