-- ===== src/Network/Unary.antt =====
-- A printer of addresses for the tests: each byte in unary, closed by a mark.
use Prim.Native.String.{String, [] as empty, ◌∷◌ as cons}
use text.Mathlib.TextLemmas.{head-eq_of_cons-eq, tail-eq_of_cons-eq}
use joblet.Prelude.{
  ℕ, zero, suc, ◌≡◌, ◌≢◌, refl, sym, ap, true, false, List, [], ◌∷◌, length, arith, str_eq, eq_iff,
}
use joblet.Network.Address.{equal_ip}

unfoldable pub unary : ℕ → String → String
unary zero s = cons "b" s
unary (suc n) s = cons "a" (unary n s)

unfoldable pub show_unary : List ℕ → String
unfolding unary
show_unary [] = empty
show_unary (x ∷ xs) = unary x (show_unary xs)

-- The mark is no digit.
mark≢digit : (s t : String) → cons "b" s ≢ cons "a" t
mark≢digit s t e =
    let differ : true ≡ false = ap (λ c. str_eq (cons c empty) "b") (head-eq_of_cons-eq e) in
    ground arith

unary-inj : (n m : ℕ) (s t : String) → unary n s ≡ unary m t → (n ≡ m) × (s ≡ t)
unfolding unary
unary-inj zero zero s t e = (refl, tail-eq_of_cons-eq e)
unary-inj zero (suc m) s t e = absurd (mark≢digit s (unary m t) e)
unary-inj (suc n) zero s t e = absurd (mark≢digit t (unary n s) (sym e))
unary-inj (suc n) (suc m) s t e =
    let (same, rest) = unary-inj n m s t (tail-eq_of_cons-eq e) in (ap suc same, rest)

show_unary-inj :
    (a b : List ℕ) → length a ≡ length b → show_unary a ≡ show_unary b → equal_ip a b ≡ true
unfolding show_unary equal_ip
show_unary-inj [] [] l e = refl
show_unary-inj [] (y ∷ b) l e = absurd (omega (arith, l))
show_unary-inj (x ∷ a) [] l e = absurd (omega (arith, l))
show_unary-inj (x ∷ a) (y ∷ b) l e =
    let (same, rest) = unary-inj x y (show_unary a) (show_unary b) e in
    ground (arith, show_unary-inj a b (omega (arith, l)) rest)

-- Different addresses of one length print differently.
pub show_unary-IsFaithful :
    (a b : List ℕ)
    → length a ≡ length b
    → str_eq (show_unary a) (show_unary b) ≡ true
    → equal_ip a b ≡ true
show_unary-IsFaithful a b l e = show_unary-inj a b l ((eq_iff (show_unary a) (show_unary b)).0 e)
