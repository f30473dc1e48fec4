-- ===== src/Go/Contains.antt =====
-- strings.Contains, on lists of bytes.
use pipool.Base.{ℕ, ◌≡◌, refl, arith, Bool, true, ◌||◌, List, [], ◌∷◌, ==_iff}
use pipool.Go.Strings.{has_prefix}

unfoldable pub contains : List ℕ → List ℕ → Bool
contains [] p = has_prefix [] p
contains (c ∷ s) p = has_prefix (c ∷ s) p || contains s p

has_prefix_trans :
    (s p q : List ℕ) → has_prefix s p ≡ true → has_prefix p q ≡ true → has_prefix s q ≡ true
unfolding has_prefix
has_prefix_trans s p [] h k = refl
has_prefix_trans s [] (c ∷ q) h k = cc
has_prefix_trans [] (b ∷ p) (c ∷ q) h k = cc
has_prefix_trans (a ∷ s) (b ∷ p) (c ∷ q) h k =
    ground (arith, ==_iff a b, ==_iff b c, ==_iff a c, has_prefix_trans s p q)

contains-empty : (s : List ℕ) → contains s [] ≡ true
unfolding contains has_prefix
contains-empty [] = refl
contains-empty (c ∷ s) = refl

contains-has_prefix :
    (s p q : List ℕ) → has_prefix s p ≡ true → contains p q ≡ true → contains s q ≡ true
unfolding contains has_prefix
contains-has_prefix s [] [] h k = contains-empty s
contains-has_prefix s [] (c ∷ q) h k = cc
contains-has_prefix [] (b ∷ p) q h k = cc
contains-has_prefix (a ∷ s) (b ∷ p) q h k =
    let rest = contains-has_prefix s p q in
    let head = has_prefix_trans (a ∷ s) (b ∷ p) q h in ground (arith, rest, head)

-- A text that contains a text contains what that contains.
pub contains_trans :
    (s p q : List ℕ) → contains s p ≡ true → contains p q ≡ true → contains s q ≡ true
unfolding contains
contains_trans [] p q h k = contains-has_prefix [] p q h k
contains_trans (c ∷ s) p q h k =
    ground (arith, contains-has_prefix (c ∷ s) p q, contains_trans s p q)
