-- ===== src/Go/Strings.antt =====
-- Go strings as their bytes: comparison, and `sort.Strings`.
use Prim.Native.String.{String}
use Prim.Native.Char.{code}
use mathlib.Core.Option
use pipool.Base.{leb, ◌+◌, inl, inr, ◌<◌, ◌-◌, Option, none, some, reverse, Option-cases}
use pipool.Base.{◌↔◌, ℕ, suc, ◌≡◌, refl, ap, ◌∙◌, arith, Bool, true, false, ◌⊎◌, inl, inr}
use pipool.Base.{List, [], ◌∷◌, ltb, ◌==◌, ◌&&◌, ◌||◌, if◌then◌else◌, length}

-- `s <= t`, byte by byte.
unfoldable pub str_le : List ℕ → List ℕ → Bool
str_le [] t = true
str_le (a ∷ s) [] = false
str_le (a ∷ s) (b ∷ t) = ltb a b || (a == b && str_le s t)

pub str_le-total : (s t : List ℕ) → (str_le s t ≡ true) ⊎ (str_le t s ≡ true)
unfolding str_le
str_le-total [] t = inl refl
str_le-total (a ∷ s) [] = inr refl
str_le-total (a ∷ s) (b ∷ t) = ground (arith, str_le-total s t)

pub str_le_trans : (s t u : List ℕ) → str_le s t ≡ true → str_le t u ≡ true → str_le s u ≡ true
unfolding str_le
str_le_trans [] t u p q = refl
str_le_trans (a ∷ s) [] u p q = cc
str_le_trans (a ∷ s) (b ∷ t) [] p q = cc
str_le_trans (a ∷ s) (b ∷ t) (c ∷ u) p q = ground (arith, str_le_trans s t u)

pub str_le_antisymm : (s t : List ℕ) → str_le s t ≡ true → str_le t s ≡ true → s ≡ t
unfolding str_le
str_le_antisymm [] [] p q = refl
str_le_antisymm [] (b ∷ t) p q = cc
str_le_antisymm (a ∷ s) [] p q = cc
str_le_antisymm (a ∷ s) (b ∷ t) p q = ground (arith, str_le_antisymm s t)

unfoldable pub insert_sorted : List ℕ → List (List ℕ) → List (List ℕ)
insert_sorted x [] = x ∷ []
insert_sorted x (y ∷ ys) = if str_le x y then x ∷ y ∷ ys else y ∷ insert_sorted x ys

-- The sorted list of `sort.Strings`, which is the only one that holds the same strings.
unfoldable pub sort_strings : List (List ℕ) → List (List ℕ)
unfolding insert_sorted
sort_strings [] = []
sort_strings (x ∷ xs) = insert_sorted x (sort_strings xs)

pub length-insert_sorted :
    (x : List ℕ) (ys : List (List ℕ)) → length (insert_sorted x ys) ≡ suc (length ys)
unfolding insert_sorted
length-insert_sorted x [] = refl
length-insert_sorted x (y ∷ ys) = ground (arith, length-insert_sorted x ys)

pub length-sort_strings : (xs : List (List ℕ)) → length (sort_strings xs) ≡ length xs
unfolding sort_strings
length-sort_strings [] = refl
length-sort_strings (x ∷ xs) =
    length-insert_sorted x (sort_strings xs) ∙ ap suc (length-sort_strings xs)

-- Two strings may be inserted in either order.
pub insert_sorted_comm :
    (x y : List ℕ) (zs : List (List ℕ))
    → insert_sorted x (insert_sorted y zs) ≡ insert_sorted y (insert_sorted x zs)
unfolding insert_sorted
insert_sorted_comm x y [] = ground (arith, str_le-total x y, str_le_antisymm x y)
insert_sorted_comm x y (z ∷ zs) = ground (
  arith,
  str_le-total x y,
  str_le_antisymm x y,
  str_le_trans x y z,
  str_le_trans y x z,
  insert_sorted_comm x y zs,
)

-- `s == t`.
unfoldable pub str_eq : List ℕ → List ℕ → Bool
str_eq [] [] = true
str_eq [] (b ∷ t) = false
str_eq (a ∷ s) [] = false
str_eq (a ∷ s) (b ∷ t) = a == b && str_eq s t

pub str_eq_iff : (s t : List ℕ) → (str_eq s t ≡ true) ↔ (s ≡ t)
unfolding str_eq
str_eq_iff [] [] = ground arith
str_eq_iff [] (b ∷ t) = ground arith
str_eq_iff (a ∷ s) [] = ground arith
str_eq_iff (a ∷ s) (b ∷ t) = ground (arith, str_eq_iff s t)

-- The bytes of an ASCII text.
abbrev pub codes : String → List ℕ
codes String.[] = []
codes (String.◌∷◌ c s) = code c ∷ codes s

-- `strings.ToLower` and `strings.TrimSpace` on ASCII text.
unfoldable pub to_lower : ℕ → ℕ
to_lower c = if leb b'A' c && leb c b'Z' then c + 32 else c

unfoldable pub to_upper : ℕ → ℕ
to_upper c = if leb b'a' c && leb c b'z' then c - 32 else c

unfoldable pub is_space : ℕ → Bool
is_space c = c == 32 || (leb 9 c && leb c 13)

unfoldable pub trim_left : List ℕ → List ℕ
unfolding is_space
trim_left [] = []
trim_left (c ∷ s) = if is_space c then trim_left s else c ∷ s

unfoldable pub trim_space : List ℕ → List ℕ
unfolding trim_left
trim_space s = reverse (trim_left (reverse (trim_left s)))

-- `strings.IndexByte`: the first place of a byte.
unfoldable pub index_byte : List ℕ → ℕ → Option ℕ
index_byte [] c = none
index_byte (b ∷ bs) c = if b == c then some 0 else Option.map suc (index_byte bs c)

-- `strings.LastIndex` of one byte, with `i` bytes before the text; `none` is -1.
unfoldable pub last_index : ℕ → ℕ → List ℕ → Option ℕ
last_index c i [] = none
last_index c i (b ∷ bs) = elim (last_index c (suc i) bs) [
  | none ↦ if b == c then some i else none
  | some j ↦ some j
]

unfoldable pub has_prefix : List ℕ → List ℕ → Bool
has_prefix s [] = true
has_prefix [] (b ∷ p) = false
has_prefix (a ∷ s) (b ∷ p) = a == b && has_prefix s p

pub index_byte-lt : (bs : List ℕ) (c : ℕ) {i : ℕ} → index_byte bs c ≡ some i → i < length bs
unfolding index_byte
index_byte-lt [] c e = cc
index_byte-lt (b ∷ bs) c e = elim (Option-cases (index_byte bs c)) [
  | inl n ↦ ground (arith, n)
  | inr (j, n) ↦ ground (arith, n, index_byte-lt bs c n)
]
