-- ===== src/Go/Maps.antt =====
-- Go maps with strings as keys: the list of the entries, in the order of one iteration.
use pipool.Base.{ℕ, ◌≡◌, refl, arith, List, [], ◌∷◌, Option, none, some, if◌then◌else◌}
use pipool.Base.{Bool-cases, inl, inr, false}
use pipool.Go.Strings.{str_eq, str_eq_iff}

abbrev pub Map {ℓ} : Type ℓ → Type ℓ
Map A = List (List ℕ × A)

module _ {ℓ} {A : Type ℓ} where
  -- `v, ok := m[k]`
  unfoldable pub lookup : Map A → List ℕ → Option A
  lookup [] k = none
  lookup ((j, v) ∷ m) k = if str_eq j k then some v else lookup m k

  -- `m[k] = v`
  unfoldable pub insert : Map A → List ℕ → A → Map A
  insert [] k v = (k, v) ∷ []
  insert ((j, w) ∷ m) k v = if str_eq j k then (k, v) ∷ m else (j, w) ∷ insert m k v

  -- `delete(m, k)`
  unfoldable pub erase : Map A → List ℕ → Map A
  erase [] k = []
  erase ((j, v) ∷ m) k = if str_eq j k then m else (j, v) ∷ erase m k

  pub lookup-insert :
      (m : Map A) (k : List ℕ) (v : A) (s : List ℕ)
      → lookup (insert m k v) s ≡ (if str_eq k s then some v else lookup m s)
  unfolding lookup insert
  lookup-insert [] k v s = refl
  lookup-insert ((j, w) ∷ m) k v s =
      ground (arith, str_eq_iff k s, str_eq_iff j s, str_eq_iff j k, lookup-insert m k v s)

  -- Every key stands once.
  abbrev pub IsMap : Map A → Type ℓ
  IsMap [] = Unit
  IsMap ((k, v) ∷ m) = (lookup m k ≡ none) × IsMap m

  pub insert-IsMap : (m : Map A) (k : List ℕ) (v : A) → IsMap m → IsMap (insert m k v)
  unfolding insert
  insert-IsMap [] k v h = (unfold lookup in refl, tt)
  insert-IsMap ((j, w) ∷ m) k v (new, h) = elim (Bool-cases (str_eq j k)) [
    | inl same ↦ let e : j ≡ k = (str_eq_iff j k).0 same in rw same (rw e at new, h)
    | inr other ↦
        let no : str_eq k j ≡ false = ground (arith, str_eq_iff j k, str_eq_iff k j) in
        rw other (rw (lookup-insert m k v j, no) new, insert-IsMap m k v h)
  ]
