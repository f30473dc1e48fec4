-- ===== src/Stratum/Router/Live.antt =====
-- The signatures of internal/stratum/router.go that an earlier one shadows never count.
use pipool.Base.{ℕ, ◌≡◌, refl, sym, ap, ◌∙◌, arith, Bool, true, false, ◌&&◌, ◌||◌, inl, inr}
use pipool.Base.{either_way, not, Option-cases, some, List, [], ◌∷◌, Bool-cases, if◌then◌else◌}
use pipool.Go.Contains.{contains, contains_trans}
use pipool.Go.Float.{Float64}
use pipool.Go.Strings.{codes, has_prefix, str_eq, str_eq_iff}
use pipool.Stratum.Router.{
  DeviceClass, default_device, DeviceSignature, matches, first_match, route, or_default,
  haystack_of,
}
use pipool.Stratum.Router.Table.{router_table}

module _ {F : Type 0} where
  -- An earlier signature takes every device that a later one would: its pattern is a part of the
  -- other's, and the algorithm is the same, or any.
  unfoldable pub shadows : DeviceSignature F → DeviceSignature F → Bool
  shadows first later =
      contains later.pattern first.pattern
      && (str_eq first.class.algorithm later.class.algorithm || str_eq first.class.algorithm [])

  unfoldable pub drop_shadowed :
      DeviceSignature F → List (DeviceSignature F) → List (DeviceSignature F)
  drop_shadowed first [] = []
  drop_shadowed first (sig ∷ table) =
      let rest = drop_shadowed first table in if shadows first sig then rest else sig ∷ rest

  -- The table without the signatures that an earlier one shadows.
  unfoldable pub live : List (DeviceSignature F) → List (DeviceSignature F)
  live [] = []
  live (sig ∷ table) = sig ∷ drop_shadowed sig (live table)

  module _ (haystack algorithm : List ℕ) where
    matches-shadows :
        (first later : DeviceSignature F)
        → shadows first later ≡ true
        → matches haystack algorithm later ≡ true
        → matches haystack algorithm first ≡ true
    unfolding shadows matches
    matches-shadows first later h k =
        let a = first.class.algorithm in
        let b = later.class.algorithm in
        ground (
          arith,
          contains_trans haystack later.pattern first.pattern,
          str_eq_iff a b,
          str_eq_iff b algorithm,
          str_eq_iff b [],
          str_eq_iff a algorithm,
          str_eq_iff a [],
        )

    first_match-drop_shadowed :
        (first : DeviceSignature F) (table : List (DeviceSignature F))
        → matches haystack algorithm first ≡ false
        → first_match haystack algorithm (drop_shadowed first table)
          ≡ first_match haystack algorithm table
    unfolding drop_shadowed first_match
    first_match-drop_shadowed first [] out = refl
    first_match-drop_shadowed first (sig ∷ table) out = elim (Bool-cases (shadows first sig)) [
      | inl hidden ↦
          let misses : matches haystack algorithm sig ≡ false =
            ground (arith, matches-shadows first sig hidden) in
          rw (hidden, misses) (first_match-drop_shadowed first table out)
      | inr kept ↦ rw (kept, first_match-drop_shadowed first table out) refl
    ]

    first_match-live :
        (table : List (DeviceSignature F))
        → first_match haystack algorithm (live table) ≡ first_match haystack algorithm table
    unfolding live first_match
    first_match-live [] = refl
    first_match-live (sig ∷ table) = elim (Bool-cases (matches haystack algorithm sig)) [
      | inl on ↦ rw on refl
      | inr out ↦ rw out (first_match-drop_shadowed sig (live table) out ∙ first_match-live table)
    ]

route-live :
    {F : Type 0} (f64 : Float64 F) (user_agent worker_name algorithm : List ℕ)
    → route f64 (router_table f64) user_agent worker_name algorithm
      ≡ route f64 (live (router_table f64)) user_agent worker_name algorithm
unfolding route
route-live f64 user_agent worker_name algorithm =
    ap (or_default f64 algorithm)
      (sym (first_match-live (haystack_of user_agent worker_name) algorithm (router_table f64)))

module _ {F : Type 0} where
  abbrev pub has_name : List (List ℕ) → DeviceClass F → Bool
  has_name [] class = false
  has_name (n ∷ names) class = str_eq class.name n || has_name names class

  -- No signature of the table has one of the names.
  unfoldable unnamed : List (List ℕ) → List (DeviceSignature F) → Bool
  unnamed names [] = true
  unnamed names (sig ∷ table) = not (has_name names sig.class) && unnamed names table

  first_match-unnamed :
      (names : List (List ℕ)) (haystack algorithm : List ℕ) (table : List (DeviceSignature F))
      (class : DeviceClass F)
      → unnamed names table ≡ true
      → first_match haystack algorithm table ≡ some class
      → has_name names class ≡ false
  unfolding unnamed first_match
  first_match-unnamed names haystack algorithm [] class h e = cc
  first_match-unnamed names haystack algorithm (sig ∷ table) class h e =
      elim (Bool-cases (matches haystack algorithm sig)) [
        | inl on ↦
            let same : sig.class ≡ class = cc (rw on at e) in
            let out : has_name names sig.class ≡ false = ground arith in rw same at out
        | inr out ↦
            let rest : unnamed names table ≡ true = ground arith in
            first_match-unnamed names haystack algorithm table class rest (rw out at e)
      ]

-- The classes of the signatures that an earlier one shadows.
abbrev pub shadowed_names : List (List ℕ)
shadowed_names =
    codes "Antminer S19j Pro"
    ∷ codes "Antminer S19k Pro"
    ∷ codes "Antminer S19 Pro+"
    ∷ codes "Antminer S19 XP"
    ∷ codes "Antminer S21+"
    ∷ codes "Antminer S21 Pro"
    ∷ codes "Antminer S21 XP"
    ∷ codes "Whatsminer M30S+"
    ∷ codes "Whatsminer M30S++"
    ∷ codes "Whatsminer M50S"
    ∷ codes "Goldshell Mini-DOGE Pro"
    ∷ []

module _ {F : Type 0} (f64 : Float64 F) where
  live-unnamed : unnamed shadowed_names (live (router_table f64)) ≡ true
  unfolding unnamed live drop_shadowed shadows contains str_eq has_prefix
  live-unnamed = refl

  default_device-unnamed :
      (algorithm : List ℕ) → has_name shadowed_names (default_device f64 algorithm) ≡ false
  unfolding default_device str_eq
  default_device-unnamed algorithm = either_way named (str_eq algorithm (codes "scrypt")) refl (
      either_way named (str_eq algorithm (codes "sha256d")) refl
        (either_way named (str_eq algorithm (codes "scryptn")) refl refl))
    where
      named : DeviceClass F → Type 0
      named class = has_name shadowed_names class ≡ false

  -- No device gets one of eleven classes of the table, whatever it calls itself and whichever
  -- algorithm it mines: Antminer S19j Pro, S19k Pro, S19 Pro+, S19 XP, S21+, S21 Pro and S21 XP,
  -- Whatsminer M30S+, M30S++ and M50S, and Goldshell Mini-DOGE Pro.
  pub route-has_name :
      (user_agent worker_name algorithm : List ℕ)
      → has_name shadowed_names (route f64 (router_table f64) user_agent worker_name algorithm)
        ≡ false
  unfolding route or_default
  route-has_name user_agent worker_name algorithm =
      rw (route-live f64 user_agent worker_name algorithm)
        (elim (Option-cases
          (first_match (haystack_of user_agent worker_name) algorithm (live (router_table f64)))) [
            | inl n ↦ rw n (default_device-unnamed algorithm)
            | inr (class, e) ↦ rw e (
                first_match-unnamed shadowed_names (haystack_of user_agent worker_name) algorithm
                  (live (router_table f64)) class live-unnamed e)
          ])
