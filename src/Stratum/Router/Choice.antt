-- ===== src/Stratum/Router/Choice.antt =====
-- Which class RouteWorker of internal/stratum/router.go gives a device.
use pipool.Base.{ℕ, ◌≡◌, refl, ap, ap₂, ◌⊎◌, inl, inr, arith, true}
use pipool.Base.{List, [], ◌∷◌, ◌++◌, map, Bool-cases, none, some, ==_iff}
use pipool.Base.Bytes.{All}
use pipool.Go.Contains.{contains}
use pipool.Go.Float.{Float64}
use pipool.Go.Strings.{str_eq_iff, to_lower, has_prefix}
use pipool.Stratum.Router.{
  DeviceClass, DeviceSignature, matches, first_match, route, or_default, default_device,
  haystack_of,
}
use pipool.Stratum.Router.Table.{router_table}

-- The text has the pattern somewhere in it.
abbrev pub Occurs : List ℕ → List ℕ → Type 0
Occurs text pattern = (before : List ℕ) × (after : List ℕ) × (text ≡ before ++ (pattern ++ after))

has_prefix-append : (s p : List ℕ) → has_prefix s p ≡ true → (after : List ℕ) × (s ≡ p ++ after)
unfolding has_prefix
has_prefix-append s [] h = (s, refl)
has_prefix-append [] (b ∷ p) h = cc
has_prefix-append (a ∷ s) (b ∷ p) h =
    let (after, e) = has_prefix-append s p (ground arith) in
    let same : a ≡ b = ground (arith, ==_iff a b) in (after, ap₂ ◌∷◌ same e)

prefix_of : (p after : List ℕ) → has_prefix (p ++ after) p ≡ true
unfolding has_prefix
prefix_of [] after = refl
prefix_of (b ∷ p) after = ground (arith, ==_iff b b, prefix_of p after)

contains-Occurs : (s p : List ℕ) → contains s p ≡ true → Occurs s p
unfolding contains
contains-Occurs [] p h = let (after, e) = has_prefix-append [] p h in ([], after, e)
contains-Occurs (c ∷ s) p h = elim (Bool-cases (has_prefix (c ∷ s) p)) [
  | inl here ↦ let (after, e) = has_prefix-append (c ∷ s) p here in ([], after, e)
  | inr there ↦
      let (before, after, e) = contains-Occurs s p (rw there at h) in
      (c ∷ before, after, ap (λ rest. c ∷ rest) e)
]

contains-inside : (before p after : List ℕ) → contains (before ++ (p ++ after)) p ≡ true
unfolding contains
contains-inside [] [] [] = unfold has_prefix in refl
contains-inside [] [] (c ∷ after) = unfold has_prefix in refl
contains-inside [] (b ∷ p) after = rw (prefix_of (b ∷ p) after) refl
contains-inside (c ∷ before) p after = ground (arith, contains-inside before p after)

module _ {F : Type 0} where
  -- The pattern of the signature occurs in the text, and its algorithm is the one asked for, or none.
  abbrev pub Fits : List ℕ → List ℕ → DeviceSignature F → Type 0
  Fits text algorithm sig =
      Occurs text sig.pattern × ((sig.class.algorithm ≡ algorithm) ⊎ (sig.class.algorithm ≡ []))

  matches-Fits :
      (text algorithm : List ℕ) (sig : DeviceSignature F)
      → matches text algorithm sig ≡ true
      → Fits text algorithm sig
  unfolding matches
  matches-Fits text algorithm sig h = (
    contains-Occurs text sig.pattern (ground arith),
    ground (arith, str_eq_iff sig.class.algorithm algorithm, str_eq_iff sig.class.algorithm []),
  )

  Fits-matches :
      (text algorithm : List ℕ) (sig : DeviceSignature F)
      → Fits text algorithm sig
      → matches text algorithm sig ≡ true
  unfolding matches
  Fits-matches text algorithm sig ((before, after, e), a) =
      let inside : contains text sig.pattern ≡ true =
        rw e (contains-inside before sig.pattern after) in
      ground (arith, str_eq_iff sig.class.algorithm algorithm, str_eq_iff sig.class.algorithm [])

  -- The first signature of the table that fits, with those before it that do not.
  pub record IsFirst (table : List (DeviceSignature F)) (text algorithm : List ℕ)
      (class : DeviceClass F) : Type 0 where
    pub before : List (DeviceSignature F)
    pub sig : DeviceSignature F
    pub after : List (DeviceSignature F)
    pub splits : table ≡ before ++ (sig ∷ after)
    pub fits : Fits text algorithm sig
    pub passed : All (λ (s : DeviceSignature F). ¬ Fits text algorithm s) before
    pub is_class : class ≡ sig.class

  first_match-cases :
      (table : List (DeviceSignature F)) (text algorithm : List ℕ)
      → ((class : DeviceClass F) × (first_match text algorithm table ≡ some class)
          × IsFirst table text algorithm class)
        ⊎ ((first_match text algorithm table ≡ none)
            × All (λ (s : DeviceSignature F). ¬ Fits text algorithm s) table)
  unfolding first_match
  first_match-cases [] text algorithm = inr (refl, tt)
  first_match-cases (sig ∷ table) text algorithm = elim (Bool-cases (matches text algorithm sig)) [
    | inl on ↦ rw on (
        inl (
          sig.class,
          refl,
          record {
            before = [];
            sig = sig;
            after = table;
            splits = refl;
            fits = matches-Fits text algorithm sig on;
            passed = tt;
            is_class = refl;
          },
        ))
    | inr out ↦
        let misses : ¬ Fits text algorithm sig =
          λ f. let on = Fits-matches text algorithm sig f in cc in
        rw out (elim (first_match-cases table text algorithm) [
          | inl (class, e, f) ↦ inl (
            class,
            e,
            record {
              before = sig ∷ f.before;
              sig = f.sig;
              after = f.after;
              splits = ap (λ rest. sig ∷ rest) f.splits;
              fits = f.fits;
              passed = (misses, f.passed);
              is_class = f.is_class;
            },
          )
          | inr (e, none_fits) ↦ inr (e, (misses, none_fits))
        ])
  ]

-- A device is known by its user agent, a blank and its worker name, in lower case. It gets the class of
-- the first signature of the table whose pattern occurs in that text and whose algorithm is the one
-- asked for, or none. Where there is no such signature, it gets the default of the algorithm.
pub route-IsFirst :
    {F : Type 0} (f64 : Float64 F) (user_agent worker_name algorithm : List ℕ)
    → let text = map to_lower (user_agent ++ (32 ∷ worker_name)) in
      let class = route f64 (router_table f64) user_agent worker_name algorithm in
      IsFirst (router_table f64) text algorithm class
      ⊎ (All (λ (s : DeviceSignature F). ¬ Fits text algorithm s) (router_table f64)
          × (class ≡ default_device f64 algorithm))
unfolding route or_default haystack_of
route-IsFirst f64 user_agent worker_name algorithm =
    elim (first_match-cases (router_table f64) (map to_lower (user_agent ++ (32 ∷ worker_name)))
      algorithm) [
        | inl (class, e, f) ↦ rw e (inl f)
        | inr (e, none_fits) ↦ rw e (inr (none_fits, refl))
      ]
