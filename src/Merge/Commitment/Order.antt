-- ===== src/Merge/Commitment/Order.antt =====
-- Go iterates over a map in any order; the commitment does not depend on it.
use pipool.Base.{ℕ, suc, ◌≡◌, refl, ap, ap₂, ◌∙◌, arith, Bool, false, ◌||◌}
use pipool.Base.{List, [], ◌∷◌, length}
use mathlib.Core.List.{Permᴰ}
use pipool.Go.Strings.{str_eq, str_eq_iff, insert_sorted, sort_strings, insert_sorted_comm}
use pipool.Merge.Commitment.{Symbol, AuxWork, Works, keys, work_hash, aux_hashes}
use pipool.Merge.Commitment.{build_coinbase_commitment}

abbrev pub has_key : Works → Symbol → Bool
has_key [] k = false
has_key (w ∷ works) k = str_eq w.0 k || has_key works k

-- Each key once, as in a map.
abbrev pub IsMap : Works → Type 0
IsMap [] = Unit
IsMap (w ∷ works) = (has_key works w.0 ≡ false) × IsMap works

has_key-perm : {ws ws' : Works} (k : Symbol) → Permᴰ ws ws' → has_key ws k ≡ has_key ws' k
has_key-perm k Permᴰ.nil = refl
has_key-perm k (Permᴰ.cons p q) = rw (p, has_key-perm k q)
has_key-perm k (Permᴰ.swap {a' = a} {b' = b} {l = l} p q) = rw (p, q) (ground arith)
has_key-perm k (Permᴰ.trans p q) = has_key-perm k p ∙ has_key-perm k q

str_eq_sym : (s t : Symbol) → str_eq s t ≡ str_eq t s
str_eq_sym s t = ground (arith, str_eq_iff s t, str_eq_iff t s)

IsMap-perm : {ws ws' : Works} → Permᴰ ws ws' → IsMap ws → IsMap ws'
IsMap-perm Permᴰ.nil h = tt
IsMap-perm (Permᴰ.cons p q) (fresh, h) = (rw (← p, ← has_key-perm _ q) fresh, IsMap-perm q h)
IsMap-perm (Permᴰ.swap {a' = a} {b' = b} {l = l} p q) h =
    let h' : IsMap (b ∷ a ∷ l) = rw (p, q) at h in ground (arith, str_eq_sym a.0 b.0)
IsMap-perm (Permᴰ.trans p q) h = IsMap-perm q (IsMap-perm p h)

work_hash-perm :
    {ws ws' : Works} (k : Symbol) → Permᴰ ws ws' → IsMap ws → work_hash ws k ≡ work_hash ws' k
unfolding work_hash
work_hash-perm k Permᴰ.nil h = refl
work_hash-perm k (Permᴰ.cons p q) (fresh, h) = rw (p, work_hash-perm k q h)
work_hash-perm k (Permᴰ.swap {a' = a} {b' = b} {l = l} p q) h =
    let h' : IsMap (b ∷ a ∷ l) = rw (p, q) at h in
    rw (p, q) (ground (arith, str_eq_iff a.0 k, str_eq_iff b.0 k, str_eq_iff a.0 b.0))
work_hash-perm k (Permᴰ.trans p q) h = work_hash-perm k p h ∙ work_hash-perm k q (IsMap-perm p h)

sort_keys-perm : {ws ws' : Works} → Permᴰ ws ws' → sort_strings (keys ws) ≡ sort_strings (keys ws')
unfolding sort_strings
sort_keys-perm Permᴰ.nil = refl
sort_keys-perm (Permᴰ.cons p q) =
    ap₂ (λ (w : Symbol × AuxWork) t. insert_sorted w.0 t) p (sort_keys-perm q)
sort_keys-perm (Permᴰ.swap {a' = a} {b' = b} {l = l} p q) =
    rw (p, q) (insert_sorted_comm b.0 a.0 (sort_strings (keys l)))
sort_keys-perm (Permᴰ.trans p q) = sort_keys-perm p ∙ sort_keys-perm q

length-perm : {ws ws' : Works} → Permᴰ ws ws' → length ws ≡ length ws'
length-perm Permᴰ.nil = refl
length-perm (Permᴰ.cons p q) = ap suc (length-perm q)
length-perm (Permᴰ.swap p q) = refl
length-perm (Permᴰ.trans p q) = length-perm p ∙ length-perm q

aux_hashes-perm :
    {ws ws' : Works} (syms : List Symbol)
    → Permᴰ ws ws'
    → IsMap ws
    → aux_hashes ws syms ≡ aux_hashes ws' syms
unfolding aux_hashes
aux_hashes-perm [] p h = refl
aux_hashes-perm (s ∷ syms) p h = rw (work_hash-perm s p h, aux_hashes-perm syms p h)

-- Two iterations over the same map, each key once, give the same commitment and symbol order.
pub build_coinbase_commitment-perm :
    (sha256 : List ℕ → List ℕ) (ws ws' : Works)
    → IsMap ws
    → Permᴰ ws ws'
    → build_coinbase_commitment sha256 ws ≡ build_coinbase_commitment sha256 ws'
unfolding build_coinbase_commitment
build_coinbase_commitment-perm sha256 [] [] h p = refl
build_coinbase_commitment-perm sha256 [] (w ∷ ws) h p = absurd (omega (arith, length-perm p))
build_coinbase_commitment-perm sha256 (w ∷ ws) [] h p = absurd (omega (arith, length-perm p))
build_coinbase_commitment-perm sha256 (w ∷ ws) (v ∷ vs) h p =
    rw (sort_keys-perm p, aux_hashes-perm (sort_strings (keys (v ∷ vs))) p h, length-perm p)
