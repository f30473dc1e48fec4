-- ===== src/Stratum/Submit/Replies.antt =====
-- The replies among the events of a submission.
use pipool.Base.{ℕ, suc, ◌+◌, ◌≡◌, refl, arith, Bool, either_way, if◌then◌else◌}
use pipool.Base.{List, [], ◌∷◌, ◌++◌}
use pipool.Base.Bytes.{All}
use pipool.Stratum.Vardiff.Quiet.{IsDifficulty, is_difficulty}
use pipool.Stratum.Worker.{
  Event, accepted, refused, closed, set_difficulty, stale_kick, share_accepted, submit_block,
  block_recorded,
}

module _ {F : Type 0} where
  abbrev pub replies : List (Event F) → ℕ
  replies [] = 0
  replies (accepted ∷ es) = suc (replies es)
  replies (refused why ∷ es) = suc (replies es)
  replies (set_difficulty d ∷ es) = replies es
  replies (closed ∷ es) = replies es
  replies (stale_kick name count ∷ es) = replies es
  replies (share_accepted coin name d ∷ es) = replies es
  replies (submit_block b height reward name luck ∷ es) = replies es
  replies (block_recorded hash name height reward luck ∷ es) = replies es

  pub replies-append : (es fs : List (Event F)) → replies (es ++ fs) ≡ replies es + replies fs
  replies-append [] fs = omega arith
  replies-append (accepted ∷ es) fs = omega (arith, replies-append es fs)
  replies-append (refused why ∷ es) fs = omega (arith, replies-append es fs)
  replies-append (set_difficulty d ∷ es) fs = replies-append es fs
  replies-append (closed ∷ es) fs = replies-append es fs
  replies-append (stale_kick name count ∷ es) fs = replies-append es fs
  replies-append (share_accepted coin name d ∷ es) fs = replies-append es fs
  replies-append (submit_block b height reward name luck ∷ es) fs = replies-append es fs
  replies-append (block_recorded hash name height reward luck ∷ es) fs = replies-append es fs

  pub silent-replies : (es : List (Event F)) → All IsDifficulty es → replies es ≡ 0
  silent-replies [] h = refl
  silent-replies (_ ∷ es) (is_difficulty, h) = silent-replies es h

  pub silent_if :
      (b : Bool) (e : Event F) → replies (e ∷ []) ≡ 0 → replies (if b then e ∷ [] else []) ≡ 0
  silent_if b e h = either_way (λ es. replies es ≡ 0) b h refl
