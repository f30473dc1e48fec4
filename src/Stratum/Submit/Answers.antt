-- ===== src/Stratum/Submit/Answers.antt =====
-- handleSubmit ends where the nbits of the jobs make a target.
use pipool.Base.{ℕ, suc, ◌≡◌, refl, Bool, true, false, List, Option, none, some}
use pipool.Base.{Option-cases, Bool-cases, inl, inr, length, ◌==◌, ◌*◌}
use pipool.Go.Float.{Float64}
use pipool.Go.Hex.{hex_decode}
use pipool.Go.Maps.{lookup}
use pipool.Stratum.Share.{Job, Work, nbits_to_target, diff1_target, check_nonces, validate_share}
use pipool.Stratum.Worker.{Worker, Config, Server}
use pipool.Stratum.Submit.{
  Params, Outcome, handle_submit, submit_params, submit_job, judged, read_params, share_work,
  validation_diff,
}

abbrev pub HasTarget : Job → Type 0
HasTarget job = (target : ℕ) × nbits_to_target (hex_decode job.nbits).0 ≡ some target

-- The difficulty that a worker's shares are checked at has a target.
abbrev pub HasShareTarget : {F : Type 0} → (ℕ → F → Option ℕ) → List ℕ → F → Type 0
HasShareTarget quotient algo diff = (target : ℕ) × quotient (diff1_target algo) diff ≡ some target

module _ {F : Type 0} (f64 : Float64 F) (cfg : Config F) (now : ℕ) (sha256 : List ℕ → List ℕ)
    (scrypt : List ℕ → List ℕ → ℕ → ℕ → ℕ → ℕ → Option (List ℕ)) (quotient : ℕ → F → Option ℕ) where
  check_nonces-some :
      (job : Job) (nonce : List ℕ) (share_target : ℕ) (header : Option (List ℕ → List ℕ))
      → HasTarget job
      → (v : Bool × Bool × List ℕ) × check_nonces sha256 scrypt cfg.algorithm job nonce
            (some share_target)
            header
          ≡ some v
  unfolding check_nonces
  check_nonces-some job nonce st none h = (_, refl)
  check_nonces-some job nonce st (some header) (target, e) = rw e (_, refl)

  validate_share-some :
      (job : Job) (work : Work) (nonce : List ℕ) (diff : F)
      → HasTarget job
      → HasShareTarget quotient cfg.algorithm diff
      → (v : Bool × Bool × List ℕ) × validate_share sha256 scrypt cfg.algorithm quotient job work
            nonce diff
          ≡ some v
  unfolding validate_share
  validate_share-some job work nonce diff h (st, e) = rw e (check_nonces-some job nonce st _ h)

  judged-some :
      (upstream : Option Bool) (s : Server F) (w : Worker F) (job : Job) (work : Work) (diff : F)
      (v : Bool × Bool × List ℕ)
      → (r : Outcome F) × judged f64 cfg now sha256 scrypt quotient upstream s w job work diff
            (some v)
          ≡ some r
  unfolding judged
  judged-some upstream s w job work diff (false, is_block, nonce) = (_, refl)
  judged-some upstream s w job work diff (true, is_block, nonce) = (_, refl)

  submit_job-some :
      (upstream : Option Bool) (s : Server F) (w : Worker F) (p : Params) (current job : Option Job)
      → ((j : Job) → job ≡ some j → HasTarget j)
      → HasShareTarget quotient cfg.algorithm (validation_diff f64 cfg now w)
      → (r : Outcome F) × submit_job f64 cfg now sha256 scrypt quotient upstream s w p current job
          ≡ some r
  unfolding submit_job
  submit_job-some upstream s w p none job h d = (_, refl)
  submit_job-some upstream s w p (some current) none h d = (_, refl)
  submit_job-some upstream s w p (some current) (some job) h d =
      elim (Bool-cases (length p.extranonce2 == w.en2_size * 2)) [
        | inl fits ↦
            let work : Work = share_work f64 cfg now sha256 scrypt quotient w p job in
            let diff : F = validation_diff f64 cfg now w in
            let (v, e) = validate_share-some job work p.nonce diff (h job refl) d in
            rw (fits, e) (judged-some upstream s w job work diff v)
        | inr bad ↦ rw bad (_, refl)
      ]

  pub handle_submit-some :
      (upstream : Option Bool) (s : Server F) (w : Worker F) (params : List (List ℕ))
      → ((id : List ℕ) (job : Job) → lookup s.recent_jobs id ≡ some job → HasTarget job)
      → HasShareTarget quotient cfg.algorithm (validation_diff f64 cfg now w)
      → (r : Outcome F) × handle_submit f64 cfg now sha256 scrypt quotient upstream s w params
          ≡ some r
  unfolding handle_submit submit_params
  handle_submit-some upstream s w params h d = elim (Option-cases (read_params params)) [
    | inl malformed ↦ rw malformed (_, refl)
    | inr (p, ok) ↦ rw ok (
        submit_job-some upstream (record s { total_shares = suc s.total_shares }) w p s.current_job
          (lookup s.recent_jobs p.job_id) (h p.job_id) d)
  ]
