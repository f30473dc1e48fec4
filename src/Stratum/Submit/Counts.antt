-- ===== src/Stratum/Submit/Counts.antt =====
-- How a submission is counted and answered, on each branch of handleSubmit.
use pipool.Base.{ℕ, suc, ◌≡◌, ◌⊎◌, refl, ◌∙◌, arith, Bool, true, false, either_way}
use pipool.Base.{List, [], ◌∷◌, ◌++◌, Option, none, some, Bool-cases, inl, inr}
use pipool.Base.{leb, length, ◌==◌, ◌*◌, ◌&&◌, ◌%◌, if◌then◌else◌}
use pipool.Base.Options.{by_some}
use pipool.Go.Float.{Float64}
use pipool.Go.Maps.{lookup}
use pipool.Go.Strings.{str_eq}
use pipool.Stratum.Share.{Job, Work, Block}
use pipool.Stratum.Vardiff.Quiet.{Quiet, shares, adjust_vardiff-Quiet, decay_vardiff-Quiet}
use pipool.Stratum.Worker.{
  Worker, Config, Server, Event, refused, low_difficulty_share, closed, stale_kick,
}
use pipool.Stratum.Submit.Replies.{replies, replies-append, silent-replies, silent_if}
use pipool.Stratum.Submit.Answers.{HasTarget, HasShareTarget, handle_submit-some}
use pipool.Stratum.Account.{
  record_stale_kick, update_seen_worker_shares, record_share_sample, pruned_kicks,
}
use pipool.Stratum.Submit.{
  Params, Outcome, handle_submit, submit_params, submit_job, judged, submit_valid, submit_invalid,
  submit_stale, stale_worker, count_rejected, count_accepted, count_valid, send_block, last_reply,
  auto_kick, kick_at, validation_diff, read_params,
}

module _ {F : Type 0} (f64 : Float64 F) (cfg : Config F) (now : ℕ) where
  -- One reply, or none where the worker is kicked for its rejects: the connection is closed then.
  abbrev pub Answered : Outcome F → Type 0
  Answered r =
      (replies r.2 ≡ 1)
      ⊎ ((auto_kick f64 cfg now r.1 ≡ true)
          × ((before : List (Event F)) × (r.2 ≡ before ++ (closed ∷ [])))
          × (replies r.2 ≡ 0))

  record Counted (s : Server F) (w : Worker F) (r : Outcome F) : Type 0 where
    total : r.0.total_shares ≡ s.total_shares
    once : shares r.1 ≡ suc (shares w)
    answered : Answered r

  update-total :
      (w : Worker F) (s : Server F)
      → (update_seen_worker_shares f64 cfg now w s).total_shares ≡ s.total_shares
  unfolding update_seen_worker_shares
  update-total w s =
      either_way (λ (x : Server F). x.total_shares ≡ s.total_shares) (str_eq w.worker_name []) refl
        refl

  submit_stale-Counted :
      (s : Server F) (w : Worker F) (job_id : List ℕ)
      → Counted s w (submit_stale f64 cfg now s (stale_worker f64 cfg now job_id w))
  unfolding submit_stale stale_worker record_stale_kick
  submit_stale-Counted s w job_id =
      let v : Worker F = stale_worker f64 cfg now job_id w in
      let pruned : List ℕ =
        pruned_kicks f64 cfg now
          (lookup (update_seen_worker_shares f64 cfg now v s).worker_kick_times w.worker_name) in
      either_way (Counted s w) (leb (kick_at f64 cfg now) v.stale_job_streak)
        (record {
          total = update-total v s;
          once = omega arith;
          answered = inl (
              omega (
                arith,
                replies-append
                    (if leb 3 (length pruned) && length pruned % 3 == 0
                      then stale_kick w.worker_name (length pruned) ∷ []
                      else [])
                    (closed ∷ []),
                silent_if (leb 3 (length pruned) && length pruned % 3 == 0)
                    (stale_kick w.worker_name (length pruned)) refl,
              ));
        })
        (record { total = update-total v s; once = omega arith; answered = inl refl })

  submit_invalid-Counted :
      (s : Server F) (w : Worker F) (diff : F) (r : Worker F × List (Event F))
      → Quiet (count_rejected f64 cfg now w) r
      → Counted s w (submit_invalid f64 cfg now s diff (count_rejected f64 cfg now w) r)
  unfolding submit_invalid count_rejected record_share_sample
  submit_invalid-Counted s w diff (v, sent) q = record {
    total = update-total _ s;
    once = q.same_shares ∙ omega arith;
    answered = elim (Bool-cases (auto_kick f64 cfg now v)) [
      | inl kicked ↦ rw kicked (
          inr (
            refl,
            (sent, refl),
            omega (arith, replies-append sent (closed ∷ []), silent-replies sent q.silent),
          ))
      | inr stays ↦ rw stays (
          inl (
            omega (
              arith,
              replies-append sent (refused low_difficulty_share ∷ []),
              silent-replies sent q.silent,
            )))
    ];
  }

  send_block-total :
      (job : Job) (w : Worker F) (block : Option Block) (s : Server F)
      → (send_block f64 cfg now job w block s).0.total_shares ≡ s.total_shares
  unfolding send_block
  send_block-total job w none s = refl
  send_block-total job w (some b) s = refl

  send_block-replies :
      (job : Job) (w : Worker F) (block : Option Block) (s : Server F)
      → replies (send_block f64 cfg now job w block s).1 ≡ 0
  unfolding send_block
  send_block-replies job w none s = refl
  send_block-replies job w (some b) s = refl

  last_reply-replies : (upstream : Option Bool) → replies (last_reply f64 cfg now upstream ∷ []) ≡ 1
  unfolding last_reply
  last_reply-replies none = refl
  last_reply-replies (some true) = refl
  last_reply-replies (some false) = refl

  module _ (sha256 : List ℕ → List ℕ) (scrypt : List ℕ → List ℕ → ℕ → ℕ → ℕ → ℕ → Option (List ℕ))
      (quotient : ℕ → F → Option ℕ) where
    submit_valid-Counted :
        (upstream : Option Bool) (s : Server F) (w : Worker F) (diff : F)
        (r : Worker F × List (Event F)) (job : Job) (block : Option Block)
        → Quiet (count_accepted f64 cfg now diff w) r
        → Counted s w (
            submit_valid f64 cfg now sha256 scrypt quotient upstream s
              (count_accepted f64 cfg now diff w)
              diff
              r
              job
              block)
    unfolding submit_valid count_accepted count_valid record_share_sample
    submit_valid-Counted upstream s w diff (v, sent) job block q =
        let counted : Worker F = count_accepted f64 cfg now diff w in
        let s' : Server F = count_valid f64 cfg now diff counted s in
        let blocks : List (Event F) = (send_block f64 cfg now job v block s').1 in
        let last : List (Event F) = last_reply f64 cfg now upstream ∷ [] in
        record {
          total = send_block-total job v block s' ∙ update-total counted _;
          once = q.same_shares ∙ omega arith;
          answered = inl (
              omega (
                arith,
                replies-append sent (blocks ++ last),
                replies-append blocks last,
                silent-replies sent q.silent,
                send_block-replies job v block s',
                last_reply-replies upstream,
              ));
        }

    judged-Counted :
        (upstream : Option Bool) (s : Server F) (w : Worker F) (job : Job) (work : Work) (diff : F)
        (verdict : Option (Bool × Bool × List ℕ)) {r : Outcome F}
        → judged f64 cfg now sha256 scrypt quotient upstream s w job work diff verdict ≡ some r
        → Counted s w r
    unfolding judged
    judged-Counted upstream s w job work diff none e = cc
    judged-Counted upstream s w job work diff (some (false, is_block, nonce)) {r} e =
        by_some (Counted s w) e (
          submit_invalid-Counted s w diff _
            (decay_vardiff-Quiet f64 cfg now (count_rejected f64 cfg now w)))
    judged-Counted upstream s w job work diff (some (true, is_block, nonce)) {r} e =
        by_some (Counted s w) e (
          submit_valid-Counted upstream s w diff _ job _
            (adjust_vardiff-Quiet f64 cfg now (count_accepted f64 cfg now diff w)))

    refused-Counted :
        (s t : Server F) (w : Worker F) (e : Event F)
        → t.total_shares ≡ s.total_shares
        → replies (e ∷ []) ≡ 1
        → Counted s w (t, count_rejected f64 cfg now w, e ∷ [])
    unfolding count_rejected
    refused-Counted s t w e h he = record { total = h; once = omega arith; answered = inl he }

    submit_job-Counted :
        (upstream : Option Bool) (s : Server F) (w : Worker F) (p : Params)
        (current job : Option Job) {r : Outcome F}
        → submit_job f64 cfg now sha256 scrypt quotient upstream s w p current job ≡ some r
        → Counted s w r
    unfolding submit_job record_share_sample
    submit_job-Counted upstream s w p none job e =
        by_some (Counted s w) e (refused-Counted s s w _ refl refl)
    submit_job-Counted upstream s w p (some current) none e =
        by_some (Counted s w) e (submit_stale-Counted s w p.job_id)
    submit_job-Counted upstream s w p (some current) (some job) {r} e =
        elim (Bool-cases (length p.extranonce2 == w.en2_size * 2)) [
          | inl fits ↦ judged-Counted upstream s w job _ _ _ (rw fits at e)
          | inr bad ↦ by_some (Counted s w) (rw bad at e) (refused-Counted s _ w _ refl refl)
        ]

    submit_params-Counted :
        (upstream : Option Bool) (s : Server F) (w : Worker F) (p : Option Params) {r : Outcome F}
        → submit_params f64 cfg now sha256 scrypt quotient upstream s w p ≡ some r
        → Counted s w r
    unfolding submit_params
    submit_params-Counted upstream s w none e =
        by_some (Counted s w) e (refused-Counted s s w _ refl refl)
    submit_params-Counted upstream s w (some p) e = submit_job-Counted upstream s w p _ _ e

    handle_submit-Counted :
        (upstream : Option Bool) (s : Server F) (w : Worker F) (params : List (List ℕ))
        {r : Outcome F}
        → handle_submit f64 cfg now sha256 scrypt quotient upstream s w params ≡ some r
        → Counted (record s { total_shares = suc s.total_shares }) w r
    unfolding handle_submit
    handle_submit-Counted upstream s w params e =
        submit_params-Counted upstream (record s { total_shares = suc s.total_shares }) w
          (read_params params) e

    -- Where the nbits of every recent job decode to four bytes or more, and the difficulty that the
    -- worker's shares are checked at has a target (0 has none), handleSubmit ends whatever a miner
    -- submits: the server has counted one share more, the worker one more that is accepted, rejected
    -- or stale, and the miner gets one reply, except where its rejects reach the limit of the
    -- automatic kick: its connection is closed then, and no reply reaches it.
    pub handle_submit-counts :
        (upstream : Option Bool) (s : Server F) (w : Worker F) (params : List (List ℕ))
        → ((id : List ℕ) (job : Job) → lookup s.recent_jobs id ≡ some job → HasTarget job)
        → HasShareTarget quotient cfg.algorithm (validation_diff f64 cfg now w)
        → (r : Outcome F) × handle_submit f64 cfg now sha256 scrypt quotient upstream s w params
            ≡ some r
          × r.0.total_shares ≡ suc s.total_shares
          × shares r.1 ≡ suc (shares w)
          × Answered r
    handle_submit-counts upstream s w params jobs diff =
        let (r, e) =
          handle_submit-some f64 cfg now sha256 scrypt quotient upstream s w params jobs diff in
        let k = handle_submit-Counted upstream s w params e in (r, e, k.total, k.once, k.answered)
