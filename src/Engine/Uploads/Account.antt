-- ===== src/Engine/Uploads/Account.antt =====
-- core/src/sync_engine.rs: the count of the uploads that `run_uploads` accounts for.
use obsink.Base.{
  ◌<◌, ◌≤◌, ◌^◌, zero, subst, map, All, ℕ, suc, ◌+◌, ◌-◌, ◌≡◌, refl, sym, ◌∙◌, ap, true, false,
  Option, none, some, List, [], ◌∷◌, length, any, arith, inl, inr, Bool-cases, length-append,
}
use obsink.Base.Ord.{nat_ord, text_ord}
use obsink.Base.Text.{Text}
use obsink.Base.Result.{Result, ok, err}
use obsink.Types.{SyncAction, SyncFailure, BatchOp, BatchOperationResult}
use obsink.SyncRules.Batches.{Consecutive, chunk_uploads-Consecutive}
use obsink.SyncRules.{Range}
use obsink.Client.{ApiError}
use obsink.Engine.{SyncEngineError, Device, Platform, is_fatal_api_error}
use obsink.Engine.Uploads.{
  upload_ranges, start_uploads, local_size, Uploading, Prepared, fail_all, prepare_batch_op,
  prepared_with, prepare_batch, answered, send_prepared, run_batch, run_batches, run_uploads, slice,
}
use obsink.Client.Answers.{batch-length}
use obsink.Engine.Uploads.Keeps.{fail_all-keeps}
use obsink.Engine.Uploads.Fatal.{
  Fatal, fail-Fatal, late-Fatal, succeed-Fatal, on_net-Fatal, failed-Fatal, stop-read_results,
}
use obsink.Engine.Uploads.Counted.{
  accounted, accounted-fail, accounted-succeed, accounted-read_results, accounted-fail_all,
}

Consecutive-le : (a : ℕ) (ranges : List Range) (b : ℕ) → Consecutive a ranges b → a ≤ b
Consecutive-le a [] b c = omega (arith, c)
Consecutive-le a (r ∷ ranges) b c = omega (arith, c.0, c.1, Consecutive-le r.end ranges b c.2)

length-slice :
    (start count : ℕ) (uploads : List SyncAction)
    → start + count ≤ length uploads
    → length (slice start count uploads) ≡ count
unfolding slice
length-slice start count [] h = omega (arith, h)
length-slice zero zero (a ∷ uploads) h = refl
length-slice zero (suc count) (a ∷ uploads) h =
    ap suc (length-slice zero count uploads (omega (arith, h)))
length-slice (suc start) count (a ∷ uploads) h = length-slice start count uploads (omega (arith, h))

length-map {ℓ κ} :
    {A : Type ℓ} {B : Type κ} (f : A → B) (xs : List A) → length (map f xs) ≡ length xs
length-map f [] = refl
length-map f (x ∷ xs) = ap suc (length-map f xs)

module _ {W : Type 0} where
  -- Every prepared operation has its member, and the actions without one are accounted for.
  abbrev pub Ready : Prepared × Uploading W → ℕ → Type 0
  Ready b n = (length b.0.ops ≡ length b.0.members) × (accounted b.1 + length b.0.members ≡ n)

  module _ (p : Platform W) where
    prepared_with-Ready :
        (action : SyncAction) (r : Result SyncEngineError (Option BatchOp) × Device W)
        (b : Prepared × Uploading W) (n : ℕ)
        → Ready b n
        → Ready (prepared_with p action r b) (suc n)
    prepared_with-Ready action (ok (some op), d) b n v = (
      omega (arith, length-append b.0.ops (op ∷ []), length-append b.0.members (action ∷ []), v.0),
      omega (arith, length-append b.0.members (action ∷ []), v.1),
    )
    prepared_with-Ready action (ok none, d) b n v =
        (v.0, omega (arith, accounted-succeed (record b.1 { device = d }), v.1))
    prepared_with-Ready action (err e, d) b n v = (
      v.0,
      omega (arith, accounted-fail action (p.error_text e) false (record b.1 { device = d }), v.1),
    )

    pub prepare_batch-Ready :
        (actions : List SyncAction) (b : Prepared × Uploading W) (n : ℕ)
        → Ready b n
        → Ready (prepare_batch p actions b) (n + length actions)
    unfolding prepare_batch
    prepare_batch-Ready [] b n v = let e : n + 0 ≡ n = omega arith in rw e v
    prepare_batch-Ready (action ∷ actions) b n v =
        let e : n + suc (length actions) ≡ suc n + length actions = omega arith in
        rw e (
          prepare_batch-Ready actions _ (suc n)
            (prepared_with-Ready action (prepare_batch_op p action b.1.device) b n v))

    accounted-answered :
        (members : List SyncAction) (r : Result ApiError (List BatchOperationResult))
        (s : Uploading W)
        → ((out : List BatchOperationResult) → r ≡ ok out → length out ≡ length members)
        → accounted (answered p members r s).0 ≡ accounted s + length members
    accounted-answered members (ok results) s h =
        accounted-read_results members results s false (h results refl)
    accounted-answered members (err e) s h =
        accounted-fail_all members (p.api_error_text e) (is_fatal_api_error e) s

    accounted-send_prepared :
        (ops : List BatchOp) (members : List SyncAction) (s : Uploading W)
        → length ops ≡ length members
        → accounted (send_prepared p ops members s).0 ≡ accounted s + length members
    unfolding send_prepared
    accounted-send_prepared [] members s e = omega (arith, e)
    accounted-send_prepared (op ∷ ops) members s e =
        accounted-answered members _ _
          (λ out h. batch-length p.transport (op ∷ ops) s.device.net out h ∙ e)

    accounted-run_batch :
        (actions : List SyncAction) (s : Uploading W)
        → accounted (run_batch p actions s).0 ≡ accounted s + length actions
    unfolding run_batch
    accounted-run_batch actions s =
        let b = prepare_batch p actions (record { ops = []; members = [] }, s) in
        let ready =
          prepare_batch-Ready actions (record { ops = []; members = [] }, s) (accounted s)
            (refl, omega arith) in
        omega (arith, accounted-send_prepared b.0.ops b.0.members b.1 ready.0, ready.1)

    stop-answered :
        (op : BatchOp) (ops : List BatchOp) (members : List SyncAction)
        (r : Result ApiError (List BatchOperationResult)) (s : Uploading W)
        → length (op ∷ ops) ≡ length members
        → (answered p members r s).1 ≡ true
        → Fatal (answered p members r s).0
    unfolding fail_all
    stop-answered op ops members (ok results) s e h =
        stop-read_results members results s false (λ no. absurd (ground (arith, no))) h
    stop-answered op ops [] (err error) s e h = absurd (omega (arith, e))
    stop-answered op ops (action ∷ members) (err error) s e h =
        fail_all-keeps Fatal fail-Fatal late-Fatal succeed-Fatal on_net-Fatal members
          (p.api_error_text error) (is_fatal_api_error error) _
          (failed-Fatal action (p.api_error_text error) (is_fatal_api_error error) s
            λ no. absurd (ground (arith, h, no)))

    stop-send_prepared :
        (ops : List BatchOp) (members : List SyncAction) (s : Uploading W)
        → length ops ≡ length members
        → (send_prepared p ops members s).1 ≡ true
        → Fatal (send_prepared p ops members s).0
    unfolding send_prepared
    stop-send_prepared [] members s e h = absurd (ground (arith, h))
    stop-send_prepared (op ∷ ops) members s e h = stop-answered op ops members _ _ e h

    stop-run_batch :
        (actions : List SyncAction) (s : Uploading W)
        → (run_batch p actions s).1 ≡ true
        → Fatal (run_batch p actions s).0
    unfolding run_batch
    stop-run_batch actions s h =
        let b = prepare_batch p actions (record { ops = []; members = [] }, s) in
        let ready =
          prepare_batch-Ready actions (record { ops = []; members = [] }, s) (accounted s)
            (refl, omega arith) in
        stop-send_prepared b.0.ops b.0.members b.1 ready.0 h

    accounted-run_batches :
        (uploads : List SyncAction) (ranges : List Range) (s : Uploading W) (a : ℕ)
        → Consecutive a ranges (length uploads)
        → any (λ (f : SyncFailure). f.fatal) (run_batches p uploads ranges s).outcome.failures
          ≡ false
        → accounted (run_batches p uploads ranges s) + a ≡ accounted s + length uploads
    unfolding run_batches
    accounted-run_batches uploads [] s a c h = omega (arith, c)
    accounted-run_batches uploads (range ∷ ranges) s a c h =
        let actions = slice range.start (range.end - range.start) uploads in
        let b = run_batch p actions s in
        elim (Bool-cases b.1) [
          | inl stop ↦
              let none_fatal : any (λ (f : SyncFailure). f.fatal) b.0.outcome.failures ≡ false =
                rw (stop, run_batches) at h in
              absurd (cc (sym none_fatal ∙ stop-run_batch actions s stop))
          | inr more ↦
              let rest =
                accounted-run_batches uploads ranges b.0 range.end c.2
                  (rw (more, run_batches) at h) in
              let size =
                length-slice range.start (range.end - range.start) uploads
                  (omega (arith, c.1, Consecutive-le range.end ranges (length uploads) c.2)) in
              rw (more, run_batches)
                (omega (arith, rest, c.0, c.1, size, accounted-run_batch actions s))
        ]

  -- Without a fatal failure every upload succeeded, failed or met a late conflict, for sizes below
  -- 2 ^ 63.
  pub run_uploads-accounted :
      (p : Platform W) (uploads : List SyncAction) (hold_back : List Text) (d : Device W)
      → All (λ size. size < 2 ^ 63) (map local_size uploads)
      → any (λ (f : SyncFailure). f.fatal) (run_uploads p uploads hold_back d).outcome.failures
        ≡ false
      → accounted (run_uploads p uploads hold_back d) ≡ length uploads
  unfolding run_uploads
  run_uploads-accounted p uploads hold_back d small h =
      let covered : Consecutive 0 (upload_ranges uploads) (length uploads) =
        subst (Consecutive 0 (upload_ranges uploads)) (length-map local_size uploads)
          (chunk_uploads-Consecutive (map local_size uploads) small) in
      omega (
        arith,
        accounted-run_batches p uploads (upload_ranges uploads) (start_uploads hold_back d) 0
            covered h,
      )
