-- ===== src/Engine/Complete/Saves.antt =====
-- The step of a sync that saves the checkpoint: what it saves, and what a failure leaves.
use obsink.Base.{◌≡◌, refl, ◌∙◌, ap, Bool, true, false, List, [], arith}
use obsink.Base.Ord.{text_ord}
use obsink.Base.Text.{Text}
use obsink.Base.Result.{Result, ok, err}
use obsink.Base.Io.{Io, continue}
use obsink.Types.{Manifest}
use obsink.Manifest.{checkpoint_manifest}
use obsink.Engine.{
  SyncEngineError, Device, Saved, saved, missing, corrupt, Platform, VaultConfig, manifest_file,
  load,
}
use obsink.Engine.Remote.{
  load_manifest_from_disk, save_manifest_to_disk, fetch_remote_manifest, report_checkpoint,
  checkpoint, parsed_manifest,
}
use obsink.Engine.Complete.Kept.{fetch_remote_manifest-Keeps, report_checkpoint-Kept}

-- The base that the checkpoint file gives the next sync.
abbrev pub base_of : Saved Manifest → Manifest
base_of missing = []
base_of corrupt = []
base_of (saved manifest) = manifest

parsed-ok :
    (file : Saved Manifest) (fault : Bool) (base : Manifest)
    → parsed_manifest file fault ≡ ok base
    → base ≡ base_of file
parsed-ok missing fault base h = ground (arith, h)
parsed-ok corrupt true base h = absurd (ground (arith, h))
parsed-ok corrupt false base h = absurd (ground (arith, h))
parsed-ok (saved manifest) true base h = absurd (ground (arith, h))
parsed-ok (saved manifest) false base h = ground (arith, h)

module _ {W : Type 0} (p : Platform W) where
  save_manifest-ok :
      (manifest : Manifest) (d : Device W)
      → (save_manifest_to_disk p manifest d).0 ≡ ok tt
      → (save_manifest_to_disk p manifest d).1.checkpoint ≡ saved manifest
  unfolding save_manifest_to_disk
  save_manifest-ok manifest d h = ground (arith, h)

  save_manifest-err :
      (manifest : Manifest) (d : Device W) (e : SyncEngineError)
      → (save_manifest_to_disk p manifest d).0 ≡ err e
      → (save_manifest_to_disk p manifest d).1.checkpoint ≡ d.checkpoint
  unfolding save_manifest_to_disk
  save_manifest-err manifest d e h = ground (arith, h)

  module _ (config : VaultConfig) (hold_back : List Text) where
    -- The steps of `checkpoint` after the save, after the load and after the fetch.
    abbrev after_save : Unit {0} → Io SyncEngineError (Device W) (Unit {0})
    after_save u d = (ok tt, report_checkpoint p config d)

    abbrev after_load : Manifest → Manifest → Io SyncEngineError (Device W) (Unit {0})
    after_load remote base d =
        continue (save_manifest_to_disk p (checkpoint_manifest base remote hold_back) d) after_save

    abbrev after_fetch : Manifest → Io SyncEngineError (Device W) (Unit {0})
    after_fetch remote d = continue (load_manifest_from_disk p d) (after_load remote)

    saved_ok :
        (r : Result SyncEngineError (Unit {0}) × Device W) (u : Unit {0})
        → (continue r after_save).0 ≡ ok u
        → (r.0 ≡ ok tt) × ((continue r after_save).1.checkpoint ≡ r.1.checkpoint)
    saved_ok (ok v, d) u h = (refl, report_checkpoint-Kept p d.checkpoint config d refl)
    saved_ok (err e, d) u h = absurd (ground (arith, h))

    saved_err :
        (r : Result SyncEngineError (Unit {0}) × Device W) (e : SyncEngineError)
        → (continue r after_save).0 ≡ err e
        → (r.0 ≡ err e) × ((continue r after_save).1.checkpoint ≡ r.1.checkpoint)
    saved_err (ok v, d) e h = absurd (ground (arith, h))
    saved_err (err f, d) e h = (h, refl)

    after_load-ok :
        (remote base : Manifest) (d : Device W) (u : Unit {0})
        → (after_load remote base d).0 ≡ ok u
        → (after_load remote base d).1.checkpoint
          ≡ saved (checkpoint_manifest base remote hold_back)
    after_load-ok remote base d u h =
        let next = checkpoint_manifest base remote hold_back in
        let done = saved_ok (save_manifest_to_disk p next d) u h in
        done.1 ∙ save_manifest-ok next d done.0

    after_load-err :
        (remote base : Manifest) (d : Device W) (e : SyncEngineError)
        → (after_load remote base d).0 ≡ err e
        → (after_load remote base d).1.checkpoint ≡ d.checkpoint
    after_load-err remote base d e h =
        let next = checkpoint_manifest base remote hold_back in
        let done = saved_err (save_manifest_to_disk p next d) e h in
        done.1 ∙ save_manifest-err next d e done.0

    loaded_ok :
        (remote : Manifest) (r : Result SyncEngineError Manifest) (d : Device W) (u : Unit {0})
        → ((base : Manifest) → r ≡ ok base → base ≡ base_of d.checkpoint)
        → (continue (r, d) (after_load remote)).0 ≡ ok u
        → (continue (r, d) (after_load remote)).1.checkpoint
          ≡ saved (checkpoint_manifest (base_of d.checkpoint) remote hold_back)
    loaded_ok remote (ok base) d u fits h =
        after_load-ok remote base d u h
        ∙ ap (λ b. saved (checkpoint_manifest b remote hold_back)) (fits base refl)
    loaded_ok remote (err e) d u fits h = absurd (ground (arith, h))

    loaded_err :
        (remote : Manifest) (r : Result SyncEngineError Manifest) (d : Device W)
        (e : SyncEngineError)
        → (continue (r, d) (after_load remote)).0 ≡ err e
        → (continue (r, d) (after_load remote)).1.checkpoint ≡ d.checkpoint
    loaded_err remote (ok base) d e h = after_load-err remote base d e h
    loaded_err remote (err f) d e h = refl

    fetched_ok :
        (r : Result SyncEngineError Manifest × Device W) (u : Unit {0})
        → (continue r after_fetch).0 ≡ ok u
        → (remote : Manifest) × (r.0 ≡ ok remote)
          × ((continue r after_fetch).1.checkpoint
              ≡ saved (checkpoint_manifest (base_of r.1.checkpoint) remote hold_back))
    unfolding load_manifest_from_disk
    fetched_ok (ok remote, d) u h = (
      remote,
      refl,
      loaded_ok remote _ d u (parsed-ok d.checkpoint (p.fails d (load manifest_file))) h,
    )
    fetched_ok (err e, d) u h = absurd (ground (arith, h))

    fetched_err :
        (r : Result SyncEngineError Manifest × Device W) (e : SyncEngineError)
        → (continue r after_fetch).0 ≡ err e
        → (continue r after_fetch).1.checkpoint ≡ r.1.checkpoint
    unfolding load_manifest_from_disk
    fetched_err (ok remote, d) e h = loaded_err remote _ d e h
    fetched_err (err f, d) e h = refl

    pub checkpoint-ok :
        (d : Device W) (u : Unit {0})
        → (checkpoint p config hold_back d).0 ≡ ok u
        → (remote : Manifest) × ((fetch_remote_manifest p d).0 ≡ ok remote)
          × ((checkpoint p config hold_back d).1.checkpoint
              ≡ saved (checkpoint_manifest (base_of d.checkpoint) remote hold_back))
    unfolding checkpoint
    checkpoint-ok d u h =
        let done = fetched_ok (fetch_remote_manifest p d) u h in
        let kept = fetch_remote_manifest-Keeps p d.checkpoint d refl in
        (
          done.0,
          done.1,
          done.2 ∙ ap (λ c. saved (checkpoint_manifest (base_of c) done.0 hold_back)) kept,
        )

    pub checkpoint-err :
        (d : Device W) (e : SyncEngineError)
        → (checkpoint p config hold_back d).0 ≡ err e
        → (checkpoint p config hold_back d).1.checkpoint ≡ d.checkpoint
    unfolding checkpoint
    checkpoint-err d e h =
        fetched_err (fetch_remote_manifest p d) e h
        ∙ fetch_remote_manifest-Keeps p d.checkpoint d refl
