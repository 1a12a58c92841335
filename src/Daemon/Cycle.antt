-- ===== src/Daemon/Cycle.antt =====
-- A cycle answers every conflict of its plan: those that the user did not choose for are deferred.
use obsink.Base.{
  ◌≡◌, refl, ◌∙◌, ap, Bool, true, false, not, ◌||◌, Option, none, some, List, [], ◌∷◌, ◌++◌, any,
  all, filter, map, arith, ℕ,
}
use obsink.Base.Ord.{◌==◌, ==_iff, ==_refl, text_ord}
use obsink.Base.Text.{Text}
use obsink.Base.Result.{Result, ok, err}
use obsink.Base.Io.{continue}
use obsink.Types.{Conflict, SyncPlan, ConflictResolution, defer, Manifest}
use obsink.Client.{ManifestFetch, modified, not_modified, get_manifest_if_changed}
use obsink.Hasher.{HashCache, HasherError, build_manifest_with_cache}
use obsink.Ignore.{IgnoreRules}
use obsink.Engine.{
  Device, Saved, saved, missing, corrupt, Platform, VaultConfig, RemoteManifestCache, online, read,
  ignore_rules,
}
use obsink.Engine.Downloads.{Pick}
use obsink.Engine.Remote.{
  load_manifest_from_disk, parsed_manifest, fetch_remote_manifest, conditional_fetch, use_fetch,
  without_cache, with_etag, load_remote_cache, etag_of,
}
use obsink.Engine.Plan.{
  prepare_sync, load_local_state, with_base, build_working_manifest, read_hash_cache, worked,
  local_state_of,
}
use obsink.Base.{any-append}
use obsink.Engine.Complete.Choices.{
  answers, all_answered, fails_missing, complete_sync_missing, continue-Settles, api-settles,
  Settles,
}
use obsink.Daemon.{Trigger, local, remote, manual, resolve, defer_the_rest, execute, with_plan}

any-map {ℓ κ} :
    {A : Type ℓ} {B : Type κ} (g : A → B) (f : B → Bool) (xs : List A)
    → any f (map g xs) ≡ any (λ x. f (g x)) xs
any-map g f [] = refl
any-map g f (x ∷ xs) = ground (arith, any-map g f xs)

abbrev unanswered : List ConflictResolution → Conflict → Bool
unanswered resolutions c = not (answers resolutions c.path)

same_answer :
    (resolutions : List ConflictResolution) (a b : Text)
    → (a == b) ≡ true
    → answers resolutions a ≡ answers resolutions b
same_answer resolutions a b h = ap (answers resolutions) ((==_iff a b).0 h)

-- A conflict of the list is answered or among those that are not.
answered_or_deferred :
    (resolutions : List ConflictResolution) (conflicts : List Conflict) (path : Text)
    → any (λ (c : Conflict). c.path == path) conflicts ≡ true
    → (answers resolutions path
        || any (λ (c : Conflict). c.path == path) (filter (unanswered resolutions) conflicts))
      ≡ true
answered_or_deferred resolutions [] path h = absurd (ground (arith, h))
answered_or_deferred resolutions (c ∷ conflicts) path h =
    ground (
      arith,
      answered_or_deferred resolutions conflicts path,
      h,
      same_answer resolutions c.path path,
    )

all_in :
    (f : Text → Bool) (conflicts : List Conflict)
    → ((path : Text) → any (λ (c : Conflict). c.path == path) conflicts ≡ true → f path ≡ true)
    → all (λ (c : Conflict). f c.path) conflicts ≡ true
all_in f [] h = refl
all_in f (c ∷ conflicts) h =
    ground
      (arith, ==_refl c.path, h c.path, all_in f conflicts (λ path k. h path (ground (arith, k))))

all_answered-defer_the_rest :
    (plan : SyncPlan) (resolutions : List ConflictResolution)
    → all_answered plan (defer_the_rest plan resolutions) ≡ true
unfolding defer_the_rest
all_answered-defer_the_rest plan resolutions =
    let rest = filter (unanswered resolutions) plan.conflicts in
    let defer_at : Conflict → ConflictResolution = λ c. record { path = c.path; choice = defer } in
    all_in (answers (resolutions ++ map defer_at rest)) plan.conflicts λ path h.
      any-append (λ (r : ConflictResolution). r.path == path) resolutions (map defer_at rest)
      ∙ ground (
        arith,
        any-map defer_at (λ (r : ConflictResolution). r.path == path) rest,
        answered_or_deferred resolutions plan.conflicts path h,
      )

module _ {W : Type 0} (p : Platform W) where
  parsed-settles :
      (file : Saved Manifest) (fault : Bool) → fails_missing (parsed_manifest file fault) ≡ false
  parsed-settles missing fault = refl
  parsed-settles corrupt true = refl
  parsed-settles corrupt false = refl
  parsed-settles (saved manifest) true = refl
  parsed-settles (saved manifest) false = refl

  built_settles :
      (base : Manifest) (d : Device W) (now : ℕ) (r : Result HasherError (Manifest × HashCache))
      → fails_missing (local_state_of p base (worked now base r) d).0 ≡ false
  built_settles base d now (ok built) = refl
  built_settles base d now (err e) = refl

  with_base-Settles : (ignore : IgnoreRules) (base : Manifest) → Settles p (with_base p ignore base)
  unfolding build_working_manifest
  with_base-Settles ignore base d = built_settles base d _ (
      build_manifest_with_cache p.content_hmac (λ path. p.fails d (read path)) d.files
        (read_hash_cache p d) ignore)

  load_local_state-Settles : (ignore : IgnoreRules) → Settles p (load_local_state p ignore)
  unfolding load_local_state load_manifest_from_disk
  load_local_state-Settles ignore d =
      continue-Settles p (load_manifest_from_disk p d) _ (parsed-settles d.checkpoint _)
        (with_base-Settles ignore)

  conditional_fetch-Settles : (etag : Option Text) → Settles p (conditional_fetch p etag)
  unfolding conditional_fetch online
  conditional_fetch-Settles etag d =
      api-settles p (get_manifest_if_changed p.transport etag d.net).0

  without_cache-Settles : (answer : ManifestFetch) → Settles p (without_cache p answer)
  without_cache-Settles (modified manifest etag) d = refl
  without_cache-Settles not_modified d = refl

  use_fetch-Settles :
      (cached : Option RemoteManifestCache) (answer : ManifestFetch)
      → Settles p (use_fetch p cached answer)
  unfolding use_fetch
  use_fetch-Settles (some cache) not_modified d = refl
  use_fetch-Settles none not_modified d =
      continue-Settles p (conditional_fetch p none d) _ (conditional_fetch-Settles none d)
        without_cache-Settles
  use_fetch-Settles none (modified manifest etag) d = refl
  use_fetch-Settles (some cache) (modified manifest etag) d = refl

  fetch_remote_manifest-Settles : Settles p (fetch_remote_manifest p)
  unfolding fetch_remote_manifest
  fetch_remote_manifest-Settles d =
      let cached = with_etag (load_remote_cache p d) in
      continue-Settles p (conditional_fetch p (etag_of cached) d) _
        (conditional_fetch-Settles (etag_of cached) d) (use_fetch-Settles cached)

  module _ (config : VaultConfig) (schedule : List Pick) where
    prepare_sync-Settles : Settles p (prepare_sync p config schedule)
    unfolding prepare_sync
    prepare_sync-Settles d =
        continue-Settles p (load_local_state p (ignore_rules config) d) _
          (load_local_state-Settles (ignore_rules config) d)
          λ state e.
            continue-Settles p (fetch_remote_manifest p e) _ (fetch_remote_manifest-Settles e)
              λ manifest e'. refl

    with_plan-Settles :
        (resolutions : List ConflictResolution) (plan : SyncPlan)
        → Settles p (with_plan p config resolutions plan)
    with_plan-Settles resolutions plan d =
        (complete_sync_missing p config plan (defer_the_rest plan resolutions) d).1
          (all_answered-defer_the_rest plan resolutions)

    prepared_Settles :
        (resolutions : List ConflictResolution) (d : Device W)
        → fails_missing
            (continue (prepare_sync p config schedule d) (with_plan p config resolutions)).0
          ≡ false
    prepared_Settles resolutions d =
        continue-Settles p (prepare_sync p config schedule d) _ (prepare_sync-Settles d)
          (with_plan-Settles resolutions)

    -- A cycle never fails for want of a resolution, whatever the user answered and whatever plan is
    -- pending.
    pub execute_answers :
        (trigger : Trigger) (pending : Option SyncPlan) (d : Device W)
        → fails_missing (execute p config schedule trigger pending d).0 ≡ false
    unfolding execute
    execute_answers (resolve resolutions) (some plan) d = with_plan-Settles resolutions plan d
    execute_answers (resolve resolutions) none d = prepared_Settles resolutions d
    execute_answers local pending d = prepared_Settles [] d
    execute_answers remote pending d = prepared_Settles [] d
    execute_answers manual pending d = prepared_Settles [] d
