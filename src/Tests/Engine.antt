-- ===== src/Tests/Engine.antt =====
-- The theorems on the sync engine, for a server that answers every request and whose manifest never
-- changes.
use obsink.Base.{
  ℕ, ◌+◌, ◌≡◌, refl, true, false, ◌||◌, none, some, List, [], ◌∷◌, map, any, arith, if◌then◌else◌,
}
use obsink.Base.Ord.{text_ord}
use obsink.Base.Text.{Text, text}
use obsink.Base.BTreeMap.{get, keys}
use obsink.Base.Result.{Result, ok}
use obsink.Types.{
  FileEntry, Manifest, SyncAction, upload, download, delete_local, delete_remote, SyncFailure,
  SyncPlan, BatchOp, BatchOperationResult,
}
use obsink.Client.{
  Transport, Request, Response, get_manifest, get_blob, post_batch, put_device, WireBatchOperation,
  HttpError, modified, not_modified,
}
use obsink.Client
use obsink.Hasher.{File}
use obsink.Engine.{Platform, Device, missing, saved, VaultConfig}
use obsink.Engine.Uploads.{run_uploads, local_size, start_uploads, Uploading}
use obsink.SyncRules.{chunk_uploads}
use obsink.Manifest.{diff_manifests}
use obsink.Manifest.Lookup.{decision_at, none_at}
use obsink.Ignore.{defaults, is_ignored}
use obsink.Hasher.{HashCache, stat_at, lookup, build_manifest_with_cache}
use obsink.Hasher.Memo.{Truthful, directory_manifest, build_manifest_memo}
use obsink.Engine.Plan.{diff_local_and_remote}
use obsink.Engine.Plan.Ignored.{diff_ignores}
use obsink.Engine.Remote.{fetch_remote_manifest}
use obsink.Engine.Complete.{Resolved, finish_sync, complete_sync, initial_hold_back}
use obsink.Engine.Complete.Saves.{base_of}
use obsink.Engine.Complete.Held.{pending_at, finish_sync_checkpoint, complete_sync_kept}
use obsink.Engine.Complete.Choices.{all_answered, is_ok, fails_missing, complete_sync_missing}
use obsink.Engine.Downloads.{Pick, start, finish, apply_downloads}
use obsink.Engine.Downloads.Landed.{downloads_land}
use obsink.Engine.Downloads.Fetched.{Serves, landed}
use obsink.Engine.Uploads.Held.{failed_at}
use obsink.Engine.Uploads.Sorted.{batch_of}

abbrev pub stored : FileEntry
stored = record { hash = text "h1"; modified = 1; size = 5; deleted = false; enc_path = text "a" }

-- One request is counted.
abbrev pub counted : Response → ℕ → Result HttpError Response × ℕ
counted response n = (ok response, n + 1)

abbrev pub answer : Request → ℕ → Result HttpError Response × ℕ
answer (get_manifest none) n =
    counted (record { status = 200; etag = some (text "1"); body = [] }) n
answer (get_manifest (some tag)) n = counted (record { status = 304; etag = none; body = [] }) n
answer (get_blob token) n = counted (record { status = 200; etag = none; body = token }) n
answer (post_batch ops) n =
    counted
      (record { status = 200; etag = none; body = map (λ (op : WireBatchOperation). 200) ops }) n
answer (put_device revision) n = counted (record { status = 200; etag = none; body = [] }) n

abbrev pub transport : Transport ℕ
transport = record {
  send = answer;
  read_bytes = λ body. ok body;
  read_manifest = λ body. ok ((text "t", stored) ∷ []);
  read_results =
      λ body. ok (map (λ status. record { path = []; status = status; conflict = none }) body);
  read_conflict = λ body. ok (record { path = []; current = none });
  path_token = λ path. path;
  encrypt_path = λ n path. ok path;
  decrypt_path = λ token. ok token;
}

abbrev pub platform : Platform ℕ
platform = record {
  transport = transport;
  encrypt = λ n plain. ok plain;
  decrypt = λ blob. ok blob;
  content_hmac = λ bytes. bytes;
  directory_entry = λ path. path;
  fails = λ d op. false;
  clock = λ n. (n, 0);
  error_text = λ e. text "error";
  api_error_text = λ e. text "error";
}

abbrev pub file : Text → File
file bytes = record { bytes = bytes; before_epoch = false; mtime_secs = 1; mtime_nanos = 0 }

abbrev pub device : Device ℕ
device = record {
  net = 0;
  files = (text "a", file (text "one")) ∷ (text "b", file (text "two")) ∷ [];
  checkpoint = saved ((text "b", stored) ∷ []);
  remote_cache = missing;
  hash_cache = missing;
}

abbrev base : Manifest
base = (text ".git/x", stored) ∷ []

abbrev pub there : Manifest
there = (text ".git/x", record stored { hash = text "h2" }) ∷ []

abbrev uploads : List SyncAction
uploads =
    record { path = text "a"; kind = upload; local = some stored; remote = none }
    ∷ record { path = text "c"; kind = delete_remote; local = some stored; remote = none }
    ∷ []

abbrev mixed_results : List BatchOperationResult
mixed_results =
    record { path = text "a"; status = 200; conflict = none }
    ∷ record { path = text "c"; status = 409; conflict = none }
    ∷ []

-- A server that refuses the second operation.
abbrev mixed : Platform ℕ
mixed = record platform { transport = record transport { read_results = λ body. ok mixed_results } }

abbrev at_start : Uploading ℕ
at_start = start_uploads [] device

abbrev mixed_ops : List BatchOp
mixed_ops = (batch_of mixed uploads at_start).0.ops

abbrev downloads : List SyncAction
downloads =
    record { path = text "n"; kind = download; local = none; remote = some stored }
    ∷ record { path = text "b"; kind = delete_local; local = some stored; remote = none }
    ∷ []

abbrev pub schedule : List Pick
schedule = start ∷ finish 0 ∷ []

serves : Serves platform (text "n") (text "n")
unfolding Client.get_file
serves w blob plain h e = ground (arith, h, e)

downloads_land_example :
    (any (λ (f : SyncFailure). f.fatal) (apply_downloads platform schedule downloads device).0
      || (failed_at (text "n") (apply_downloads platform schedule downloads device).0
          || landed platform
              (text "n")
              (text "n")
              (apply_downloads platform schedule downloads device).1))
    ≡ true
unfolding apply_downloads text_ord
downloads_land_example =
    downloads_land platform (text "n") (text "n") schedule downloads device serves refl refl refl

abbrev pub plan : SyncPlan
plan = record {
  upload = uploads;
  download = [];
  conflicts =
      record { path = text "a"; local = stored; remote = record stored { hash = text "h2" } } ∷ [];
  failures = [];
}

abbrev pub config : VaultConfig
config = record { device_id = some (text "d"); ignore = [] }

abbrev resolved : Resolved
resolved = record { uploads = uploads; deferred = plan.conflicts }

finish_sync_checkpoint_example :
    (refetched next : Manifest) × ((fetch_remote_manifest platform
        (run_uploads platform resolved.uploads (initial_hold_back plan resolved) device).device).0
      ≡ ok refetched)
    × ((finish_sync platform config plan resolved device).1.checkpoint ≡ saved next)
    × ((q : Text)
        → get next q ≡ (
            if pending_at q (finish_sync platform config plan resolved device).0
            then get (base_of device.checkpoint) q
            else get refetched q))
unfolding finish_sync chunk_uploads local_size get text_ord Client.batch
    Client.get_manifest_if_changed
finish_sync_checkpoint_example = finish_sync_checkpoint platform config plan resolved device refl

complete_sync_kept_example :
    (complete_sync platform config plan [] device).1.checkpoint ≡ device.checkpoint
unfolding complete_sync get
complete_sync_kept_example = complete_sync_kept platform config plan [] device refl

complete_sync_missing_example :
    (all_answered plan [] ≡ false → is_ok (complete_sync platform config plan [] device).0 ≡ false)
    × (all_answered plan [] ≡ true
        → fails_missing (complete_sync platform config plan [] device).0 ≡ false)
complete_sync_missing_example = complete_sync_missing platform config plan [] device

diff_ignores_example :
    (is_ignored defaults (text ".git/x") ≡ true
      → decision_at (text ".git/x") (diff_local_and_remote base [] there defaults) ≡ none_at)
    × (is_ignored defaults (text ".git/x") ≡ false
        → decision_at (text ".git/x") (diff_local_and_remote base [] there defaults)
          ≡ decision_at (text ".git/x") (diff_manifests base [] there))
diff_ignores_example = diff_ignores defaults (text ".git/x") base [] there

abbrev memo : HashCache
memo = record {
  key_id = [];
  entries = (text "a", record { stat = stat_at (file (text "one")); hash = text "one" }) ∷ [];
}

truthful : Truthful (λ bytes. bytes) [] device.files memo
unfolding lookup get text_ord
truthful = (λ h e. ground (arith, e), (λ h e. ground (arith, e), tt))

build_manifest_memo_example :
    (next : HashCache) × (build_manifest_with_cache
        (λ bytes. bytes)
        (λ _. false)
        device.files
        memo
        []
      ≡ ok (directory_manifest (λ bytes. bytes) [] device.files [], next))
unfolding keys text_ord
build_manifest_memo_example =
    build_manifest_memo (λ bytes. bytes) [] device.files memo ((refl, tt), (tt, tt)) truthful
      ((λ _. refl), ((λ _. refl), tt))
