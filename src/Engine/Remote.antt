-- ===== src/Engine/Remote.antt =====
-- core/src/sync_engine.rs: the server manifest behind its ETag cache, the checkpoint file and the
-- report of the checkpoint.
pub mod Transparent
use obsink.Base.{ℕ, Bool, true, false, Option, none, some, List, [], ◌∷◌, if◌then◌else◌, is_some}
use obsink.Base.Ord.{◌==◌, nat_ord}
use obsink.Base.Text.{Text, trim, trim_start, trim_end}
use obsink.Base.Text.Decimal.{parse_u64}
use obsink.Base.Result.{Result, ok, err}
use obsink.Base.Io.{Io, ◌>>=◌, ◌>>◌, return}
use obsink.Types.{Manifest}
use obsink.Manifest.{checkpoint_manifest}
use obsink.Client.{ManifestFetch, modified, not_modified, get_manifest_if_changed, attach_device}
use obsink.Engine.{
  SyncEngineError, io, json, RemoteManifestCache, Saved, missing, corrupt, saved, Device, StateFile,
  manifest_file, remote_cache_file, FileOp, load, save, Platform, VaultConfig, online,
}

-- `filter(|cache| cache.etag.is_some())`.
abbrev pub with_etag : Option RemoteManifestCache → Option RemoteManifestCache
with_etag none = none
with_etag (some cache) = if is_some cache.etag then some cache else none

abbrev pub etag_of : Option RemoteManifestCache → Option Text
etag_of none = none
etag_of (some cache) = cache.etag

-- The cache in a file, and whether it cannot be read.
abbrev pub usable : Saved RemoteManifestCache → Bool → Option RemoteManifestCache
usable (saved cache) false = some cache
usable _ _ = none

-- The manifest in a file, and whether it cannot be read.
abbrev pub parsed_manifest : Saved Manifest → Bool → Result SyncEngineError Manifest
parsed_manifest missing fault = ok []
parsed_manifest corrupt true = err (io [])
parsed_manifest corrupt false = err json
parsed_manifest (saved manifest) true = err (io [])
parsed_manifest (saved manifest) false = ok manifest

module _ {W : Type 0} (p : Platform W) where
  unfoldable pub load_manifest_from_disk : Io SyncEngineError (Device W) Manifest
  load_manifest_from_disk d = (parsed_manifest d.checkpoint (p.fails d (load manifest_file)), d)

  unfoldable pub save_manifest_to_disk : Manifest → Io SyncEngineError (Device W) (Unit {0})
  save_manifest_to_disk manifest d =
      if p.fails d (save manifest_file)
      then (err (io []), d)
      else (ok tt, record d { checkpoint = saved manifest })

  unfoldable pub load_remote_cache : Device W → Option RemoteManifestCache
  load_remote_cache d = usable d.remote_cache (p.fails d (load remote_cache_file))

  -- A failure is only logged.
  unfoldable pub save_remote_cache : RemoteManifestCache → Device W → Device W
  save_remote_cache cache d =
      if p.fails d (save remote_cache_file) then d else record d { remote_cache = saved cache }

  unfoldable pub conditional_fetch : Option Text → Io SyncEngineError (Device W) ManifestFetch
  unfolding online
  conditional_fetch etag = online (get_manifest_if_changed p.transport etag)

  unfoldable pub refresh_cache : Manifest → Option Text → Device W → Device W
  unfolding save_remote_cache
  refresh_cache manifest none d = d
  refresh_cache manifest (some etag) d =
      save_remote_cache (record { etag = some etag; manifest = manifest }) d

  abbrev pub without_cache : ManifestFetch → Io SyncEngineError (Device W) Manifest
  without_cache (modified manifest etag) = return manifest
  without_cache not_modified = return []

  -- What the answer to the fetch with the cached ETag means.
  unfoldable pub use_fetch :
      Option RemoteManifestCache → ManifestFetch → Io SyncEngineError (Device W) Manifest
  unfolding conditional_fetch refresh_cache
  use_fetch (some cache) not_modified = return cache.manifest
  use_fetch none not_modified = conditional_fetch none >>= without_cache
  use_fetch cached (modified manifest etag) = λ d. (ok manifest, refresh_cache manifest etag d)

  unfoldable pub fetch_remote_manifest : Io SyncEngineError (Device W) Manifest
  unfolding load_remote_cache conditional_fetch use_fetch
  fetch_remote_manifest d =
      let cached = with_etag (load_remote_cache d) in
      (conditional_fetch (etag_of cached) >>= use_fetch cached) d

  abbrev refreshed : ManifestFetch → Io SyncEngineError (Device W) Bool
  refreshed not_modified d = (ok false, d)
  refreshed (modified manifest etag) d = (ok true, refresh_cache manifest etag d)

  unfoldable pub remote_changed : Io SyncEngineError (Device W) Bool
  unfolding load_remote_cache conditional_fetch refresh_cache
  remote_changed d = elim (with_etag (load_remote_cache d)) [
    | none ↦ (ok true, d)
    | some cache ↦ (conditional_fetch cache.etag >>= refreshed) d
  ]

  -- The revision in an ETag: digits between quotation marks.
  unfoldable pub etag_revision : Option Text → Option ℕ
  unfolding trim trim_start trim_end parse_u64
  etag_revision none = none
  etag_revision (some etag) =
      parse_u64 (trim_end (λ c. c == b'"') (trim_start (λ c. c == b'"') (trim etag)))

  -- The answer of the server is only logged.
  unfoldable pub report_checkpoint : VaultConfig → Device W → Device W
  unfolding load_remote_cache etag_revision
  report_checkpoint config d = elim config.device_id [
    | none ↦ d
    | some device_id ↦
        (online (attach_device p.transport (etag_revision (etag_of (load_remote_cache d)))) d).1
  ]

  unfoldable pub checkpoint : VaultConfig → List Text → Io SyncEngineError (Device W) (Unit {0})
  unfolding fetch_remote_manifest load_manifest_from_disk save_manifest_to_disk report_checkpoint
  checkpoint config hold_back = do
    remote_manifest ← fetch_remote_manifest
    previous_base ← load_manifest_from_disk
    save_manifest_to_disk (checkpoint_manifest previous_base remote_manifest hold_back)
    λ d. (ok tt, report_checkpoint config d)
