-- ===== src/Engine/Remote/Transparent.antt =====
-- The ETag cache saves the transfer of a manifest, never its freshness.
use obsink.Base.{
  ◌≢◌, ◌≡◌, refl, sym, ◌∙◌, ap, Bool, true, false, Option, none, some, arith, inl, inr, Bool-cases,
  Option-cases,
}
use obsink.Base.Text.{Text}
use obsink.Base.Result.{Result, ok, err}
use obsink.Base.Io.{continue, map_err}
use obsink.Types.{Manifest}
use obsink.Client.{ApiError, ManifestFetch, modified, not_modified, get_manifest_if_changed}
use obsink.Engine.{
  SyncEngineError, api, Device, Saved, saved, missing, corrupt, Platform, RemoteManifestCache,
  online, save, remote_cache_file,
}
use obsink.Engine.Remote.{
  with_etag, etag_of, load_remote_cache, save_remote_cache, conditional_fetch, refresh_cache,
  use_fetch, usable, fetch_remote_manifest,
}

-- What HTTP says of ETags, for a server whose manifest is `current` and which gave a tag to a
-- manifest where `Named` holds: an answer with a manifest brings the current one under a tag of it;
-- a tag is answered by `not_modified` only while its manifest is current; a fetch without a tag is
-- never answered so.
pub record IsHonest {W : Type 0} (p : Platform W) (current : W → Manifest)
    (Named : Text → Manifest → Type 0) : Type 0 where
  pub fresh :
      (etag tag : Option Text) (w : W) (m : Manifest)
      → (get_manifest_if_changed p.transport etag w).0 ≡ ok (modified m tag)
      → m ≡ current w
  pub tagged :
      (etag : Option Text) (tag : Text) (w : W) (m : Manifest)
      → (get_manifest_if_changed p.transport etag w).0 ≡ ok (modified m (some tag))
      → Named tag m
  pub unchanged :
      (etag : Text) (w : W) (m : Manifest)
      → Named etag m
      → (get_manifest_if_changed p.transport (some etag) w).0 ≡ ok not_modified
      → m ≡ current w
  pub conditional : (w : W) → (get_manifest_if_changed p.transport none w).0 ≢ ok not_modified

module _ {W : Type 0} (p : Platform W) (current : W → Manifest) (Named : Text → Manifest → Type 0)
    (honest : IsHonest p current Named) where
  -- The cached manifest goes with its tag.
  abbrev pub IsNamed : Saved RemoteManifestCache → Type 0
  IsNamed missing = Unit
  IsNamed corrupt = Unit
  IsNamed (saved cache) = (tag : Text) → cache.etag ≡ some tag → Named tag cache.manifest

  refresh_cache-IsNamed :
      (m : Manifest) (tag : Option Text) (d : Device W)
      → ((t : Text) → tag ≡ some t → Named t m)
      → IsNamed d.remote_cache
      → IsNamed (refresh_cache p m tag d).remote_cache
  unfolding refresh_cache save_remote_cache
  refresh_cache-IsNamed m none d named v = v
  refresh_cache-IsNamed m (some tag) d named v =
      elim (Bool-cases (p.fails d (save remote_cache_file))) [
        | inl fault ↦ rw (fault, save_remote_cache) v
        | inr fine ↦ rw (fine, save_remote_cache) named
      ]

  -- What the answer to a fetch with the cached tag gives.
  abbrev Fetched : W → Result SyncEngineError Manifest × Device W → Type 0
  Fetched w r = ((m : Manifest) → r.0 ≡ ok m → m ≡ current w) × IsNamed r.1.remote_cache

  abbrev HasTag : Option RemoteManifestCache → Type 0
  HasTag none = Unit
  HasTag (some cache) = (tag : Text) × (cache.etag ≡ some tag) × Named tag cache.manifest

  fetched :
      (cached : Option RemoteManifestCache) (w : W) (answer : Result ApiError ManifestFetch)
      (d : Device W)
      → HasTag cached
      → (get_manifest_if_changed p.transport (etag_of cached) w).0 ≡ answer
      → IsNamed d.remote_cache
      → Fetched w (continue (map_err api answer, d) (use_fetch p cached))
  unfolding use_fetch
  fetched (some cache) w (ok not_modified) d tag e v = (
    λ m h.
        ground (arith, h)
        ∙ honest.unchanged tag.0 w cache.manifest tag.2
            (ap (λ t. (get_manifest_if_changed p.transport t w).0) (sym tag.1) ∙ e),
    v,
  )
  fetched none w (ok not_modified) d tag e v = absurd (honest.conditional w e)
  fetched none w (ok (modified m etag)) d tag e v = (
    λ m' h. ground (arith, h) ∙ honest.fresh none etag w m e,
    refresh_cache-IsNamed m etag d
        (λ t k. honest.tagged none t w m (e ∙ ap (λ o. ok (modified m o)) k)) v,
  )
  fetched (some cache) w (ok (modified m etag)) d tag e v = (
    λ m' h. ground (arith, h) ∙ honest.fresh cache.etag etag w m e,
    refresh_cache-IsNamed m etag d
        (λ t k. honest.tagged cache.etag t w m (e ∙ ap (λ o. ok (modified m o)) k)) v,
  )
  fetched cached w (err error) d tag e v = (λ m h. absurd (ground (arith, h)), v)

  cache-HasTag :
      (cache : RemoteManifestCache)
      → ((tag : Text) → cache.etag ≡ some tag → Named tag cache.manifest)
      → HasTag (with_etag (some cache))
  cache-HasTag cache v = elim (Option-cases cache.etag) [
    | inl e ↦ rw e tt
    | inr (tag, e) ↦ rw e (tag, refl, v tag e)
  ]

  usable-HasTag :
      (file : Saved RemoteManifestCache) (fault : Bool)
      → IsNamed file
      → HasTag (with_etag (usable file fault))
  usable-HasTag missing true v = tt
  usable-HasTag missing false v = tt
  usable-HasTag corrupt true v = tt
  usable-HasTag corrupt false v = tt
  usable-HasTag (saved cache) true v = tt
  usable-HasTag (saved cache) false v = cache-HasTag cache v

  load_remote_cache-HasTag :
      (d : Device W) → IsNamed d.remote_cache → HasTag (with_etag (load_remote_cache p d))
  unfolding load_remote_cache
  load_remote_cache-HasTag d v = usable-HasTag d.remote_cache _ v

  -- With a server that keeps to HTTP's rules for ETags, and a cache whose manifest goes with its
  -- tag, the fetch through the cache brings the server's current manifest and leaves such a cache.
  pub fetch_remote_manifest_current :
      (d : Device W)
      → IsNamed d.remote_cache
      → ((m : Manifest) → (fetch_remote_manifest p d).0 ≡ ok m → m ≡ current d.net)
        × IsNamed (fetch_remote_manifest p d).1.remote_cache
  unfolding fetch_remote_manifest conditional_fetch online
  fetch_remote_manifest_current d v =
      let cached = with_etag (load_remote_cache p d) in
      fetched cached d.net (get_manifest_if_changed p.transport (etag_of cached) d.net).0 _
        (load_remote_cache-HasTag d v) refl v
