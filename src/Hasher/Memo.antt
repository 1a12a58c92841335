-- ===== src/Hasher/Memo.antt =====
-- core/src/hasher.rs: the walk with the memo of the hashes beside a manifest with every file hashed.
use obsink.Base.{
  ◌≡◌, refl, sym, ◌∙◌, ap, false, some, [], ◌∷◌, length, arith, inl, inr, Bool-cases, Option-cases,
  if◌then◌else◌, All,
}
use obsink.Base.Ord.{◌==◌, ◌≺◌, text_ord}
use obsink.Base.Text.{Text}
use obsink.Base.BTreeMap.{Map, insert, get-insert, keys}
use obsink.Base.BTreeMap.Order.{IsSorted}
use obsink.Base.Result.{ok}
use obsink.Types.{FileEntry, Manifest}
use obsink.Ignore.{IgnoreRules, is_ignored}
use obsink.Hasher.{
  File, Stat, stat_at, stat_of, visit_stat, HashCache, lookup, served, memoize, retain_paths, Walk,
  hash_file, record_file, visit, walk_files, build_manifest_with_cache,
}

module _ (content_hmac : Text → Text) (ignore : IgnoreRules) where
  abbrev entry_of : File → FileEntry
  entry_of file = record {
    hash = content_hmac file.bytes;
    modified = file.mtime_secs;
    size = length file.bytes;
    deleted = false;
    enc_path = [];
  }

  -- The manifest of a directory, every file hashed, on top of `m`.
  abbrev pub directory_manifest : Map Text File → Manifest → Manifest
  directory_manifest [] m = m
  directory_manifest ((path, file) ∷ files) m =
      directory_manifest files (if is_ignored ignore path then m else insert path (entry_of file) m)

  -- What the cache serves for a file of the directory is the file's hash.
  abbrev pub Truthful : Map Text File → HashCache → Type 0
  Truthful files cache =
      All
        (λ (e : Text × File).
          (h : Text) → lookup cache e.0 (stat_at e.1) ≡ some h → h ≡ content_hmac e.1.bytes)
        files

  -- No file that counts has a time before 1970.
  abbrev pub Dated : Map Text File → Type 0
  Dated files =
      All (λ (e : Text × File). is_ignored ignore e.0 ≡ false → e.1.before_epoch ≡ false) files

  lookup-memoize_ne :
      (cache : HashCache) (path other : Text) (stat at : Stat) (hash : Text)
      → (path == other) ≡ false
      → lookup (memoize cache path stat hash) other at ≡ lookup cache other at
  unfolding lookup memoize
  lookup-memoize_ne cache path other stat at hash h =
      ap (λ o. served o at)
        (get-insert path other (record { stat = stat; hash = hash }) cache.entries ∙ rw h refl)

  memoize-Truthful :
      (files : Map Text File) (cache : HashCache) (path : Text) (stat : Stat) (hash : Text)
      → All (λ j. path ≺ j) (keys files)
      → Truthful files cache
      → Truthful files (memoize cache path stat hash)
  unfolding keys
  memoize-Truthful [] cache path stat hash above v = tt
  memoize-Truthful ((other, file) ∷ files) cache path stat hash above v = (
    λ h e. v.0 h (
        sym (lookup-memoize_ne cache path other stat (stat_at file) hash (ground (arith, above.0)))
        ∙ e),
    memoize-Truthful files cache path stat hash above.1 v.1,
  )

  -- A visit adds the file's entry, whether its hash is memoized or not.
  visited :
      (walk : Walk) (path : Text) (file : File) (files : Map Text File)
      → Truthful ((path, file) ∷ files) walk.cache
      → All (λ j. path ≺ j) (keys files)
      → file.before_epoch ≡ false
      → (next : Walk) × (visit content_hmac (λ _. false) walk path file ≡ ok next)
        × (next.manifest ≡ insert path (entry_of file) walk.manifest)
        × Truthful files next.cache
  unfolding visit visit_stat hash_file record_file stat_of
  visited walk path file files v above dated =
      elim (Option-cases (lookup walk.cache path (stat_at file))) [
        | inr (hash, e) ↦ (
          record_file content_hmac (λ _. false) walk path (stat_at file) hash,
          rw (dated, e, visit, visit_stat) refl,
          rw (v.0 hash e) refl,
          v.1,
        )
        | inl e ↦ (
          record_file content_hmac (λ _. false)
              (record walk {
                cache = memoize walk.cache path (stat_at file) (content_hmac file.bytes);
              })
              path (stat_at file) (content_hmac file.bytes),
          rw (dated, e, visit, visit_stat) refl,
          refl,
          memoize-Truthful files walk.cache path _ _ above v.1,
        )
      ]

  walked :
      (files : Map Text File) (walk : Walk)
      → IsSorted (keys files)
      → Truthful files walk.cache
      → Dated files
      → (last : Walk) × (walk_files content_hmac (λ _. false) ignore files walk ≡ ok last)
        × (last.manifest ≡ directory_manifest files walk.manifest)
  unfolding walk_files keys
  walked [] walk sorted v dated = (walk, refl, refl)
  walked ((path, file) ∷ files) walk sorted v dated = elim (Bool-cases (is_ignored ignore path)) [
    | inl skip ↦
        let rest = walked files walk sorted.1 v.1 dated.1 in
        (rest.0, rw (skip, walk_files) rest.1, rw skip rest.2)
    | inr take ↦
        let next = visited walk path file files v sorted.0 (dated.0 take) in
        let rest = walked files next.0 sorted.1 next.3 dated.1 in
        (rest.0, rw (take, walk_files, next.1) rest.1, rest.2 ∙ rw (take, next.2) refl)
  ]

  -- The walk with a cache that serves the right hash, or none, for every file of the directory
  -- gives the manifest of the directory with every file hashed, if the files are readable and
  -- listed in key order, and those that are not ignored have no time before 1970.
  pub build_manifest_memo :
      (files : Map Text File) (cache : HashCache)
      → IsSorted (keys files)
      → Truthful files cache
      → Dated files
      → (next : HashCache) × (build_manifest_with_cache content_hmac (λ _. false) files cache ignore
          ≡ ok (directory_manifest files [], next))
  unfolding build_manifest_with_cache
  build_manifest_memo files cache sorted v dated =
      let last = walked files (record { manifest = []; cache = cache; seen = [] }) sorted v dated in
      (retain_paths last.0.cache last.0.seen, rw (last.1, build_manifest_with_cache, last.2) refl)
