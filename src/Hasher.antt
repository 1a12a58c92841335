-- ===== src/Hasher.antt =====
-- core/src/hasher.rs and core/src/hash_cache.rs: the manifest of a directory, with a memo of the
-- hashes. The listing of the directory is the map of its files by relative path; `content_hmac` of
-- the crypto module and the failures of the volume are parameters.
pub mod Memo
use obsink.Base.{
  ℕ, Bool, true, false, ◌&&◌, Option, none, some, List, [], ◌∷◌, is_some, if◌then◌else◌, filter,
  map_option, length,
}
use obsink.Base.Ord.{◌==◌, nat_ord, text_ord}
use obsink.Base.Text.{Text, text}
use obsink.Base.BTreeMap.{Map, get, insert, contains, insert_key}
use obsink.Base.Result.{Result, ok, err}
use obsink.Types.{FileEntry, Manifest}
use obsink.Ignore.{IgnoreRules, is_ignored}

pub record Stat : Type 0 where
  pub mtime_secs : ℕ
  pub mtime_nanos : ℕ
  pub size : ℕ

-- The derived `PartialEq` of `Stat`.
unfoldable pub stat_eq : Stat → Stat → Bool
stat_eq a b = a.mtime_secs == b.mtime_secs && (a.mtime_nanos == b.mtime_nanos && a.size == b.size)

-- A file on the volume: its bytes and the time that its metadata have, from 1970 on unless the flag
-- says that it lies before.
pub record File : Type 0 where
  pub bytes : Text
  pub before_epoch : Bool
  pub mtime_secs : ℕ
  pub mtime_nanos : ℕ

abbrev pub stat_at : File → Stat
stat_at file = record {
  mtime_secs = file.mtime_secs;
  mtime_nanos = file.mtime_nanos;
  size = length file.bytes;
}

-- `Stat::try_from` of the metadata: a time before 1970 has none.
unfoldable pub stat_of : File → Option Stat
stat_of file = if file.before_epoch then none else some (stat_at file)

pub record CacheEntry : Type 0 where
  pub stat : Stat
  pub hash : Text

pub record HashCache : Type 0 where
  pub key_id : Text
  pub entries : Map Text CacheEntry

-- The hash of an entry whose stat pair still matches.
abbrev pub served : Option CacheEntry → Stat → Option Text
served none stat = none
served (some entry) stat = if stat_eq entry.stat stat then some entry.hash else none

unfoldable pub lookup : HashCache → Text → Stat → Option Text
unfolding stat_eq
lookup cache path stat = served (get cache.entries path) stat

-- `HashCache::insert`.
unfoldable pub memoize : HashCache → Text → Stat → Text → HashCache
memoize cache path stat hash = record cache {
  entries = insert path (record { stat = stat; hash = hash }) cache.entries;
}

-- `HashCache::retain_paths`.
unfoldable pub retain_paths : HashCache → List Text → HashCache
retain_paths cache seen = record cache {
  entries = filter (λ (e : Text × CacheEntry). contains seen e.0) cache.entries;
}

pub data HasherError : Type 0 where
  io walk_dir strip_prefix invalid_modified_time : Text → HasherError

-- The variables of the walk.
pub record Walk : Type 0 where
  pub manifest : Manifest
  pub cache : HashCache
  pub seen : List Text

module _ (content_hmac : Text → Text) (read_fails : Text → Bool) where
  -- HASH_CACHE_KEY_LABEL under the key.
  unfoldable pub hash_cache_key_id : Text
  hash_cache_key_id = content_hmac (text "obsink:hash-cache:v1")

  unfoldable pub empty : HashCache
  unfolding hash_cache_key_id
  empty = record { key_id = hash_cache_key_id; entries = [] }

  unfoldable pub hash_file : Text → File → Result HasherError Text
  hash_file path file = if read_fails path then err (io path) else ok (content_hmac file.bytes)

  unfoldable pub record_file : Walk → Text → Stat → Text → Walk
  record_file walk path stat hash = record walk {
    manifest =
        insert path
          (record {
            hash = hash;
            modified = stat.mtime_secs;
            size = stat.size;
            deleted = false;
            enc_path = [];
          })
          walk.manifest;
    seen = insert_key path walk.seen;
  }

  -- A file with its stat pair.
  unfoldable pub visit_stat : Walk → Text → File → Stat → Result HasherError Walk
  unfolding lookup hash_file memoize record_file
  visit_stat walk path file stat = elim (lookup walk.cache path stat) [
    | some hash ↦ ok (record_file walk path stat hash)
    | none ↦ elim (hash_file path file) [
      | err e ↦ err e
      | ok hash ↦
          ok
            (record_file (record walk { cache = memoize walk.cache path stat hash }) path stat hash)
    ]
  ]

  -- A file that is not ignored.
  unfoldable pub visit : Walk → Text → File → Result HasherError Walk
  unfolding visit_stat stat_of
  visit walk path file = elim (stat_of file) [
    | none ↦ err (invalid_modified_time path)
    | some stat ↦ visit_stat walk path file stat
  ]

  unfoldable pub walk_files : IgnoreRules → List (Text × File) → Walk → Result HasherError Walk
  unfolding visit
  walk_files ignore [] walk = ok walk
  walk_files ignore ((path, file) ∷ files) walk = elim (is_ignored ignore path) [
    | true ↦ walk_files ignore files walk
    | false ↦ elim (visit walk path file) [ err e ↦ err e | ok next ↦ walk_files ignore files next ]
  ]

  unfoldable pub build_manifest_with_cache :
      Map Text File → HashCache → IgnoreRules → Result HasherError (Manifest × HashCache)
  unfolding walk_files retain_paths
  build_manifest_with_cache files cache ignore =
      elim (walk_files ignore files (record { manifest = []; cache = cache; seen = [] })) [
        | err e ↦ err e
        | ok walk ↦ ok (walk.manifest, retain_paths walk.cache walk.seen)
      ]
