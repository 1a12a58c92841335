-- ===== src/Engine.antt =====
-- core/src/sync_engine.rs: the sync of one device. The state of a device is the connection, the
-- vault's directory and the three files that a sync keeps in `.obsink`; a function of the source is
-- one from such a state to a result and the next state. Progress events and the log are left out:
-- nothing reads them.
pub mod Remote
pub mod Downloads
pub mod Uploads
pub mod Plan
pub mod Complete
use obsink.Base.{
  ℕ, Bool, true, false, ◌&&◌, ◌||◌, Option, none, some, List, [], ◌∷◌, leb, if◌then◌else◌, length,
}
use obsink.Base.Ord.{◌==◌, nat_ord, text_ord}
use obsink.Base.Text.{Text, text}
use obsink.Base.BTreeMap.{Map, get, insert, remove}
use obsink.Base.Result.{Result, ok, err}
use obsink.Base.Io.{Io, ◌>>=◌, ◌>>◌, map_err}
use obsink.Types.{Manifest}
use obsink.Client.{Transport, CryptoError}
use obsink.Client
use obsink.Hasher.{File, HashCache, HasherError}
use obsink.Ignore.{IgnoreRules, defaults, with_extra}

pub data SyncEngineError : Type 0 where
  io : Text → SyncEngineError
  json : SyncEngineError
  api : Client.ApiError → SyncEngineError
  hasher : HasherError → SyncEngineError
  crypto : CryptoError → SyncEngineError
  missing_resolution : Text → SyncEngineError
  blocking : SyncEngineError

pub record RemoteManifestCache : Type 0 where
  pub etag : Option Text
  pub manifest : Manifest

-- A file of the sync's own state: not there, not readable as what it should be, or its contents.
pub data Saved {ℓ} (A : Type ℓ) : Type ℓ where
  missing corrupt : Saved A
  saved : A → Saved A

pub record Device (W : Type 0) : Type 0 where
  pub net : W
  pub files : Map Text File
  pub checkpoint : Saved Manifest
  pub remote_cache : Saved RemoteManifestCache
  pub hash_cache : Saved HashCache

pub data StateFile : Type 0 where
  manifest_file remote_cache_file hash_cache_file : StateFile

-- The operations on the volume that can fail.
pub data FileOp : Type 0 where
  read write delete : Text → FileOp
  load save : StateFile → FileOp

-- What a vault's sync runs on. `directory_entry` is the name that the volume has for a path, the
-- same for two spellings of a case-insensitive one; `clock` is the time of a write.
pub record Platform (W : Type 0) : Type 0 where
  pub transport : Transport W
  pub encrypt : W → Text → Result CryptoError Text
  pub decrypt : Text → Result CryptoError Text
  pub content_hmac : Text → Text
  pub directory_entry : Text → Text
  pub fails : Device W → FileOp → Bool
  pub clock : W → ℕ × ℕ
  pub error_text : SyncEngineError → Text
  pub api_error_text : Client.ApiError → Text

pub record VaultConfig : Type 0 where
  pub device_id : Option Text
  pub ignore : List Text

unfoldable pub ignore_rules : VaultConfig → IgnoreRules
unfolding with_extra defaults
ignore_rules config = with_extra defaults config.ignore

unfoldable pub is_fatal_status : ℕ → Bool
is_fatal_status status = status == 401 || (status == 403 || (leb 500 status && leb status 599))

unfoldable pub is_fatal_api_error : Client.ApiError → Bool
unfolding is_fatal_status
is_fatal_api_error (Client.http error) = error.is_timeout || (error.is_connect || error.is_request)
is_fatal_api_error Client.unauthorized = true
is_fatal_api_error (Client.unexpected_status status body) = is_fatal_status status
is_fatal_api_error (Client.crypto error) = false
is_fatal_api_error (Client.conflict path server) = false

unfoldable pub is_fatal_sync_error : SyncEngineError → Bool
unfolding is_fatal_api_error
is_fatal_sync_error (api error) = is_fatal_api_error error
is_fatal_sync_error _ = false

-- A request of the client, in a device.
unfoldable pub online {ℓ} :
    {W : Type 0} {A : Type ℓ} → Io Client.ApiError W A → Io SyncEngineError (Device W) A
online request d = let (answer, net) = request d.net in (map_err api answer, record d { net = net })

module _ {W : Type 0} (p : Platform W) where
  -- `fs::read` of a path of the vault.
  unfoldable pub read_file : Text → Io SyncEngineError (Device W) File
  read_file path d =
      if p.fails d (read path)
      then (err (io path), d)
      else elim (get d.files (p.directory_entry path)) [
        | none ↦ (err (io path), d)
        | some file ↦ (ok file, d)
      ]

  abbrev pub new_file : W → Text → File
  new_file w bytes = record {
    bytes = bytes;
    before_epoch = false;
    mtime_secs = (p.clock w).0;
    mtime_nanos = (p.clock w).1;
  }

  -- `write_atomic` of a path of the vault: a failed one leaves the directory as it was.
  unfoldable pub write_file : Text → Text → Io SyncEngineError (Device W) (Unit {0})
  write_file path bytes d = if p.fails d (write path) then (err (io path), d) else (
    ok tt,
    record d { files = insert (p.directory_entry path) (new_file d.net bytes) d.files },
  )

  abbrev pub with_length :
      ℕ → Result SyncEngineError (Unit {0}) × Device W → Result SyncEngineError ℕ × Device W
  with_length len (ok u, d) = (ok len, d)
  with_length len (err e, d) = (err e, d)

  abbrev pub decrypted : Result CryptoError Text → Text → Io SyncEngineError (Device W) ℕ
  decrypted (err e) path d = (err (crypto e), d)
  decrypted (ok plaintext) path d = with_length (length plaintext) (write_file path plaintext d)

  -- Empty directories are not part of the model, nor is their removal.
  unfoldable pub delete_local_file : Text → Io SyncEngineError (Device W) (Unit {0})
  delete_local_file path d = elim (get d.files (p.directory_entry path)) [
    | none ↦ (ok tt, d)
    | some file ↦
        if p.fails d (delete path)
        then (err (io path), d)
        else (ok tt, record d { files = remove (p.directory_entry path) d.files })
  ]

  unfoldable pub decrypt_and_write : Text → Text → Io SyncEngineError (Device W) ℕ
  unfolding write_file
  decrypt_and_write path blob = decrypted (p.decrypt blob) path

  unfoldable pub get_file : Text → Io SyncEngineError (Device W) Text
  unfolding online
  get_file path = online (Client.get_file p.transport path)
