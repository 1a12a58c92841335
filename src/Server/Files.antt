-- ===== src/Server/Files.antt =====
-- server/src/routes/files.rs: the conflict-gated writes. Each runs in one transaction that holds
-- the vault's row lock, so a handler is one step from a state of the server to the next. The seal of
-- a blob (AES-GCM with a fresh nonce, of a crate) is the parameter `seal`, and the configured byte
-- budget of a vault `max_vault_bytes`.
pub mod Gate
pub mod Writes
pub mod Races
pub mod Retry
pub mod Steps
pub mod Reads
use obsink.Base.{
  ℕ, ◌+◌, Bool, true, false, not, ◌&&◌, ◌||◌, Option, none, some, List, [], ◌∷◌, length, leb,
  map_option, unwrap_or, if◌then◌else◌,
}
use obsink.Base.Ord.{◌==◌, text_ord}
use obsink.Base.Text.{Text, text, trim}
use obsink.Base.BTreeMap.{Map, get}
use obsink.Base.Result.{Result, ok, err, ok_or, ensure, ◌>>=◌, ◌>>◌}
use obsink.Types.{FileEntry}
use obsink.SyncRules.{add_u64}
use obsink.Server.Error.{ApiError, status, conflict, internal, bad_request}
use obsink.Server.Blobs
use obsink.Server.Blobs.{
  Bytes, Faults, BlobUndo, IoError, valid_path, replace_live, trash_live, undo,
}
use obsink.Server.Db.{
  Db, lock_vault, rows, current_entry, upsert_entry, bump_revision, is_exhausted, used_elsewhere,
}

pub record Server : Type 0 where
  pub db : Db
  pub blobs : Blobs.Files

pub record PutParams : Type 0 where
  pub vault_id : Text
  pub path : Text
  pub parent_hash : Option Text
  pub content_hash : Option Text
  pub enc_path : Option Text

-- Where a write stands after its checks.
pub data PutGate : Type 0 where
  already_stored : PutGate
  write : Text → Option FileEntry → PutGate

abbrev pub Outcome : Type 0
Outcome = Result ApiError (Unit {0}) × Server

abbrev pub non_empty : Option Text → Option Text
non_empty none = none
non_empty (some []) = none
non_empty (some (c ∷ cs)) = some (c ∷ cs)

abbrev pub quota_message : Text
quota_message = text "vault storage limit reached"

-- The parent hash must be that of the current entry, unless the bytes of a retried upload are there.
unfoldable pub conflict_gate : PutParams → Text → Option FileEntry → Result ApiError PutGate
conflict_gate params content_hash none = ok (write content_hash none)
conflict_gate params content_hash (some current) =
    if not (current.hash == unwrap_or params.parent_hash [])
    then if not current.deleted && current.hash == content_hash
      then ok already_stored
      else err (conflict params.path (some current))
    else ok (write content_hash (some current))

unfoldable pub delete_gate : Text → Option Text → Option FileEntry → Result ApiError (Unit {0})
delete_gate path parent_hash none = ok tt
delete_gate path parent_hash (some current) =
    if not (current.hash == unwrap_or parent_hash [])
    then err (conflict path (some current))
    else ok tt

abbrev pub is_live : Option FileEntry → Bool
is_live none = false
is_live (some entry) = not entry.deleted

abbrev pub or_else : Option Text → Option Text → Option Text
or_else none b = b
or_else (some a) b = some a

-- The row that an upload writes.
unfoldable pub uploaded : PutParams → Text → Option FileEntry → ℕ → ℕ → FileEntry
uploaded params content_hash current now size = record {
  hash = content_hash;
  modified = now;
  size = size;
  deleted = false;
  enc_path =
      unwrap_or
        (or_else (non_empty params.enc_path) (map_option (λ (e : FileEntry). e.enc_path) current))
        [];
}

-- The row that a delete leaves.
unfoldable pub tombstone : Option FileEntry → ℕ → FileEntry
tombstone current now = record {
  hash = unwrap_or (map_option (λ (e : FileEntry). e.hash) current) [];
  modified = now;
  size = unwrap_or (map_option (λ (e : FileEntry). e.size) current) 0;
  deleted = true;
  enc_path = unwrap_or (map_option (λ (e : FileEntry). e.enc_path) current) [];
}

abbrev pub given_hash : PutParams → Option Text
given_hash params = non_empty (map_option trim params.content_hash)

-- A statement on the database, which fails or not.
abbrev pub statement : Bool → Result ApiError (Unit {0})
statement fails = ensure (not fails) (internal (text "database"))

module _ (max_vault_bytes : ℕ) where
  -- The checks of `apply_put`, in order.
  unfoldable pub put_gate : Faults → Db → Text → PutParams → ℕ → Result ApiError PutGate
  unfolding conflict_gate
  put_gate faults db user_id params size = do
    ensure (valid_path params.path) (bad_request (text "invalid path"))
    content_hash ← ok_or (given_hash params) (bad_request (text "missing X-Content-Hash header"))
    statement faults.begin_fails
    statement faults.lock_fails
    max_file_size ← lock_vault db params.vault_id user_id
    statement faults.select_fails
    let current = current_entry db params.vault_id params.path
    ensure (leb size max_file_size) (status 413 (text "file too large"))
    statement faults.sum_fails
    ensure
        (leb (add_u64 (used_elsewhere params.path (rows db params.vault_id)) size) max_vault_bytes)
        (status 507 quota_message)
    conflict_gate params content_hash current

-- The checks of `apply_delete`, in order.
unfoldable pub delete_checks :
    Faults → Db → Text → Text → Text → Option Text → Result ApiError (Unit {0})
unfolding delete_gate
delete_checks faults db user_id vault_id path parent_hash = do
  ensure (valid_path path) (bad_request (text "invalid path"))
  statement faults.begin_fails
  statement faults.lock_fails
  lock_vault db vault_id user_id >>= λ _. ok tt
  statement faults.select_fails
  delete_gate path parent_hash (current_entry db vault_id path)

-- The metadata is written and committed, or the blobs are put back.
unfoldable pub commit_or_undo :
    (Text → Text)
    → Faults
    → Text
    → Text
    → FileEntry
    → ℕ
    → Result IoError BlobUndo
    → Blobs.Files
    → Server
    → Outcome
commit_or_undo path_name faults vault_id path entry now (err e) blobs s =
    (err (internal (text "io")), record s { blobs = blobs })
commit_or_undo path_name faults vault_id path entry now (ok token) blobs s =
    if faults.commit_fails || is_exhausted vault_id s.db
    then (err (internal (text "database")), record s { blobs = undo path_name faults token blobs })
    else (
      ok tt,
      record {
        db = bump_revision vault_id now (upsert_entry vault_id path entry s.db);
        blobs = blobs;
      },
    )

module _ (path_name : Text → Text) (seal : Text → Text → Bytes → Bytes) (max_vault_bytes : ℕ) where
  unfoldable pub write_put :
      Faults → ℕ → PutParams → Bytes → Text → Option FileEntry → Server → Outcome
  unfolding commit_or_undo uploaded
  write_put faults now params body content_hash current s =
      let (undo, blobs) =
        replace_live path_name faults params.vault_id params.path
          (seal params.vault_id params.path body) (is_live current) now s.blobs in
      commit_or_undo path_name faults params.vault_id params.path
        (uploaded params content_hash current now (length body)) now undo blobs s

  unfoldable pub apply_put : Faults → ℕ → Text → PutParams → Bytes → Server → Outcome
  unfolding write_put put_gate
  apply_put faults now user_id params body s =
      elim (put_gate max_vault_bytes faults s.db user_id params (length body)) [
        | err e ↦ (err e, s)
        | ok already_stored ↦ (ok tt, s)
        | ok (write content_hash current) ↦ write_put faults now params body content_hash current s
      ]

  unfoldable pub write_delete : Faults → ℕ → Text → Text → Server → Outcome
  unfolding commit_or_undo tombstone
  write_delete faults now vault_id path s =
      let (undo, blobs) = trash_live path_name faults vault_id path now s.blobs in
      commit_or_undo path_name faults vault_id path
        (tombstone (current_entry s.db vault_id path) now) now undo blobs s

  unfoldable pub apply_delete : Faults → ℕ → Text → Text → Text → Option Text → Server → Outcome
  unfolding write_delete delete_checks
  apply_delete faults now user_id vault_id path parent_hash s =
      elim (delete_checks faults s.db user_id vault_id path parent_hash) [
        | err e ↦ (err e, s)
        | ok _ ↦ write_delete faults now vault_id path s
      ]
