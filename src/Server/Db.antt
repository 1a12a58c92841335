-- ===== src/Server/Db.antt =====
-- The tables that the file routes use (server/migrations/0001_init.sql, server/src/db.rs) and the
-- statements on them (server/src/routes/files.rs, server/src/routes/vaults.rs). A table is a map by
-- its primary key; a vault without rows in `files` may be missing there.
pub mod Laws
use Prim.Native.Nat.{min}
use obsink.Base.{
  ℕ, suc, ◌+◌, ◌-◌, ◌^◌, Bool, true, false, not, ◌&&◌, Option, none, some, List, [], ◌∷◌,
  if◌then◌else◌, unwrap_or, leb,
}
use obsink.Base.Ord.{◌==◌, text_ord}
use obsink.Base.Text.{Text, text}
use obsink.Base.BTreeMap.{Map, get, insert}
use obsink.Base.Result.{Result, ok, err, ok_or, ensure, ◌>>=◌, ◌>>◌}
use obsink.Types.{FileEntry, Manifest}
use obsink.Server.Error.{ApiError, not_found}
use obsink.Server.Blobs.{valid_vault_id}

pub record VaultRow : Type 0 where
  pub max_file_size : ℕ
  pub revision : ℕ
  pub last_write : ℕ

pub record Db : Type 0 where
  pub vaults : Map Text VaultRow
  pub members : Map Text (Map Text Text)
  pub files : Map Text Manifest

-- Sizes and times are stored as BIGINT: `to_u64(to_i64(value))`.
abbrev pub stored : ℕ → ℕ
stored value = min value (2 ^ 63 - 1)

pub data Role : Type 0 where
  owner member : Role

abbrev role_of : Option Text → Result ApiError Role
role_of none = err (not_found (text "vault not found"))
role_of (some role) = if role == text "owner" then ok owner else ok member

unfoldable pub require_member : Db → Text → Text → Result ApiError Role
require_member db vault_id user_id = do
  ensure (valid_vault_id vault_id) (not_found (text "vault not found"))
  role_of (get (unwrap_or (get db.members vault_id) []) user_id)

-- The `max_file_size` of the locked row.
unfoldable pub lock_vault : Db → Text → Text → Result ApiError ℕ
unfolding require_member
lock_vault db vault_id user_id = do
  require_member db vault_id user_id >>= λ _. ok tt
  row ← ok_or (get db.vaults vault_id) (not_found (text "vault not found"))
  ok row.max_file_size

-- The rows of `files` for a vault.
unfoldable pub rows : Db → Text → Manifest
rows db vault_id = unwrap_or (get db.files vault_id) []

unfoldable pub current_entry : Db → Text → Text → Option FileEntry
unfolding rows
current_entry db vault_id path = get (rows db vault_id) path

abbrev pub stored_entry : FileEntry → FileEntry
stored_entry entry = record entry { modified = stored entry.modified; size = stored entry.size }

unfoldable pub upsert_entry : Text → Text → FileEntry → Db → Db
upsert_entry vault_id path entry db = record db {
  files = insert vault_id (insert path (stored_entry entry) (rows db vault_id)) db.files;
}

abbrev at_limit : Option VaultRow → Bool
at_limit none = false
at_limit (some row) = leb (2 ^ 63) (row.revision + 1)

-- The next revision does not fit BIGINT, so that `bump_revision` fails.
unfoldable pub is_exhausted : Text → Db → Bool
is_exhausted vault_id db = at_limit (get db.vaults vault_id)

unfoldable pub bump_revision : Text → ℕ → Db → Db
bump_revision vault_id now db = elim (get db.vaults vault_id) [
  | none ↦ db
  | some row ↦ record db {
    vaults =
        insert vault_id (record row { revision = row.revision + 1; last_write = stored now })
          db.vaults;
  }
]

-- The bytes of the live rows that a test on the path and the entry selects.
unfoldable pub live_bytes : Manifest → ℕ
live_bytes [] = 0
live_bytes ((_, e) ∷ m) = (if e.deleted then 0 else e.size) + live_bytes m

-- `SUM(size) … WHERE NOT deleted AND path <> $2`.
unfoldable pub used_elsewhere : Text → Manifest → ℕ
used_elsewhere path [] = 0
used_elsewhere path ((p, e) ∷ m) =
    (if not e.deleted && not (p == path) then e.size else 0) + used_elsewhere path m
