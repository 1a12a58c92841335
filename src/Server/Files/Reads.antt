-- ===== src/Server/Files/Reads.antt =====
-- server/src/routes/files.rs: the manifest of a vault, behind its ETag.
pub mod Fresh
use obsink.Base.{
  ℕ, Bool, true, false, ◌&&◌, ◌||◌, Option, none, some, List, [], ◌∷◌, ◌++◌, any, if◌then◌else◌,
}
use obsink.Base.Ord.{◌==◌, nat_ord, text_ord}
use obsink.Base.Text.{Text, text, trim, trim_start, trim_end, split}
use obsink.Base.Text.Decimal.{decimal}
use obsink.Base.BTreeMap.{get}
use obsink.Base.Result.{Result, ok, err, ensure, ◌>>◌}
use obsink.Types.{Manifest}
use obsink.Server.Error.{ApiError, not_found}
use obsink.Server.Blobs.{valid_vault_id}
use obsink.Server.Db.{Db, VaultRow, Role, require_member, rows}

-- The response: the ETag, with the manifest or without a body.
pub data ManifestAnswer : Type 0 where
  not_modified : Text → ManifestAnswer
  listed : Text → Manifest → ManifestAnswer

abbrev pub is_quote : ℕ → Bool
is_quote c = c == b'"'

-- `strip_prefix("W/")`.
unfoldable pub strip_weak : Text → Text
strip_weak [] = []
strip_weak (c ∷ []) = c ∷ []
strip_weak (c ∷ d ∷ cs) = if c == b'W' && d == b'/' then cs else c ∷ d ∷ cs

-- `trim_matches('"')`.
unfoldable pub trim_quotes : Text → Text
unfolding trim_start trim_end
trim_quotes s = trim_end is_quote (trim_start is_quote s)

-- One candidate of the header.
unfoldable pub candidate_hits : Text → Text → Bool
unfolding strip_weak trim_quotes
candidate_hits etag candidate = candidate == text "*" || trim_quotes candidate == trim_quotes etag

unfoldable pub if_none_match_hits : Option Text → Text → Bool
unfolding candidate_hits trim split strip_weak
if_none_match_hits none etag = false
if_none_match_hits (some value) etag =
    any (λ candidate. candidate_hits etag (strip_weak (trim candidate))) (split b',' value)

unfoldable pub etag_of : ℕ → Text
unfolding decimal
etag_of revision = b'"' ∷ decimal revision ++ text "\""

abbrev pub manifest_answer : Db → Text → Option Text → VaultRow → ManifestAnswer
manifest_answer db vault_id if_none_match row =
    if if_none_match_hits if_none_match (etag_of row.revision)
    then not_modified (etag_of row.revision)
    else listed (etag_of row.revision) (rows db vault_id)

abbrev pub answer_member :
    Db
    → Text
    → Option Text
    → Result ApiError Role
    → Option VaultRow
    → Result ApiError ManifestAnswer
answer_member db vault_id if_none_match (err e) row = err e
answer_member db vault_id if_none_match (ok role) none = err (not_found (text "vault not found"))
answer_member db vault_id if_none_match (ok role) (some row) =
    ok (manifest_answer db vault_id if_none_match row)

unfoldable pub get_manifest : Db → Text → Text → Option Text → Result ApiError ManifestAnswer
unfolding require_member if_none_match_hits etag_of rows
get_manifest db vault_id user_id if_none_match =
    ensure (valid_vault_id vault_id) (not_found (text "vault not found"))
    >> answer_member db vault_id if_none_match (require_member db vault_id user_id)
        (get db.vaults vault_id)
