-- ===== src/Tests/Batch.antt =====
-- The theorems on a batch, at one with an upload and a delete.
use obsink.Base.{ℕ, ◌≡◌, refl, none, some, List, [], ◌∷◌, map}
use obsink.Base.Ord.{text_ord, path_ord, nat_ord}
use obsink.Base.Text.{Text, text, trim}
use obsink.Base.BTreeMap.{get, insert, remove}
use obsink.Base.Result.{Result, ok}
use obsink.Types.{BatchOperationResult}
use obsink.Server.Error.{ApiError}
use obsink.Server.Blobs.{Faults, no_faults, valid_path, valid_vault_id, replace_live, trash_live}
use obsink.Server.Db.{
  bump_revision, upsert_entry, lock_vault, rows, current_entry, used_elsewhere, is_exhausted,
}
use obsink.Server.Files.{Server, apply_put, apply_delete}
use obsink.Server.Batch.{WireOp, Part, operations, content, put, delete, ParsedOp, apply_operations}
use obsink.Server.Batch.Runs.{apply_operations-paths}
use obsink.Tests.Server.{plain_name, plain_seal, vault, note, server}

abbrev plain_reading : Text → Result ApiError (List WireOp)
plain_reading json = ok (
    record {
      action = some (text "put");
      path = some note;
      parent_hash = some (text "h1");
      content_hash = some (text "h2");
      enc_path = none;
    }
    ∷ record {
      action = some (text "delete");
      path = some (text "gone");
      parent_hash = none;
      content_hash = none;
      enc_path = none;
    }
    ∷ [])

abbrev fields : List (Result ApiError Part)
fields = ok (operations (ok (text "{}"))) ∷ ok (content (some (text "0")) (ok (7 ∷ []))) ∷ []

abbrev parsed : List ParsedOp
parsed =
    record {
      path = note;
      parent_hash = some (text "h1");
      kind = put (some (text "h2")) none (7 ∷ []);
    }
    ∷ record { path = text "gone"; parent_hash = none; kind = delete }
    ∷ []

abbrev calm : ℕ → Faults × ℕ
calm i = (no_faults, 9)

abbrev run_parsed : Result ApiError (List BatchOperationResult) × Server
run_parsed = apply_operations plain_name plain_seal 1000 calm (text "user") vault 0 parsed server

abbrev both_done : List BatchOperationResult
both_done =
    record { path = note; status = 200; conflict = none }
    ∷ record { path = text "gone"; status = 200; conflict = none }
    ∷ []

batch_done : run_parsed.0 ≡ ok both_done
unfolding apply_operations apply_put is_exhausted valid_path trim lock_vault valid_vault_id get
    text_ord used_elsewhere rows current_entry replace_live path_ord apply_delete bump_revision
    upsert_entry insert remove trash_live
batch_done = refl

apply_operations-paths_example :
    map (λ (r : BatchOperationResult). r.path) both_done ≡ map (λ (op : ParsedOp). op.path) parsed
apply_operations-paths_example =
    apply_operations-paths plain_name plain_seal 1000 calm (text "user") vault 0 parsed server
      both_done batch_done
