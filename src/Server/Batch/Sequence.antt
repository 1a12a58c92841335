-- ===== src/Server/Batch/Sequence.antt =====
-- server/src/routes/batch.rs: a batch beside the single uploads and deletes of its operations.
use obsink.Base.{ℕ, suc, ◌≡◌, some, List, [], ◌∷◌, ◌++◌, unwrap_or, map}
use obsink.Base.Text.{Text}
use obsink.Base.Result.{Result, ok, err}
use obsink.Types.{BatchOperationResult}
use obsink.Server.Error.{ApiError}
use obsink.Server.Blobs.{Bytes, Faults}
use obsink.Server.Files.{Server, Outcome, apply_put, apply_delete}
use obsink.Server.Batch.{OpKind, put, delete, ParsedOp, op_result, apply_operations}

module _ (path_name : Text → Text) (seal : Text → Text → Bytes → Bytes) (max_vault_bytes : ℕ)
    (env : ℕ → Faults × ℕ) (user_id vault_id : Text) where
  -- The request that an operation stands for, from the user of the batch: a missing parent hash
  -- is an empty one.
  abbrev single_kind : ℕ → Text → Text → OpKind → Server → Outcome
  single_kind index path parent_hash (put content_hash enc_path bytes) s =
      apply_put path_name seal max_vault_bytes (env index).0 (env index).1 user_id
        (record {
          vault_id = vault_id;
          path = path;
          parent_hash = some parent_hash;
          content_hash = content_hash;
          enc_path = enc_path;
        })
        bytes s
  single_kind index path parent_hash delete s =
      apply_delete path_name seal max_vault_bytes (env index).0 (env index).1 user_id vault_id path
        (some parent_hash) s

  abbrev pub single : ℕ → ParsedOp → Server → Outcome
  single index op s = single_kind index op.path (unwrap_or op.parent_hash []) op.kind s

  -- The server after the requests, one after the other.
  abbrev pub after : ℕ → List ParsedOp → Server → Server
  after index [] s = s
  after index (op ∷ ops) s = after (suc index) ops (single index op s).1

  -- Their answers, as a batch reports them.
  abbrev pub answers : ℕ → List ParsedOp → Server → List (Result ApiError BatchOperationResult)
  answers index [] s = []
  answers index (op ∷ ops) s =
      op_result op.path (single index op s).0 ∷ answers (suc index) ops (single index op s).1

  -- A batch that succeeds ran every operation and has all answers; one that fails ran the
  -- operations up to the first one that has no answer to report.
  abbrev pub Sequenced :
      ℕ → List ParsedOp → Server → Result ApiError (List BatchOperationResult) × Server → Type 0
  Sequenced index ops s (ok results, t) =
      (t ≡ after index ops s) × (answers index ops s ≡ map ok results)
  Sequenced index ops s (err e, t) =
      (ran rest : List ParsedOp) × (results : List BatchOperationResult) × (ops ≡ ran ++ rest)
      × (t ≡ after index ran s)
      × (answers index ran s ≡ map ok results ++ err e ∷ [])

  abbrev run : ℕ → List ParsedOp → Server → Result ApiError (List BatchOperationResult) × Server
  run = apply_operations path_name seal max_vault_bytes env user_id vault_id
