-- ===== src/Server/Batch/Runs.antt =====
-- server/src/routes/batch.rs: the paths in the results of a batch.
use obsink.Base.{
  ℕ, suc, ◌≡◌, ◌≢◌, refl, ap, inl, inr, Option, some, List, [], ◌∷◌, length, unwrap_or, arith, map,
}
use obsink.Base.Ord.{text_ord}
use obsink.Base.Text.{Text}
use obsink.Base.Result.{Result, ok, err, Result-cases}
use obsink.Types.{FileEntry, BatchOperationResult}
use obsink.Server.Error.{ApiError, status, conflict, internal, bad_request, not_found}
use obsink.Server.Blobs
use obsink.Server.Blobs.{Bytes, Faults, IoError, BlobUndo}
use obsink.Server.Db.{Db, lock_vault, require_member}
use obsink.Server.Files.{
  Server, PutParams, apply_put, apply_delete, conflict_gate, put_gate, already_stored, write,
  delete_checks, delete_gate, commit_or_undo, write_put, write_delete,
}
use obsink.Server.Batch.{
  OpKind, put, delete, ParsedOp, run_kind, run_op, op_result, apply_operations,
}

lock_vault_refuses :
    (db : Db) (vault_id user_id p : Text) (c : Option FileEntry)
    → lock_vault db vault_id user_id ≢ err (conflict p c)
unfolding lock_vault require_member not_found
lock_vault_refuses db vault_id user_id p c h = ground (arith, h)

-- A conflict names the path that was asked for.
put_gate_names :
    (max_vault_bytes : ℕ) (faults : Faults) (db : Db) (user_id : Text) (params : PutParams)
    (size : ℕ) (p : Text) (c : Option FileEntry)
    → put_gate max_vault_bytes faults db user_id params size ≡ err (conflict p c)
    → p ≡ params.path
unfolding put_gate conflict_gate bad_request
put_gate_names max_vault_bytes faults db user_id params size p c h =
    ground (arith, h, lock_vault_refuses db params.vault_id user_id p c)

delete_checks_names :
    (faults : Faults) (db : Db) (user_id vault_id path : Text) (parent_hash : Option Text)
    (p : Text) (c : Option FileEntry)
    → delete_checks faults db user_id vault_id path parent_hash ≡ err (conflict p c)
    → p ≡ path
unfolding delete_checks delete_gate bad_request
delete_checks_names faults db user_id vault_id path parent_hash p c h =
    ground (arith, h, lock_vault_refuses db vault_id user_id p c)

module _ (path_name : Text → Text) (seal : Text → Text → Bytes → Bytes) (max_vault_bytes : ℕ) where
  committed_names :
      (faults : Faults) (vault_id path : Text) (entry : FileEntry) (now : ℕ)
      (result : Result IoError BlobUndo) (blobs : Blobs.Files) (s : Server) (p : Text)
      (c : Option FileEntry)
      → (commit_or_undo path_name faults vault_id path entry now result blobs s).0
        ≢ err (conflict p c)
  unfolding commit_or_undo
  committed_names faults vault_id path entry now (err e) blobs s p c h = cc h
  committed_names faults vault_id path entry now (ok token) blobs s p c h = ground (arith, h)

  run_kind_names :
      (faults : Faults) (now : ℕ) (user_id vault_id path : Text) (parent_hash : Option Text)
      (kind : OpKind) (s : Server) (p : Text) (c : Option FileEntry)
      → (run_kind path_name seal max_vault_bytes faults now user_id vault_id path parent_hash kind
          s).0
        ≡ err (conflict p c)
      → p ≡ path
  unfolding run_kind apply_put apply_delete write_put write_delete
  run_kind_names faults now user_id vault_id path parent_hash (put content_hash enc_path bytes) s p
        c h =
      let params : PutParams = record {
        vault_id = vault_id;
        path = path;
        parent_hash = parent_hash;
        content_hash = content_hash;
        enc_path = enc_path;
      } in
      elim (Result-cases (put_gate max_vault_bytes faults s.db user_id params (length bytes))) [
        | inr (e, refused) ↦
            put_gate_names max_vault_bytes faults s.db user_id params (length bytes) p c
              (ground (arith, refused, h))
        | inl (already_stored, passed) ↦ absurd (ground (arith, passed, h))
        | inl (write hash current, passed) ↦ absurd (
            committed_names faults vault_id path _ now _ _ s p c
              (rw (passed, run_kind, apply_put, write_put) at h))
      ]
  run_kind_names faults now user_id vault_id path parent_hash delete s p c h =
      elim (Result-cases (delete_checks faults s.db user_id vault_id path parent_hash)) [
        | inr (e, refused) ↦
            delete_checks_names faults s.db user_id vault_id path parent_hash p c
              (ground (arith, refused, h))
        | inl (done, passed) ↦ absurd (
            committed_names faults vault_id path _ now _ _ s p c
              (rw (passed, run_kind, apply_delete, write_delete) at h))
      ]

  op_result_path :
      (path : Text) (outcome : Result ApiError (Unit {0})) (result : BatchOperationResult)
      → ((p : Text) (c : Option FileEntry) → outcome ≡ err (conflict p c) → p ≡ path)
      → op_result path outcome ≡ ok result
      → result.path ≡ path
  unfolding op_result
  op_result_path path (ok _) result names h = ground (arith, h)
  op_result_path path (err (status code m)) result names h = ground (arith, h)
  op_result_path path (err (internal m)) result names h = cc h
  op_result_path path (err (conflict p c)) result names h =
      let e = names p c refl in ground (arith, h, e)

  module _ (env : ℕ → Faults × ℕ) (user_id vault_id : Text) where
    abbrev run : ℕ → List ParsedOp → Server → Result ApiError (List BatchOperationResult) × Server
    run = apply_operations path_name seal max_vault_bytes env user_id vault_id

    -- The results of a batch that succeeds are as many as its operations, in their order, and name
    -- their paths.
    pub apply_operations-paths :
        (index : ℕ) (ops : List ParsedOp) (s : Server) (results : List BatchOperationResult)
        → (run index ops s).0 ≡ ok results
        → map (λ (r : BatchOperationResult). r.path) results ≡ map (λ (op : ParsedOp). op.path) ops
    unfolding apply_operations run_op
    apply_operations-paths index [] s results h = let e : results ≡ [] = cc h in rw e refl
    apply_operations-paths index (op ∷ ops) s results h =
        let outcome =
          run_op path_name seal max_vault_bytes (env index).0 (env index).1 user_id vault_id op s in
        elim (Result-cases (op_result op.path outcome.0)) [
          | inr (e, failed) ↦ absurd (ground (arith, h, failed))
          | inl (result, went_on) ↦ elim (Result-cases (run (suc index) ops outcome.1).0) [
            | inr (e, failed) ↦ absurd (ground (arith, h, went_on, failed))
            | inl (others, rest) ↦
                let is : results ≡ result ∷ others = ground (arith, h, went_on, rest) in
                let same =
                  op_result_path op.path outcome.0 result
                    (run_kind_names (env index).0 (env index).1 user_id vault_id op.path
                      (some (unwrap_or op.parent_hash [])) op.kind s)
                    went_on in
                rw (is, same)
                  (ap (λ (ps : List Text). op.path ∷ ps)
                    (apply_operations-paths (suc index) ops outcome.1 others rest))
          ]
        ]
