-- ===== src/Server/Batch.antt =====
-- server/src/routes/batch.rs: a batch of operations, checked as a whole and then applied one by one.
-- The multipart stream is the list of what `next_field` gives, and the reading of the JSON, by a
-- crate, is the parameter `read_operations` (`batch.rs:118-130`).
pub mod Parse
pub mod Runs
pub mod Sequence
use obsink.Base.{
  ℕ, suc, Bool, true, false, not, Option, none, some, List, [], ◌∷◌, ◌++◌, length, leb, find,
  is_some, unwrap_or, if◌then◌else◌,
}
use obsink.Base.Ord.{◌==◌, nat_ord, text_ord}
use obsink.Base.Text.{Text, text}
use obsink.Base.Text.Decimal.{decimal, parse_u64}
use obsink.Base.BTreeMap.{Map, get, insert, remove, keys}
use obsink.Base.Result.{Result, ok, err, ok_or, ensure, ◌>>=◌, ◌>>◌}
use obsink.Types.{BatchOperationResult, ServerConflict}
use obsink.Server.Error.{ApiError, status, conflict, internal, bad_request}
use obsink.Server.Blobs.{Bytes, Faults}
use obsink.Server.Files.{Server, Outcome, PutParams, apply_put, apply_delete}

pub record WireOp : Type 0 where
  pub action : Option Text
  pub path : Option Text
  pub parent_hash : Option Text
  pub content_hash : Option Text
  pub enc_path : Option Text

pub data OpKind : Type 0 where
  put : Option Text → Option Text → Bytes → OpKind
  delete : OpKind

pub record ParsedOp : Type 0 where
  pub path : Text
  pub parent_hash : Option Text
  pub kind : OpKind

-- A field of the multipart body; reading its body may fail.
pub data Part : Type 0 where
  operations : Result ApiError Text → Part
  content : Option Text → Result ApiError Bytes → Part
  unknown : Part

-- The variables of the loop over the fields.
pub record Parts : Type 0 where
  pub operations : Option Text
  pub contents : Map ℕ Bytes

abbrev file_index : Option Text → Option ℕ
file_index none = none
file_index (some name) = parse_u64 name

-- One field.
unfoldable pub read_part : Parts → Part → Result ApiError Parts
read_part parts (operations body) = do
  ensure (not (is_some parts.operations)) (bad_request (text "duplicate operations part"))
  read ← body
  ok (record parts { operations = some read })
read_part parts (content name body) = do
  index ←
      ok_or (file_index name)
        (bad_request (text "content part filename must be the operation index"))
  bytes ← body
  ensure (not (is_some (get parts.contents index)))
      (bad_request (text "duplicate content part for operation " ++ decimal index))
  ok (record parts { contents = insert index bytes parts.contents })
read_part parts unknown = err (bad_request (text "unknown multipart part"))

unfoldable pub read_parts : Parts → List (Result ApiError Part) → Result ApiError Parts
unfolding read_part
read_parts parts [] = ok parts
read_parts parts (field ∷ fields) = do
  part ← field
  next ← read_part parts part
  read_parts next fields

-- The kind of an operation, and the contents that are left.
unfoldable pub parse_kind : ℕ → WireOp → Map ℕ Bytes → Result ApiError (OpKind × Map ℕ Bytes)
parse_kind index op contents =
    let action = unwrap_or op.action [] in
    if action == text "put"
    then (ok_or (get contents index)
          (bad_request (text "missing content part for operation " ++ decimal index))
        >>= λ bytes. ok (put op.content_hash op.enc_path bytes, remove index contents))
    else if action == text "delete"
    then if is_some (get contents index)
      then err (
          bad_request
            (text "operation " ++ decimal index ++ text " is not a put but has a content part"))
      else ok (delete, contents)
    else err (
        bad_request
          (text "operation " ++ decimal index ++ text ": unknown action \"" ++ action ++ text "\""))

unfoldable pub parse_ops : ℕ → List WireOp → Map ℕ Bytes → Result ApiError (List ParsedOp)
unfolding parse_kind
parse_ops index [] contents = ok []
parse_ops index (op ∷ ops) contents = do
  parsed ← parse_kind index op contents
  rest ← parse_ops (suc index) ops parsed.1
  ok (record { path = unwrap_or op.path []; parent_hash = op.parent_hash; kind = parsed.0 } ∷ rest)

-- The first content part without an operation.
abbrev check_stray : Option ℕ → Result ApiError (Unit {0})
check_stray none = ok tt
check_stray (some index) =
    err (bad_request (text "content part " ++ decimal index ++ text " has no operation"))

module _ (read_operations : Text → Result ApiError (List WireOp)) where
  unfoldable pub parse_batch : List (Result ApiError Part) → Result ApiError (List ParsedOp)
  unfolding read_parts parse_ops
  parse_batch fields = do
    parts ← read_parts (record { operations = none; contents = [] }) fields
    json ← ok_or parts.operations (bad_request (text "operations must be an array"))
    ops ← read_operations json
    check_stray (find (leb (length ops)) (keys parts.contents))
    parse_ops 0 ops parts.contents

-- The result of one operation; an internal error fails the request.
unfoldable pub op_result : Text → Result ApiError (Unit {0}) → Result ApiError BatchOperationResult
op_result path (ok _) = ok (record { path = path; status = 200; conflict = none })
op_result path (err (conflict at current)) =
    ok (record {
      path = at;
      status = 409;
      conflict = some (record { path = at; current = current });
    })
op_result path (err (status code _)) = ok (record { path = path; status = code; conflict = none })
op_result path (err (internal e)) = err (internal e)

module _ (path_name : Text → Text) (seal : Text → Text → Bytes → Bytes) (max_vault_bytes : ℕ) where
  unfoldable pub run_kind :
      Faults → ℕ → Text → Text → Text → Option Text → OpKind → Server → Outcome
  run_kind faults now user_id vault_id path parent_hash (put content_hash enc_path bytes) s =
      apply_put path_name seal max_vault_bytes faults now user_id
        (record {
          vault_id = vault_id;
          path = path;
          parent_hash = parent_hash;
          content_hash = content_hash;
          enc_path = enc_path;
        })
        bytes s
  run_kind faults now user_id vault_id path parent_hash delete s =
      apply_delete path_name seal max_vault_bytes faults now user_id vault_id path parent_hash s

  unfoldable pub run_op : Faults → ℕ → Text → Text → ParsedOp → Server → Outcome
  unfolding run_kind
  run_op faults now user_id vault_id op s =
      run_kind faults now user_id vault_id op.path (some (unwrap_or op.parent_hash [])) op.kind s

  -- The loop over the operations, each with the faults and the time that it meets.
  unfoldable pub apply_operations :
      (ℕ → Faults × ℕ)
      → Text
      → Text
      → ℕ
      → List ParsedOp
      → Server
      → Result ApiError (List BatchOperationResult) × Server
  unfolding run_op op_result
  apply_operations env user_id vault_id index [] s = (ok [], s)
  apply_operations env user_id vault_id index (op ∷ ops) s =
      let (outcome, after) = run_op (env index).0 (env index).1 user_id vault_id op s in
      let (results, last) = apply_operations env user_id vault_id (suc index) ops after in
      elim (op_result op.path outcome) [
        | err e ↦ (err e, after)
        | ok result ↦ (results >>= λ rest. ok (result ∷ rest), last)
      ]

  unfoldable pub batch :
      (Text → Result ApiError (List WireOp))
      → (ℕ → Faults × ℕ)
      → Text
      → Text
      → List (Result ApiError Part)
      → Server
      → Result ApiError (List BatchOperationResult) × Server
  unfolding apply_operations parse_batch
  batch read_operations env user_id vault_id fields s = elim (parse_batch read_operations fields) [
    | err e ↦ (err e, s)
    | ok ops ↦ apply_operations env user_id vault_id 0 ops s
  ]
