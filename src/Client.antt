-- ===== src/Client.antt =====
-- core/src/api_client.rs: the requests of a sync and how their answers are read. The connection
-- (reqwest), the JSON decoders (serde) and the ciphers of core/src/crypto.rs are fields of
-- `Transport`; the waits between two attempts and the log are left out.
pub mod Answers
use obsink.Base.{
  ℕ, zero, suc, ◌-◌, ◌+◌, Bool, true, false, not, ◌&&◌, ◌||◌, Option, none, some, List, [], ◌∷◌,
  ◌++◌, leb, if◌then◌else◌, get_elem?, unwrap_or, length, map,
}
use obsink.Base.Ord.{◌==◌, nat_ord, text_ord}
use obsink.Base.Text.{Text, text, is_empty}
use obsink.Base.Text.Decimal.{decimal}
use obsink.Base.BTreeMap.{insert}
use obsink.Base.Result.{Result, ok, err}
use obsink.Base.Io.{Io, ◌>>=◌, return, lift, get_state, map_err}
use obsink.Types.{FileEntry, Manifest, ServerConflict, BatchOp, put, delete, BatchOperationResult}

-- MAX_ATTEMPTS
abbrev pub max_attempts : ℕ
max_attempts = 3

-- The questions that the code asks of a `reqwest::Error`.
pub record HttpError : Type 0 where
  pub is_timeout : Bool
  pub is_connect : Bool
  pub is_request : Bool

-- A `CryptoError` by its text.
abbrev pub CryptoError : Type 0
CryptoError = Text

pub data ApiError : Type 0 where
  http : HttpError → ApiError
  conflict : Text → ServerConflict → ApiError
  crypto : CryptoError → ApiError
  unauthorized : ApiError
  unexpected_status : ℕ → Text → ApiError

pub data ManifestFetch : Type 0 where
  modified : Manifest → Option Text → ManifestFetch
  not_modified : ManifestFetch

-- One batch operation as the server sees it, with the bytes of its `content` part.
pub record WireBatchOperation : Type 0 where
  pub action : Text
  pub path : Text
  pub parent_hash : Option Text
  pub content_hash : Option Text
  pub enc_path : Option Text
  pub content : Option Text

-- A request to the configured vault: the manifest with `If-None-Match`, a file by its token, a
-- batch, the report of a revision.
pub data Request : Type 0 where
  get_manifest : Option Text → Request
  get_blob : Text → Request
  post_batch : List WireBatchOperation → Request
  put_device : Option ℕ → Request

pub record Response : Type 0 where
  pub status : ℕ
  pub etag : Option Text
  pub body : Text

pub record Transport (W : Type 0) : Type 0 where
  pub send : Request → W → Result HttpError Response × W
  pub read_bytes : Text → Result HttpError Text
  pub read_manifest : Text → Result HttpError Manifest
  pub read_results : Text → Result HttpError (List BatchOperationResult)
  pub read_conflict : Text → Result HttpError ServerConflict
  pub path_token : Text → Text
  pub encrypt_path : W → Text → Result CryptoError Text
  pub decrypt_path : Text → Result CryptoError Text

-- `StatusCode::is_success`.
unfoldable pub is_success : ℕ → Bool
is_success status = leb 200 status && leb status 299

-- The errors of `parse_json`, `parse_bytes` and `parse_empty` for an answer that is no success.
unfoldable pub refusal : Response → ApiError
refusal response =
    if response.status == 401 then unauthorized else unexpected_status response.status response.body

unfoldable pub parse_json {ℓ} :
    {T : Type ℓ} → (Text → Result HttpError T) → Response → Result ApiError T
unfolding is_success refusal
parse_json read response =
    if is_success response.status then map_err http (read response.body) else err (refusal response)

unfoldable pub parse_bytes : (Text → Result HttpError Text) → Response → Result ApiError Text
unfolding is_success refusal
parse_bytes read response =
    if is_success response.status then map_err http (read response.body) else err (refusal response)

abbrev conflict_of : Text → Result HttpError ServerConflict → Result ApiError (Unit {0})
conflict_of path (ok c) = err (conflict path c)
conflict_of path (err e) = err (http e)

unfoldable pub parse_empty :
    (Text → Result HttpError ServerConflict) → Text → Response → Result ApiError (Unit {0})
unfolding is_success refusal
parse_empty read path response =
    if is_success response.status
    then ok tt
    else if response.status == 409
    then conflict_of path (read response.body)
    else err (refusal response)

unfoldable pub operation_path : BatchOp → Text
operation_path (put path parent_hash content_hash content) = path
operation_path (delete path parent_hash) = path

-- The results with the real path of the operation at each index.
unfoldable pub restore_paths : List Text → ℕ → List BatchOperationResult → List BatchOperationResult
restore_paths real_paths index [] = []
restore_paths real_paths index (result ∷ results) =
    record result { path = unwrap_or (get_elem? real_paths index) result.path }
    ∷ restore_paths real_paths (suc index) results

-- The answer of the server to a batch.
unfoldable pub batch_results :
    List BatchOp → List BatchOperationResult → Result ApiError (List BatchOperationResult)
unfolding restore_paths operation_path decimal
batch_results operations results =
    if not (length results == length operations)
    then err (
        unexpected_status 502 (
          text "batch answered "
          ++ decimal (length results)
          ++ text " results for "
          ++ decimal (length operations)
          ++ text " operations"))
    else ok (restore_paths (map operation_path operations) 0 results)

module _ {W : Type 0} (t : Transport W) where
  abbrev as_error : Result HttpError Response × W → Result ApiError Response × W
  as_error (answer, w) = (map_err http answer, w)

  -- `MAX_ATTEMPTS` sends at most: `retries` of them after the first.
  unfoldable pub send_with : ℕ → Request → Io ApiError W Response
  send_with zero request w = as_error (t.send request w)
  send_with (suc left) request w =
      let (answer, w') = t.send request w in
      elim answer [
        | ok response ↦ (ok response, w')
        | err error ↦ elim (error.is_timeout || error.is_connect) [
          | false ↦ (err (http error), w')
          | true ↦ send_with left request w'
        ]
      ]

  unfoldable pub send_with_retry : Request → Io ApiError W Response
  unfolding send_with
  send_with_retry request = send_with (max_attempts - 1) request

  abbrev insert_at : FileEntry → Manifest → Result CryptoError Text → Result ApiError Manifest
  insert_at entry decoded (ok path) = ok (insert path entry decoded)
  insert_at entry decoded (err e) = err (crypto e)

  -- The server's manifest is keyed by token; the client's by the path in `enc_path`.
  unfoldable pub rekey : Manifest → Manifest → Result ApiError Manifest
  rekey [] decoded = ok decoded
  rekey ((token, entry) ∷ raw) decoded = elim (is_empty entry.enc_path) [
    | true ↦ rekey raw decoded
    | false ↦ elim (insert_at entry decoded (t.decrypt_path entry.enc_path)) [
      | ok next ↦ rekey raw next
      | err e ↦ err e
    ]
  ]

  unfoldable pub read_fetch : Response → Result ApiError ManifestFetch
  unfolding parse_json rekey
  read_fetch response =
      if response.status == 304
      then ok not_modified
      else elim (parse_json t.read_manifest response) [
        | err e ↦ err e
        | ok raw ↦ elim (rekey raw []) [
          | err e ↦ err e
          | ok decoded ↦ ok (modified decoded response.etag)
        ]
      ]

  unfoldable pub get_manifest_if_changed : Option Text → Io ApiError W ManifestFetch
  unfolding send_with_retry read_fetch
  get_manifest_if_changed if_none_match = do
    response ← send_with_retry (get_manifest if_none_match)
    lift (read_fetch response)

  unfoldable pub get_file : Text → Io ApiError W Text
  unfolding send_with_retry parse_bytes
  get_file path = do
    response ← send_with_retry (get_blob (t.path_token path))
    lift (parse_bytes t.read_bytes response)

  unfoldable pub attach_device : Option ℕ → Io ApiError W (Unit {0})
  unfolding send_with_retry parse_empty
  attach_device revision = do
    response ← send_with_retry (put_device revision)
    lift (parse_empty t.read_conflict [] response)

  unfoldable pub wire_operation : W → BatchOp → Result CryptoError WireBatchOperation
  wire_operation w (put path parent_hash content_hash content) = elim (t.encrypt_path w path) [
    | err e ↦ err e
    | ok enc_path ↦ ok (record {
      action = text "put";
      path = t.path_token path;
      parent_hash = parent_hash;
      content_hash = some content_hash;
      enc_path = some enc_path;
      content = some content;
    })
  ]
  wire_operation w (delete path parent_hash) = ok (record {
    action = text "delete";
    path = t.path_token path;
    parent_hash = parent_hash;
    content_hash = none;
    enc_path = none;
    content = none;
  })

  unfoldable pub build_batch_form : W → List BatchOp → Result ApiError (List WireBatchOperation)
  unfolding wire_operation
  build_batch_form w [] = ok []
  build_batch_form w (op ∷ operations) = elim (wire_operation w op) [
    | err e ↦ err (crypto e)
    | ok wire ↦ elim (build_batch_form w operations) [ err e ↦ err e | ok rest ↦ ok (wire ∷ rest) ]
  ]

  -- The form is built again for each attempt.
  unfoldable pub send_batch : ℕ → List BatchOp → Io ApiError W Response
  unfolding build_batch_form
  send_batch zero operations w = elim (build_batch_form w operations) [
    | err e ↦ (err e, w)
    | ok wire ↦ as_error (t.send (post_batch wire) w)
  ]
  send_batch (suc left) operations w = elim (build_batch_form w operations) [
    | err e ↦ (err e, w)
    | ok wire ↦
        let (answer, w') = t.send (post_batch wire) w in
        elim answer [
          | ok response ↦ (ok response, w')
          | err error ↦ elim (error.is_timeout || error.is_connect) [
            | false ↦ (err (http error), w')
            | true ↦ send_batch left operations w'
          ]
        ]
  ]

  unfoldable pub batch : List BatchOp → Io ApiError W (List BatchOperationResult)
  unfolding send_batch parse_json batch_results
  batch operations = do
    response ← send_batch (max_attempts - 1) operations
    results ← lift (parse_json t.read_results response)
    lift (batch_results operations results)
