-- ===== src/Server/Auth/Approval.antt =====
-- server/src/auth/approval.rs: a device without the account key asks, and another one answers.
use obsink.Base.{
  ℕ, ◌+◌, Bool, false, not, ◌&&◌, Option, none, some, is_some, ltb, unwrap_or, map_option,
  if◌then◌else◌,
}
use obsink.Base.Ord.{◌==◌, text_ord}
use obsink.Base.Text.{Text, text}
use obsink.Base.BTreeMap.{get}
use obsink.Base.Result.{Result, ok, err, ok_or, ensure, ◌>>=◌, ◌>>◌}
use obsink.SyncRules.{add_u64}
use obsink.Server.Error.{ApiError, status, bad_request, unauthorized, not_found}
use obsink.Server.Blobs.{Bytes}
use obsink.Server.Db.{stored}
use obsink.Server.Auth.{
  Principal, DeviceRow, Accounts, device_row, put_device, decode_field, verifier_len,
  approval_public_key_len, approval_blob_len,
}
use obsink.Server.Auth.Keys.{has_key, check_verifier}

abbrev pub approval_ttl_secs : ℕ
approval_ttl_secs = 600

pub record Registered : Type 0 where
  pub requested : ℕ
  pub expires : ℕ

-- The request as `poll` reports it.
pub record ApprovalStatus : Type 0 where
  pub public_key : Text
  pub requested : ℕ
  pub expires : ℕ
  pub wrapped : Option Text
  pub key_id : Option Text
  pub approved_by : Option Text
  pub approved : Option ℕ

pub record ApproveBody : Type 0 where
  pub wrapped : Option Text
  pub verifier : Option Text

abbrev pub requested_row : Bytes → ℕ → DeviceRow
requested_row public_key now = record {
  approval_public_key = some public_key;
  approval_requested = some (stored now);
  approval_expires = some (stored (add_u64 now approval_ttl_secs));
  approval_wrapped = none;
  approval_approved_by = none;
  approval_approved = none;
}

abbrev pub withdrawn_row : DeviceRow
withdrawn_row = record {
  approval_public_key = none;
  approval_requested = none;
  approval_expires = none;
  approval_wrapped = none;
  approval_approved_by = none;
  approval_approved = none;
}

abbrev expires_after : ℕ → Option ℕ → Bool
expires_after now none = false
expires_after now (some expires) = ltb (stored now) expires

-- `approval_public_key IS NOT NULL AND approval_expires > $5`.
unfoldable pub is_pending : ℕ → DeviceRow → Bool
is_pending now row = is_some row.approval_public_key && expires_after now row.approval_expires

abbrev pub approved_row : Bytes → Text → ℕ → DeviceRow → DeviceRow
approved_row wrapped approver now row = record row {
  approval_wrapped = some wrapped;
  approval_approved_by = some approver;
  approval_approved = some (stored now);
  approval_expires = some (stored now + approval_ttl_secs);
}

-- The request that an approval answers, or why there is none.
unfoldable pub pending_row : Accounts → Text → Text → ℕ → Result ApiError DeviceRow
unfolding is_pending
pending_row accounts user_id device_id now = do
  row ←
      ok_or (device_row accounts user_id device_id)
        (not_found (text "no pending request for this device"))
  ensure (is_pending now row) (not_found (text "no pending request for this device"))
  ensure (not (is_some row.approval_wrapped)) (status 409 (text "already approved"))
  ok row

module _ (decode_base64 : Text → Option Bytes) (encode_base64 : Bytes → Text) where
  -- The public key that `register` stores.
  unfoldable pub register_checks : Principal → Option Text → Accounts → Result ApiError Bytes
  unfolding has_key
  register_checks principal public_key accounts = do
    key ← decode_field decode_base64 public_key (text "public_key") approval_public_key_len
    set ← has_key accounts principal.user_id
    ensure set (bad_request (text "set a passphrase first"))
    row ←
        ok_or (device_row accounts principal.user_id principal.device_id)
          (unauthorized (text "unauthorized"))
    ok key

  unfoldable pub register :
      Principal → Option Text → ℕ → Accounts → Result ApiError Registered × Accounts
  unfolding register_checks put_device
  register principal public_key now accounts =
      elim (register_checks principal public_key accounts) [
        | err e ↦ (err e, accounts)
        | ok key ↦ (
          ok (record { requested = now; expires = add_u64 now approval_ttl_secs }),
          put_device principal.user_id principal.device_id (requested_row key now) accounts,
        )
      ]

  unfoldable pub and_key : Option Bytes → Option Text → Option Text
  and_key none key_id = none
  and_key (some wrapped) key_id = key_id

  -- The live request of a device.
  unfoldable pub live_status : ℕ → DeviceRow → Option Text → Option ApprovalStatus
  unfolding and_key
  live_status now row key_id = elim row.approval_public_key [
    | none ↦ none
    | some public_key ↦ elim row.approval_expires [
      | none ↦ none
      | some expires ↦
          if ltb now expires
          then some (record {
            public_key = encode_base64 public_key;
            requested = unwrap_or row.approval_requested 0;
            expires = expires;
            key_id = and_key row.approval_wrapped key_id;
            wrapped = map_option encode_base64 row.approval_wrapped;
            approved_by = row.approval_approved_by;
            approved = row.approval_approved;
          })
          else none
    ]
  ]

  unfoldable pub poll : Principal → ℕ → Accounts → Result ApiError (Option ApprovalStatus)
  unfolding live_status
  poll principal now accounts = do
    user ← ok_or (get accounts.users principal.user_id) (unauthorized (text "unauthorized"))
    row ←
        ok_or (device_row accounts principal.user_id principal.device_id)
          (unauthorized (text "unauthorized"))
    ok (live_status now row user.account_key_id)

  unfoldable pub cancel : Principal → Accounts → Accounts
  unfolding put_device
  cancel principal accounts = elim (device_row accounts principal.user_id principal.device_id) [
    | none ↦ accounts
    | some _ ↦ put_device principal.user_id principal.device_id withdrawn_row accounts
  ]

  -- The row that `approve` writes.
  unfoldable pub approve_row :
      Principal → Text → ApproveBody → ℕ → Accounts → Result ApiError DeviceRow
  unfolding pending_row check_verifier
  approve_row principal device_id body now accounts = do
    ensure (not (device_id == principal.device_id))
        (bad_request (text "a device cannot approve itself"))
    wrapped ← decode_field decode_base64 body.wrapped (text "wrapped") approval_blob_len
    verifier ← decode_field decode_base64 body.verifier (text "verifier") verifier_len
    check_verifier accounts principal.user_id verifier >>= λ _. ok tt
    row ← pending_row accounts principal.user_id device_id now
    ok (approved_row wrapped principal.device_id now row)

  unfoldable pub approve :
      Principal → Text → ApproveBody → ℕ → Accounts → Result ApiError (Unit {0}) × Accounts
  unfolding approve_row put_device
  approve principal device_id body now accounts =
      elim (approve_row principal device_id body now accounts) [
        | err e ↦ (err e, accounts)
        | ok row ↦ (ok tt, put_device principal.user_id device_id row accounts)
      ]
