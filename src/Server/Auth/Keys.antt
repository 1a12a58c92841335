-- ===== src/Server/Auth/Keys.antt =====
-- server/src/auth/keys.rs: the wrapped account key.
use obsink.Base.{Bool, Option, none, some, is_some, if◌then◌else◌}
use obsink.Base.Ord.{◌==◌, text_ord}
use obsink.Base.Text.{Text, text}
use obsink.Base.BTreeMap.{get, insert}
use obsink.Base.Result.{Result, ok, err, ok_or, ensure, ◌>>=◌, ◌>>◌}
use obsink.Server.Error.{ApiError, bad_request, unauthorized, forbidden, internal}
use obsink.Server.Blobs.{Bytes}
use obsink.Server.Auth.{
  Principal, UserRow, Accounts, decode_field, verifier_len, wrapped_key_len, salt_len,
}

pub record SetKeysBody : Type 0 where
  pub wrapped : Option Text
  pub salt : Option Text
  pub verifier : Option Text

pub record Material : Type 0 where
  pub wrapped : Bytes
  pub salt : Bytes
  pub verifier : Bytes

pub record AccountKeyBlob : Type 0 where
  pub key_id : Text
  pub wrapped : Text
  pub salt : Text

-- Either the key was created, or the account has one.
pub data SetAnswer : Type 0 where
  created : Text → SetAnswer
  exists_already : Option AccountKeyBlob → SetAnswer

-- `UPDATE users … WHERE id = $1`.
unfoldable pub put_user : Text → UserRow → Accounts → Accounts
put_user user_id row accounts = record accounts { users = insert user_id row accounts.users }

unfoldable pub has_key : Accounts → Text → Result ApiError Bool
has_key accounts user_id = do
  row ← ok_or (get accounts.users user_id) (internal (text "no rows"))
  ok (is_some row.account_key_enc)

-- The verifier of the account, against the one that a request brings.
unfoldable pub check_verifier : Accounts → Text → Bytes → Result ApiError UserRow
check_verifier accounts user_id verifier = do
  row ← ok_or (get accounts.users user_id) (unauthorized (text "unauthorized"))
  stored ← ok_or row.account_key_verifier (bad_request (text "set a passphrase first"))
  ensure (stored == verifier) (forbidden (text "passphrase does not match this account"))
  ok row

module _ (decode_base64 : Text → Option Bytes) (encode_base64 : Bytes → Text) where
  unfoldable pub decode : SetKeysBody → Result ApiError Material
  decode body = do
    wrapped ← decode_field decode_base64 body.wrapped (text "wrapped") wrapped_key_len
    salt ← decode_field decode_base64 body.salt (text "salt") salt_len
    verifier ← decode_field decode_base64 body.verifier (text "verifier") verifier_len
    ok (record { wrapped = wrapped; salt = salt; verifier = verifier })

  unfoldable pub stored_blob : UserRow → Option AccountKeyBlob
  stored_blob row = elim row.account_key_enc [
    | none ↦ none
    | some wrapped ↦ elim row.account_key_salt [
      | none ↦ none
      | some salt ↦ elim row.account_key_id [
        | none ↦ none
        | some key_id ↦
            some (record {
              key_id = key_id;
              wrapped = encode_base64 wrapped;
              salt = encode_base64 salt;
            })
      ]
    ]
  ]

  -- `current`.
  unfoldable pub current_key : Accounts → Text → Result ApiError (Option AccountKeyBlob)
  current_key accounts user_id = do
    row ← ok_or (get accounts.users user_id) (unauthorized (text "unauthorized"))
    ok (stored_blob row)

  -- What `set` does to the row, which has no key yet.
  abbrev pub first_key : Material → Text → UserRow → UserRow
  first_key material key_id row = record {
    account_key_enc = some material.wrapped;
    account_key_salt = some material.salt;
    account_key_id = some key_id;
    account_key_verifier = some material.verifier;
  }

  unfoldable pub set_row :
      Accounts → Text → Material → Text → Option UserRow → Result ApiError SetAnswer × Accounts
  unfolding current_key put_user
  set_row accounts user_id material key_id none =
      (current_key accounts user_id >>= λ blob. ok (exists_already blob), accounts)
  set_row accounts user_id material key_id (some row) =
      if is_some row.account_key_enc
      then (current_key accounts user_id >>= λ blob. ok (exists_already blob), accounts)
      else (ok (created key_id), put_user user_id (first_key material key_id row) accounts)

  -- `key_id` is the fresh id.
  unfoldable pub set :
      Principal → SetKeysBody → Text → Accounts → Result ApiError SetAnswer × Accounts
  unfolding set_row decode
  set principal body key_id accounts = elim (decode body) [
    | err e ↦ (err e, accounts)
    | ok material ↦
        set_row accounts principal.user_id material key_id (get accounts.users principal.user_id)
  ]

  abbrev pub rewrapped : Material → UserRow → UserRow
  rewrapped material row = record row {
    account_key_enc = some material.wrapped;
    account_key_salt = some material.salt;
  }

  -- The row that `rewrap` writes.
  unfoldable pub rewrap_row : Principal → SetKeysBody → Accounts → Result ApiError UserRow
  unfolding check_verifier decode
  rewrap_row principal body accounts = do
    material ← decode body
    row ← check_verifier accounts principal.user_id material.verifier
    ok (rewrapped material row)

  unfoldable pub rewrap : Principal → SetKeysBody → Accounts → Result ApiError (Unit {0}) × Accounts
  unfolding rewrap_row put_user
  rewrap principal body accounts = elim (rewrap_row principal body accounts) [
    | err e ↦ (err e, accounts)
    | ok row ↦ (ok tt, put_user principal.user_id row accounts)
  ]
