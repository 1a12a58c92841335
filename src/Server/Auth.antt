-- ===== src/Server/Auth.antt =====
-- server/src/auth: the account key, the approval of a device, the codes of a sign-in and the
-- invites. The columns that the routes use stand in tables by their primary keys
-- (server/migrations). The base64 of a crate is a parameter.
pub mod Keys
pub mod Approval
pub mod Devices
pub mod Lifecycle
pub mod Answered
pub mod Relay
pub mod Email
pub mod Attempts
pub mod Invites
pub mod Once
use obsink.Base.{
  ℕ, Bool, true, false, Option, none, some, List, [], ◌∷◌, ◌++◌, length, is_some, unwrap_or,
  map_option,
}
use obsink.Base.Ord.{◌==◌, nat_ord, text_ord}
use obsink.Base.Text.{Text, text}
use obsink.Base.Text.Decimal.{decimal}
use obsink.Base.BTreeMap.{Map, get, insert}
use obsink.Base.Result.{Result, ok, err, ok_or, ensure, ◌>>=◌, ◌>>◌}
use obsink.Server.Error.{ApiError, bad_request, unauthorized}
use obsink.Server.Blobs.{Bytes}

pub record Principal : Type 0 where
  pub user_id : Text
  pub session_id : Text
  pub device_id : Text

pub record UserRow : Type 0 where
  pub account_key_enc : Option Bytes
  pub account_key_salt : Option Bytes
  pub account_key_id : Option Text
  pub account_key_verifier : Option Bytes

pub record DeviceRow : Type 0 where
  pub approval_public_key : Option Bytes
  pub approval_requested : Option ℕ
  pub approval_expires : Option ℕ
  pub approval_wrapped : Option Bytes
  pub approval_approved_by : Option Text
  pub approval_approved : Option ℕ

pub record Accounts : Type 0 where
  pub users : Map Text UserRow
  pub devices : Map Text (Map Text DeviceRow)

-- `WHERE user_id = $1 AND id = $2`.
unfoldable pub device_row : Accounts → Text → Text → Option DeviceRow
device_row accounts user_id device_id = get (unwrap_or (get accounts.devices user_id) []) device_id

unfoldable pub put_device : Text → Text → DeviceRow → Accounts → Accounts
put_device user_id device_id row accounts = record accounts {
  devices =
      insert user_id (insert device_id row (unwrap_or (get accounts.devices user_id) []))
        accounts.devices;
}

abbrev pub verifier_len : ℕ
verifier_len = 32

abbrev pub wrapped_key_len : ℕ
wrapped_key_len = 60

abbrev pub salt_len : ℕ
salt_len = 16

abbrev pub approval_public_key_len : ℕ
approval_public_key_len = 32

abbrev pub approval_blob_len : ℕ
approval_blob_len = 92

-- The decoding of a field that is there.
abbrev decoded : Text → Option Bytes → Result ApiError Bytes
decoded name bytes = ok_or bytes (bad_request (name ++ text " must be base64"))

-- A base64 field of a fixed length.
unfoldable pub decode_field : (Text → Option Bytes) → Option Text → Text → ℕ → Result ApiError Bytes
decode_field decode_base64 value name len = do
  field ← ok_or value (bad_request (name ++ text " is required"))
  bytes ← decoded name (decode_base64 field)
  ensure (length bytes == len)
      (bad_request (name ++ text " must decode to " ++ decimal len ++ text " bytes"))
  ok bytes
