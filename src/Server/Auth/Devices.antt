-- ===== src/Server/Auth/Devices.antt =====
-- The other statements on the rows of users and devices: sign-up (server/src/auth/users.rs), sign-in
-- and the removal of a device (server/src/auth/devices.rs), the deletion of an account
-- (server/src/routes/me.rs) and the end of old requests (server/src/retention.rs).
use obsink.Base.{
  Bool, false, ◌&&◌, ℕ, Option, none, some, is_some, leb, if◌then◌else◌, unwrap_or, [],
}
use obsink.Base.Ord.{text_ord}
use obsink.Base.Text.{Text, text}
use obsink.Base.BTreeMap.{get, insert, remove, map_values}
use obsink.Base.Result.{Result, ok, err}
use obsink.Server.Error.{ApiError, internal, not_found}
use obsink.Server.Db.{stored}
use obsink.Server.Auth.{Principal, UserRow, DeviceRow, Accounts, device_row, put_device}
use obsink.Server.Auth.Approval.{withdrawn_row}

-- The columns of a new account.
abbrev pub new_user : UserRow
new_user = record {
  account_key_enc = none;
  account_key_salt = none;
  account_key_id = none;
  account_key_verifier = none;
}

-- `users::insert` with the fresh id; the primary key refuses an id that is in use.
unfoldable pub insert_user : Text → Accounts → Result ApiError (Unit {0}) × Accounts
insert_user user_id accounts = elim (get accounts.users user_id) [
  | some _ ↦ (err (internal (text "database")), accounts)
  | none ↦ (ok tt, record accounts { users = insert user_id new_user accounts.users })
]

-- `devices::upsert`: a new device has no request, and a known one loses its own.
unfoldable pub upsert_device : Text → Text → Accounts → Result ApiError (Unit {0}) × Accounts
unfolding put_device
upsert_device user_id device_id accounts = elim (get accounts.users user_id) [
  | none ↦ (err (internal (text "database")), accounts)
  | some _ ↦ (ok tt, put_device user_id device_id withdrawn_row accounts)
]

-- `devices::delete`.
unfoldable pub delete_device : Text → Text → Accounts → Result ApiError (Unit {0}) × Accounts
unfolding device_row
delete_device user_id device_id accounts = elim (device_row accounts user_id device_id) [
  | none ↦ (err (not_found (text "device not found")), accounts)
  | some _ ↦ (
    ok tt,
    record accounts {
      devices =
          insert user_id (remove device_id (unwrap_or (get accounts.devices user_id) []))
            accounts.devices;
    },
  )
]

-- The row of the account goes, and its devices by the cascade.
unfoldable pub delete_account : Principal → Accounts → Accounts
delete_account principal accounts = record accounts {
  users = remove principal.user_id accounts.users;
  devices = remove principal.user_id accounts.devices;
}

abbrev expired_by : ℕ → Option ℕ → Bool
expired_by now none = false
expired_by now (some expires) = leb expires (stored now)

-- `WHERE approval_public_key IS NOT NULL AND approval_expires <= $1`.
unfoldable pub expire_row : ℕ → DeviceRow → DeviceRow
expire_row now row =
    if is_some row.approval_public_key && expired_by now row.approval_expires
    then withdrawn_row
    else row

-- The update of `run_once`.
unfoldable pub expire_approvals : ℕ → Accounts → Accounts
unfolding expire_row
expire_approvals now accounts = record accounts {
  devices = map_values (map_values (expire_row now)) accounts.devices;
}
