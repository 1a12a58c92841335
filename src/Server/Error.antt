-- ===== src/Server/Error.antt =====
-- server/src/error.rs: the one error type of the handlers. A message is its text.
use Prim.Native.Nat.{ℕ}
use mathlib.Core.Option.{Option}
use obsink.Base.Text.{Text}
use obsink.Types.{FileEntry}

pub data ApiError : Type 0 where
  status : ℕ → Text → ApiError
  conflict : Text → Option FileEntry → ApiError
  internal : Text → ApiError

unfoldable pub bad_request : Text → ApiError
bad_request message = status 400 message

unfoldable pub unauthorized : Text → ApiError
unauthorized message = status 401 message

unfoldable pub forbidden : Text → ApiError
forbidden message = status 403 message

unfoldable pub not_found : Text → ApiError
not_found message = status 404 message

unfoldable pub status_code : ApiError → ℕ
status_code (status code _) = code
status_code (conflict _ _) = 409
status_code (internal _) = 500
