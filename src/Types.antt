-- ===== src/Types.antt =====
-- core/src/types.rs: the data that the client, the engine and the server share. Hashes, paths and
-- other strings are lists of bytes.
use Prim.Native.Nat.{ℕ}
use mathlib.Core.Bool.{Bool, false}
use mathlib.Core.Option.{Option, none, some}
use mathlib.Core.List.{List, [], ◌∷◌}
use obsink.Base.Text.{Text}
use obsink.Base.BTreeMap.{Map}

pub record FileEntry : Type 0 where
  pub hash : Text
  pub modified : ℕ
  pub size : ℕ
  pub deleted : Bool
  pub enc_path : Text

-- `FileEntry::default()`.
abbrev pub default_entry : FileEntry
default_entry = record { hash = []; modified = 0; size = 0; deleted = false; enc_path = [] }

abbrev pub Manifest : Type 0
Manifest = Map Text FileEntry

pub data SyncActionKind : Type 0 where
  upload download delete_local delete_remote : SyncActionKind

pub record SyncAction : Type 0 where
  pub path : Text
  pub kind : SyncActionKind
  pub local : Option FileEntry
  pub remote : Option FileEntry

pub record Conflict : Type 0 where
  pub path : Text
  pub local : FileEntry
  pub remote : FileEntry

pub record SyncFailure : Type 0 where
  pub path : Text
  pub kind : SyncActionKind
  pub error : Text
  pub fatal : Bool

pub record SyncResult : Type 0 where
  pub upload : List SyncAction
  pub download : List SyncAction
  pub conflicts : List Conflict
  pub failures : List SyncFailure
  pub checkpoint_error : Option Text

pub data ConflictResolutionChoice : Type 0 where
  keep_local keep_remote keep_both defer : ConflictResolutionChoice

pub record ConflictResolution : Type 0 where
  pub path : Text
  pub choice : ConflictResolutionChoice

pub record SyncPlan : Type 0 where
  pub upload : List SyncAction
  pub download : List SyncAction
  pub conflicts : List Conflict
  pub failures : List SyncFailure

-- A plan that carries only the late conflicts of a completed sync.
unfoldable pub from_late_conflicts : SyncResult → Option SyncPlan
from_late_conflicts result = elim result.conflicts [
  | [] ↦ none
  | c ∷ cs ↦ some (record { upload = []; download = []; conflicts = c ∷ cs; failures = [] })
]

pub record ServerConflict : Type 0 where
  pub path : Text
  pub current : Option FileEntry

pub data BatchOp : Type 0 where
  put : Text → Option Text → Text → Text → BatchOp
  delete : Text → Option Text → BatchOp

pub record BatchOperationResult : Type 0 where
  pub path : Text
  pub status : ℕ
  pub conflict : Option ServerConflict
