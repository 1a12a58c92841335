-- ===== src/Server/Blobs.antt =====
-- server/src/blobs.rs: the blob store. A path below the store's root is the list of its components,
-- and the store is the map of the files there. The hash that names a file (SHA-256 in hex, of a
-- crate) is the parameter `path_name`.
pub mod Names
pub mod Undo
use obsink.Base.{
  ℕ, zero, suc, ◌+◌, Bool, true, false, not, ◌&&◌, ◌||◌, Option, none, some, List, [], ◌∷◌, ◌++◌,
  length, all, any, leb, ltb, is_some, if◌then◌else◌,
}
use obsink.Base.Ord.{◌==◌, nat_ord, path_ord}
use obsink.Base.Text.{Text, text, utf8_len, is_empty, is_ascii_digit, starts_with}
use obsink.Base.Text.Decimal.{decimal, digits_value, span_digits, parse_u64}
use obsink.Base.BTreeMap.{Map, get, insert, remove}
use obsink.Base.Result.{Result, ok, err}

abbrev pub Bytes : Type 0
Bytes = List ℕ

-- MAX_PATH_BYTES
abbrev pub max_path_bytes : ℕ
max_path_bytes = 1024

pub data Tier : Type 0 where
  live versions trash : Tier

abbrev pub tier_dir : Tier → Text
tier_dir live = text "live"
tier_dir versions = text "_versions"
tier_dir trash = text "_trash"

abbrev is_ascii_hexdigit : ℕ → Bool
is_ascii_hexdigit b =
    (leb b'0' b && leb b b'9') || (leb b'a' b && leb b b'f') || (leb b'A' b && leb b b'F')

abbrev strip_prefix : Text → Text → Option Text
strip_prefix s [] = some s
strip_prefix [] (p ∷ ps) = none
strip_prefix (c ∷ cs) (p ∷ ps) = let rest = strip_prefix cs ps in if c == p then rest else none

unfoldable pub valid_vault_id : Text → Bool
unfolding utf8_len
valid_vault_id id = elim (strip_prefix id (text "vault_")) [
  | some rest ↦ utf8_len rest == 36 && all (λ b. is_ascii_hexdigit b || b == b'-') rest
  | none ↦ false
]

unfoldable pub valid_path : Text → Bool
unfolding utf8_len
valid_path path =
    not (is_empty path) && (leb (utf8_len path) max_path_bytes && not (any (λ b. b == 0) path))

-- The files of the store.
abbrev pub Files : Type 0
Files = Map (List Text) Bytes

-- Which file system calls fail, and which statements on the database; `commit_fails` stands for
-- those of a write up to its commit. A call that fails leaves the files as they were, but a failed
-- write may leave its temporary file: `leaves_temp` has its suffix and what was written of it.
pub record Faults : Type 0 where
  pub rename_fails : Bool
  pub write_fails : Bool
  pub leaves_temp : Option (Text × Bytes)
  pub unlink_fails : Bool
  pub restore_fails : Bool
  pub commit_fails : Bool
  pub begin_fails : Bool
  pub lock_fails : Bool
  pub select_fails : Bool
  pub sum_fails : Bool

abbrev pub no_faults : Faults
no_faults = record {
  rename_fails = false;
  write_fails = false;
  leaves_temp = none;
  unlink_fails = false;
  restore_fails = false;
  commit_fails = false;
  begin_fails = false;
  lock_fails = false;
  select_fails = false;
  sum_fails = false;
}

-- `io::Error`
pub data IoError : Type 0 where
  io_error : IoError

-- What `undo` needs to reverse a change of a live blob.
pub record BlobUndo : Type 0 where
  pub vault_id : Text
  pub path : Text
  pub restore_from : Option (Tier × Text)

-- The name of the `n`-th entry written in one second: `<unix>[-n]`.
unfoldable pub entry_name : ℕ → ℕ → Text
entry_name now zero = decimal now
entry_name now (suc n) = decimal now ++ (b'-' ∷ decimal (suc n))

-- A history entry name is `<unix>[-n]`; anything else could walk the tree.
unfoldable pub valid_history_name : Text → Bool
unfolding utf8_len is_ascii_digit
valid_history_name name =
    not (is_empty name)
    && (leb (utf8_len name) 32
        && (all (λ c. is_ascii_digit c || c == b'-') name && not (starts_with name (text "-"))))

-- Leading digits of a history file name, 0 if none or if they do not fit.
unfoldable pub extract_timestamp : Text → ℕ
extract_timestamp name = elim (parse_u64 (span_digits name).0) [ none ↦ 0 | some ts ↦ ts ]

-- What follows the first `-`, if there is one.
unfoldable pub after_dash : Text → Option Text
after_dash [] = none
after_dash (c ∷ cs) = let rest = after_dash cs in if c == b'-' then some cs else rest

abbrev number_or_zero : Option Text → ℕ
number_or_zero none = 0
number_or_zero (some s) = elim (parse_u64 s) [ none ↦ 0 | some n ↦ n ]

-- The (timestamp, suffix) pair by which a history entry sorts.
unfoldable pub history_order : Text → ℕ × ℕ
unfolding extract_timestamp after_dash
history_order name = (extract_timestamp name, number_or_zero (after_dash name))

abbrev first_two : Text → Text
first_two [] = []
first_two (a ∷ []) = a ∷ []
first_two (a ∷ b ∷ _) = a ∷ b ∷ []

module _ (path_name : Text → Text) where
  abbrev pub live_path : Text → Text → List Text
  live_path vault_id path =
      tier_dir live ∷ vault_id ∷ first_two (path_name path) ∷ path_name path ∷ []

  abbrev pub history_path : Tier → Text → Text → Text → List Text
  history_path tier vault_id path name = tier_dir tier ∷ vault_id ∷ path_name path ∷ name ∷ []

  unfoldable pub get_live : Files → Text → Text → Option Bytes
  get_live store vault_id path = get store (live_path vault_id path)

  unfoldable pub get_history : Files → Tier → Text → Text → Text → Option Bytes
  get_history store tier vault_id path name =
      if valid_history_name name then get store (history_path tier vault_id path name) else none

  -- `dir.join(".tmp-…")`, in the directory of the live blob.
  abbrev pub temp_path : Text → Text → Text → List Text
  temp_path vault_id path suffix =
      tier_dir live ∷ vault_id ∷ first_two (path_name path) ∷ (text ".tmp-" ++ suffix) ∷ []

  abbrev pub left_over : Option (Text × Bytes) → Text → Text → Files → Files
  left_over none vault_id path store = store
  left_over (some (suffix, written)) vault_id path store =
      insert (temp_path vault_id path suffix) written store

  unfoldable pub put_live : Faults → Text → Text → Bytes → Files → Result IoError (Unit {0}) × Files
  put_live faults vault_id path sealed store =
      if faults.write_fails
      then (err io_error, left_over faults.leaves_temp vault_id path store)
      else (ok tt, insert (live_path vault_id path) sealed store)

  -- `while dir.join(&name).exists()`: the first name that is free, on fuel.
  pub free_name : Tier → Text → Text → ℕ → Files → ℕ → Text → ℕ → Text
  free_name tier vault_id path now store zero name seq = name
  free_name tier vault_id path now store (suc fuel) name seq =
      let next = free_name tier vault_id path now store fuel (entry_name now seq) (suc seq) in
      if is_some (get store (history_path tier vault_id path name)) then next else name

  -- Where the live blob is moved to. There are no more names in use than there are files.
  unfoldable pub history_name : Tier → Text → Text → ℕ → Files → Text
  history_name tier vault_id path now store =
      free_name tier vault_id path now store (suc (length store)) (decimal now) 1

  unfoldable pub move_live_returning :
      Faults → Tier → Text → Text → ℕ → Files → Result IoError (Option Text) × Files
  move_live_returning faults tier vault_id path now store =
      elim (get store (live_path vault_id path)) [
        | none ↦ (ok none, store)
        | some blob ↦
            if faults.rename_fails
            then (err io_error, store)
            else let name = history_name tier vault_id path now store in
              (
                ok (some name),
                insert (history_path tier vault_id path name) blob
                    (remove (live_path vault_id path) store),
              )
      ]

  -- The undo token for what a move returned.
  abbrev undo_token : Tier → Text → Text → Option Text → BlobUndo
  undo_token tier vault_id path none = record {
    vault_id = vault_id;
    path = path;
    restore_from = none;
  }
  undo_token tier vault_id path (some name) = record {
    vault_id = vault_id;
    path = path;
    restore_from = some (tier, name);
  }

  -- The second half of `replace_live`, after the archiving.
  abbrev write_new :
      Faults
      → Text
      → Text
      → Bytes
      → Result IoError (Option Text)
      → Files
      → Result IoError BlobUndo × Files
  write_new faults vault_id path sealed (err e) store = (err e, store)
  write_new faults vault_id path sealed (ok archived) store =
      let (written, store') = put_live faults vault_id path sealed store in
      elim written [
        | ok _ ↦ (ok (undo_token versions vault_id path archived), store')
        | err e ↦ (err e, store')
      ]

  unfoldable pub replace_live :
      Faults → Text → Text → Bytes → Bool → ℕ → Files → Result IoError BlobUndo × Files
  unfolding move_live_returning put_live
  replace_live faults vault_id path sealed archive now store =
      let (archived, store') =
        if archive
        then move_live_returning faults versions vault_id path now store
        else (ok none, store) in
      write_new faults vault_id path sealed archived store'

  abbrev trashed :
      Text → Text → Result IoError (Option Text) → Files → Result IoError BlobUndo × Files
  trashed vault_id path (ok name) store = (ok (undo_token trash vault_id path name), store)
  trashed vault_id path (err e) store = (err e, store)

  unfoldable pub trash_live : Faults → Text → Text → ℕ → Files → Result IoError BlobUndo × Files
  unfolding move_live_returning
  trash_live faults vault_id path now store =
      let (name, store') = move_live_returning faults trash vault_id path now store in
      trashed vault_id path name store'

  -- `fs::rename`, best effort: no source, no change.
  abbrev rename : Bool → List Text → List Text → Files → Files
  rename fails from to store = elim (get store from) [
    | none ↦ store
    | some blob ↦ if fails then store else insert to blob (remove from store)
  ]

  unfoldable pub undo : Faults → BlobUndo → Files → Files
  undo faults token store =
      let here = live_path token.vault_id token.path in
      let dropped = if faults.unlink_fails then store else remove here store in
      elim token.restore_from [
        | none ↦ dropped
        | some (tier, name) ↦
            rename faults.restore_fails (history_path tier token.vault_id token.path name) here
              dropped
      ]
