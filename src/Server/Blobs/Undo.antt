-- ===== src/Server/Blobs/Undo.antt =====
-- `replace_live` and `trash_live` do what the row needs, and `undo` reverses them.
use obsink.Base.{
  ℕ, ◌≡◌, refl, ◌∙◌, Bool, false, Option, none, some, List, arith, is_some, if◌then◌else◌, inl, inr,
  Bool-cases, Option-cases,
}
use obsink.Base.Ord.{◌==◌, ==_iff, ==_refl, ==_ne, ==_comm, path_ord}
use obsink.Base.Text.{Text}
use obsink.Base.BTreeMap.{get, insert, remove, get-insert, get-remove}
use obsink.Base.Result.{ok}
use obsink.Server.Blobs.{
  Bytes, Tier, versions, trash, Files, Faults, BlobUndo, live_path, history_path, history_name,
  move_live_returning, replace_live, trash_live, undo,
}
use obsink.Server.Blobs.Names.{history_name_free}

-- No file system call fails; the commit may.
abbrev pub IsCalm : Faults → Type 0
IsCalm f =
    (f.rename_fails ≡ false)
    × (f.write_fails ≡ false)
    × (f.unlink_fails ≡ false)
    × (f.restore_fails ≡ false)

-- The files are the same.
abbrev pub SameFiles : Files → Files → Type 0
SameFiles a b = (q : List Text) → get a q ≡ get b q

module _ (path_name : Text → Text) (faults : Faults) (vault_id path : Text) (now : ℕ)
    (store : Files) where
  abbrev here : List Text
  here = live_path path_name vault_id path

  abbrev there : Tier → List Text
  there tier =
      history_path path_name tier vault_id path
        (history_name path_name tier vault_id path now store)

  versions_ne_live : (there versions == here) ≡ false
  versions_ne_live = ==_ne (there versions) here (λ e. cc e)

  trash_ne_live : (there trash == here) ≡ false
  trash_ne_live = ==_ne (there trash) here (λ e. cc e)

  -- The other live paths are no history entries.
  live_apart :
      (v p : Text)
      → ((there versions == live_path path_name v p) ≡ false)
        × ((there trash == live_path path_name v p) ≡ false)
  live_apart v p = (
    ==_ne (there versions) (live_path path_name v p) (λ e. cc e),
    ==_ne (there trash) (live_path path_name v p) (λ e. cc e),
  )

  -- Restoring a blob from a free history entry.
  restored :
      (tier : Tier) (blob : Bytes) (mid : Files) (q : List Text)
      → (there tier == here) ≡ false
      → get store here ≡ some blob
      → get store (there tier) ≡ none
      → ((q : List Text)
          → get mid q
            ≡ (if here == q then none else if there tier == q then some blob else get store q))
      → get (insert here blob (remove (there tier) mid)) q ≡ get store q
  restored tier blob mid q apart was free same =
      rw (get-insert, get-remove, same q)
        (ground (arith, ==_iff here q, ==_iff (there tier) q, was, free, apart))

  -- The files after a move of the live blob.
  abbrev moved : Tier → Bytes → Files
  moved tier blob = insert (there tier) blob (remove here store)

  move_absent :
      (tier : Tier)
      → get store here ≡ none
      → move_live_returning path_name faults tier vault_id path now store ≡ (ok none, store)
  unfolding move_live_returning
  move_absent tier absent = ground (arith, absent)

  move_present :
      (tier : Tier) (blob : Bytes)
      → faults.rename_fails ≡ false
      → get store here ≡ some blob
      → move_live_returning path_name faults tier vault_id path now store
        ≡ (ok (some (history_name path_name tier vault_id path now store)), moved tier blob)
  unfolding move_live_returning
  move_present tier blob calm present = ground (arith, present, calm)

  -- The undo token for a restore, or none.
  abbrev token : Option (Tier × Text) → BlobUndo
  token source = record { vault_id = vault_id; path = path; restore_from = source }

  undo_drop :
      (after : Files)
      → faults.unlink_fails ≡ false
      → undo path_name faults (token none) after ≡ remove here after
  unfolding undo
  undo_drop after calm = rw calm

  undo_restore :
      (tier : Tier) (name : Text) (blob : Bytes) (after : Files)
      → faults.unlink_fails ≡ false
      → faults.restore_fails ≡ false
      → get (remove here after) (history_path path_name tier vault_id path name) ≡ some blob
      → undo path_name faults (token (some (tier, name))) after
        ≡ insert here blob
            (remove (history_path path_name tier vault_id path name) (remove here after))
  unfolding undo
  undo_restore tier name blob after calm calm' found = ground (arith, calm, found, calm')

  module _ (tier : Tier) (blob : Bytes) (after : Files) where
    -- Undoing a move, whatever was then written to the live path.
    undo-moved :
        IsCalm faults
        → (there tier == here) ≡ false
        → get store here ≡ some blob
        → ((q : List Text) → (here == q) ≡ false → get after q ≡ get (moved tier blob) q)
        → SameFiles
            (undo path_name faults
              (token (some (tier, history_name path_name tier vault_id path now store)))
              after)
            store
    undo-moved calm apart present same q =
        let kept : (q : List Text)
            → get (remove here after) q
              ≡ (if here == q then none else if there tier == q then some blob else get store q) =
          λ q. get-remove here q after ∙ unmoved q in
        let found : get (remove here after) (there tier) ≡ some blob =
          kept (there tier) ∙ rw (==_comm here (there tier), apart, ==_refl) in
        rw (undo_restore tier _ blob after calm.2 calm.3 found) (
          restored tier blob (remove here after) q apart present
            (history_name_free path_name tier vault_id path now store) kept)
      where
        unmoved :
            (q : List Text)
            → (if here == q then none else get after q)
              ≡ (if here == q then none else if there tier == q then some blob else get store q)
        unmoved q = elim (Bool-cases (here == q)) [
          | inl at_live ↦ rw at_live
          | inr other ↦ rw (other, same q other, get-insert, get-remove, other)
        ]

  -- The other live blobs are as they were.
  abbrev pub OthersKept : Files → Type 0
  OthersKept after =
      (v p : Text)
      → (here == live_path path_name v p) ≡ false
      → get after (live_path path_name v p) ≡ get store (live_path path_name v p)

  -- A replaced blob is the new one, the other live blobs are kept, and `undo` brings back every
  -- file as it was, provided that the archive flag says whether there is a live blob and that no
  -- file system call fails.
  pub undo-replace_live :
      (sealed : Bytes) (archive : Bool)
      → IsCalm faults
      → archive ≡ is_some (get store here)
      → (t : BlobUndo) × (after : Files) × (replace_live path_name faults vault_id path sealed
            archive now store
          ≡ (ok t, after))
        × (get after here ≡ some sealed)
        × OthersKept after
        × SameFiles (undo path_name faults t after) store
  unfolding replace_live
  undo-replace_live sealed archive calm flag = elim (Option-cases (get store here)) [
    | inl absent ↦
        let after = insert here sealed store in
        (
          token none,
          after,
          ground (arith, flag, absent, calm.1),
          rw (get-insert, ==_refl),
          λ v p other. get-insert here _ sealed store ∙ rw other,
          λ q.
              rw (undo_drop after calm.2, get-remove, get-insert)
                (ground (arith, ==_iff here q, absent)),
        )
    | inr (blob, present) ↦
        let after = insert here sealed (moved versions blob) in
        (
          token (some (versions, history_name path_name versions vault_id path now store)),
          after,
          ground (arith, flag, present, calm.0, calm.1),
          rw (get-insert, ==_refl),
          λ v p other.
              get-insert here _ sealed (moved versions blob)
              ∙ rw (other, get-insert, (live_apart v p).0, get-remove, other),
          undo-moved versions blob after calm versions_ne_live present
              (λ q other. rw (get-insert, other)),
        )
  ]

  -- A trashed blob is gone, the other live blobs are kept, and `undo` brings back every file as it
  -- was, provided that no file system call fails.
  pub undo-trash_live :
      IsCalm faults
      → (t : BlobUndo) × (after : Files) × (trash_live path_name faults vault_id path now store
          ≡ (ok t, after))
        × (get after here ≡ none)
        × OthersKept after
        × SameFiles (undo path_name faults t after) store
  unfolding trash_live
  undo-trash_live calm = elim (Option-cases (get store here)) [
    | inl absent ↦ (
      token none,
      store,
      ground (arith, absent),
      absent,
      λ v p other. refl,
      λ q. rw (undo_drop store calm.2, get-remove) (ground (arith, ==_iff here q, absent)),
    )
    | inr (blob, present) ↦ (
      token (some (trash, history_name path_name trash vault_id path now store)),
      moved trash blob,
      ground (arith, present, calm.0),
      rw (get-insert, trash_ne_live, get-remove, ==_refl),
      λ v p other. rw (get-insert, (live_apart v p).1, get-remove, other),
      undo-moved trash blob (moved trash blob) calm trash_ne_live present (λ q other. refl),
    )
  ]
