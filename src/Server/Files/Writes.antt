-- ===== src/Server/Files/Writes.antt =====
-- What one `apply_put` or `apply_delete` does to the tables, on every branch.
use obsink.Base.{
  ◌||◌, ℕ, ◌≡◌, refl, sym, ◌∙◌, ap, false, ◌⊎◌, inl, inr, Option, none, some, arith, length,
  Bool-cases,
}
use obsink.Base.Ord.{==_refl, text_ord}
use obsink.Base.Text.{Text}
use obsink.Base.Result.{Result, ok, err, Result-cases}
use obsink.Types.{FileEntry}
use obsink.Server.Error.{ApiError}
use obsink.Server.Blobs
use obsink.Server.Blobs.{Bytes, Faults, BlobUndo, IoError}
use obsink.Server.Db.{Db, current_entry, upsert_entry, bump_revision, is_exhausted, stored_entry}
use obsink.Server.Db.Laws.{current_entry-bump_revision, current_entry-upsert_entry}
use obsink.Server.Files.{
  Server, PutParams, PutGate, already_stored, write, Outcome, put_gate, given_hash, delete_checks,
  commit_or_undo, write_put, write_delete, apply_put, apply_delete, uploaded, tombstone,
}
use obsink.Server.Files.Gate.{
  presented, put_gate-Checked, conflict_gate-write, conflict_gate-stored, delete_gate-ok,
}

-- A step either fails and leaves the tables, or writes one entry and bumps the revision.
abbrev Wrote : Text → Text → FileEntry → ℕ → Server → Outcome → Type 0
Wrote vault_id path entry now s (ok _, s') =
    s'.db ≡ bump_revision vault_id now (upsert_entry vault_id path entry s.db)
Wrote vault_id path entry now s (err _, s') = s'.db ≡ s.db

commit_or_undo-Wrote :
    (path_name : Text → Text) (faults : Faults) (vault_id path : Text) (entry : FileEntry) (now : ℕ)
    (result : Result IoError BlobUndo) (blobs : Blobs.Files) (s : Server)
    → Wrote vault_id path entry now s
        (commit_or_undo path_name faults vault_id path entry now result blobs s)
unfolding commit_or_undo
commit_or_undo-Wrote path_name faults vault_id path entry now (err e) blobs s = refl
commit_or_undo-Wrote path_name faults vault_id path entry now (ok token) blobs s =
    elim (Bool-cases (faults.commit_fails || is_exhausted vault_id s.db)) [
      | inl fails ↦ rw fails refl
      | inr holds ↦ rw holds refl
    ]

Wrote-ok :
    (vault_id path : Text) (entry : FileEntry) (now : ℕ) (s : Server) (o : Outcome)
    → Wrote vault_id path entry now s o
    → o.0 ≡ ok tt
    → o.1.db ≡ bump_revision vault_id now (upsert_entry vault_id path entry s.db)
Wrote-ok vault_id path entry now s (ok _, s') w h = w
Wrote-ok vault_id path entry now s (err e, s') w h = cc

Wrote-err :
    (vault_id path : Text) (entry : FileEntry) (now : ℕ) (s : Server) (o : Outcome) (e : ApiError)
    → Wrote vault_id path entry now s o
    → o.0 ≡ err e
    → o.1.db ≡ s.db
Wrote-err vault_id path entry now s (ok _, s') e w h = cc
Wrote-err vault_id path entry now s (err _, s') e w h = w

-- The entry after a write.
pub current_entry_written :
    (vault_id path : Text) (entry : FileEntry) (now : ℕ) (db : Db)
    → current_entry (bump_revision vault_id now (upsert_entry vault_id path entry db)) vault_id path
      ≡ some (stored_entry entry)
current_entry_written vault_id path entry now db =
    current_entry-bump_revision vault_id now (upsert_entry vault_id path entry db) vault_id path
    ∙ current_entry-upsert_entry db vault_id path entry vault_id path
    ∙ rw (==_refl vault_id, ==_refl path)

module _ (path_name : Text → Text) (seal : Text → Text → Bytes → Bytes) (max_vault_bytes : ℕ)
    (faults : Faults) (now : ℕ) (user_id : Text) where
  module _ (params : PutParams) (body : Bytes) (s : Server) where
    abbrev put_run : Outcome
    put_run = apply_put path_name seal max_vault_bytes faults now user_id params body s

    abbrev before : Option FileEntry
    before = current_entry s.db params.vault_id params.path

    abbrev gate_at : Result ApiError PutGate
    gate_at = put_gate max_vault_bytes faults s.db user_id params (length body)

    -- The tables after an upload.
    abbrev pub uploaded_db : Text → Db
    uploaded_db hash = bump_revision params.vault_id now (
        upsert_entry params.vault_id params.path (uploaded params hash before now (length body))
          s.db)

    -- What a successful upload did: its bytes were already there and nothing changed, or the
    -- presented parent is the hash of the entry, which was replaced.
    abbrev pub PutDone : Text → Type 0
    PutDone hash =
        ((put_run.1 ≡ s)
          × (c : FileEntry) × (before ≡ some c)
          × (c.hash ≡ hash)
          × (c.deleted ≡ false))
        ⊎ ((put_run.1.db ≡ uploaded_db hash)
            × ((before ≡ none)
                ⊎ ((c : FileEntry) × (before ≡ some c) × (c.hash ≡ presented params.parent_hash))))

    run_refused : (e : ApiError) → gate_at ≡ err e → put_run ≡ (err e, s)
    unfolding apply_put
    run_refused e h = rw (h, apply_put)

    run_stored : gate_at ≡ ok already_stored → put_run ≡ (ok tt, s)
    unfolding apply_put
    run_stored h = rw (h, apply_put)

    run_written :
        (hash : Text) (current : Option FileEntry)
        → gate_at ≡ ok (write hash current)
        → put_run ≡ write_put path_name seal max_vault_bytes faults now params body hash current s
    unfolding apply_put
    run_written hash current h = rw (h, apply_put)

    written-Wrote :
        (hash : Text) (current : Option FileEntry)
        → Wrote params.vault_id params.path
            (uploaded params hash current now (length body))
            now
            s
            (write_put path_name seal max_vault_bytes faults now params body hash current s)
    unfolding write_put
    written-Wrote hash current = commit_or_undo-Wrote path_name faults _ _ _ now _ _ s

    -- A successful upload.
    pub apply_put_ok :
        put_run.0 ≡ ok tt → (hash : Text) × (given_hash params ≡ some hash) × PutDone hash
    apply_put_ok h = elim (Result-cases gate_at) [
      | inr (e, refused) ↦ cc (h, run_refused e refused)
      | inl (already_stored, passed) ↦
          let (hash, max_size, _, given, _, _, _, gated) =
            put_gate-Checked max_vault_bytes faults s.db user_id params (length body) _ passed in
          let (c, is_before, same, alive) = conflict_gate-stored params hash before gated in
          let unchanged = ap (λ (o : Outcome). o.1) (run_stored passed) in
          (hash, given, inl (unchanged, c, is_before, same, alive))
      | inl (write hash' current, passed) ↦
          let (hash, max_size, _, given, _, _, _, gated) =
            put_gate-Checked max_vault_bytes faults s.db user_id params (length body) _ passed in
          let (same_hash, is_before, matches) =
            conflict_gate-write params hash hash' before current gated in
          let done : put_run.1.db ≡ uploaded_db hash =
            rw (← same_hash, ← is_before)
              (rw (run_written hash' current passed) (
                Wrote-ok _ _ _ now s _ (written-Wrote hash' current)
                  (ap (λ (o : Outcome). o.0) (sym (run_written hash' current passed)) ∙ h))) in
          (hash, given, inr (done, matches))
    ]

    -- A successful upload passed its checks.
    pub apply_put_passed : put_run.0 ≡ ok tt → (gate : PutGate) × (gate_at ≡ ok gate)
    apply_put_passed h = elim (Result-cases gate_at) [
      | inr (e, refused) ↦ cc (h, run_refused e refused)
      | inl (gate, passed) ↦ (gate, passed)
    ]

    -- An upload whose bytes are there changes nothing.
    pub apply_put_stored : gate_at ≡ ok already_stored → put_run ≡ (ok tt, s)
    apply_put_stored h = run_stored h

    -- A failed upload leaves the tables as they were.
    pub apply_put_err : (e : ApiError) → put_run.0 ≡ err e → put_run.1.db ≡ s.db
    apply_put_err e h = elim (Result-cases gate_at) [
      | inr (e', refused) ↦ ap (λ (o : Outcome). o.1.db) (run_refused e' refused)
      | inl (already_stored, passed) ↦ ap (λ (o : Outcome). o.1.db) (run_stored passed)
      | inl (write hash current, passed) ↦ rw (run_written hash current passed) (
          Wrote-err _ _ _ now s _ e (written-Wrote hash current)
            (ap (λ (o : Outcome). o.0) (sym (run_written hash current passed)) ∙ h))
    ]

  module _ (vault_id path : Text) (parent_hash : Option Text) (s : Server) where
    abbrev delete_run : Outcome
    delete_run =
        apply_delete path_name seal max_vault_bytes faults now user_id vault_id path parent_hash s

    abbrev deleting : Option FileEntry
    deleting = current_entry s.db vault_id path

    -- The tables after a delete.
    abbrev pub deleted_db : Db
    deleted_db =
        bump_revision vault_id now (upsert_entry vault_id path (tombstone deleting now) s.db)

    delete_written :
        delete_checks faults s.db user_id vault_id path parent_hash ≡ ok tt
        → delete_run ≡ write_delete path_name seal max_vault_bytes faults now vault_id path s
    unfolding apply_delete
    delete_written h = rw (h, apply_delete)

    delete_refused :
        (e : ApiError)
        → delete_checks faults s.db user_id vault_id path parent_hash ≡ err e
        → delete_run ≡ (err e, s)
    unfolding apply_delete
    delete_refused e h = rw (h, apply_delete)

    delete-Wrote :
        Wrote vault_id path
          (tombstone deleting now)
          now
          s
          (write_delete path_name seal max_vault_bytes faults now vault_id path s)
    unfolding write_delete
    delete-Wrote = commit_or_undo-Wrote path_name faults _ _ _ now _ _ s

    delete_matches :
        delete_checks faults s.db user_id vault_id path parent_hash ≡ ok tt
        → (deleting ≡ none)
          ⊎ ((c : FileEntry) × (deleting ≡ some c) × (c.hash ≡ presented parent_hash))
    unfolding delete_checks
    delete_matches h = delete_gate-ok path parent_hash deleting (ground arith)

    -- A successful delete presented the hash of the entry, if there is one, and left a tombstone.
    pub apply_delete_ok :
        delete_run.0 ≡ ok tt
        → (delete_run.1.db ≡ deleted_db)
          × ((deleting ≡ none)
              ⊎ ((c : FileEntry) × (deleting ≡ some c) × (c.hash ≡ presented parent_hash)))
    apply_delete_ok h =
        elim (Result-cases (delete_checks faults s.db user_id vault_id path parent_hash)) [
          | inr (e, refused) ↦ cc (h, delete_refused e refused)
          | inl (tt, passed) ↦ (
            rw (delete_written passed) (
                Wrote-ok _ _ _ now s _ delete-Wrote
                  (ap (λ (o : Outcome). o.0) (sym (delete_written passed)) ∙ h)),
            delete_matches passed,
          )
        ]

    -- A failed delete leaves the tables as they were.
    pub apply_delete_err : (e : ApiError) → delete_run.0 ≡ err e → delete_run.1.db ≡ s.db
    apply_delete_err e h =
        elim (Result-cases (delete_checks faults s.db user_id vault_id path parent_hash)) [
          | inr (e', refused) ↦ ap (λ (o : Outcome). o.1.db) (delete_refused e' refused)
          | inl (tt, passed) ↦ rw (delete_written passed) (
              Wrote-err _ _ _ now s _ e delete-Wrote
                (ap (λ (o : Outcome). o.0) (sym (delete_written passed)) ∙ h))
        ]
