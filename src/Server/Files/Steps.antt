-- ===== src/Server/Files/Steps.antt =====
-- The server as a transition system: any sequence of uploads and deletes, by any account, at any
-- time and with any faults below them.
use obsink.Base.{
  ℕ, ◌^◌, ◌≤◌, ◌<◌, ◌≡◌, refl, ◌∙◌, ap, true, ◌⊎◌, inl, inr, Option, some, length, leb→le, arith,
  Bool-cases,
}
use obsink.Base.Ord.{◌==◌, ==_iff, text_ord}
use obsink.Base.Text.{Text}
use obsink.Base.BTreeMap.{get, insert, keys}
use obsink.Base.BTreeMap.Order.{IsSorted, insert-IsSorted}
use obsink.Base.Result.{ok, Result-cases}
use obsink.Types.{FileEntry, Manifest}
use obsink.SyncRules.{add_u64}
use obsink.Server.Blobs.{Bytes, Faults}
use obsink.Server.Db.{VaultRow, Db, rows, current_entry, stored_entry, live_bytes, used_elsewhere}
use obsink.Server.Db.Laws.{
  written, rows-written, revision-written, live_bytes-insert, used_elsewhere-le,
}
use obsink.Server.Files.{Server, PutParams, apply_put, apply_delete, uploaded, tombstone}
use obsink.Server.Files.Gate.{put_gate-Checked}
use obsink.Server.Files.Writes.{
  apply_put_ok, apply_put_err, apply_put_passed, apply_delete_ok, apply_delete_err,
}

module _ (path_name : Text → Text) (seal : Text → Text → Bytes → Bytes) (max_vault_bytes : ℕ) where
  -- A body has at most `isize::MAX` bytes, as every slice.
  pub data Step (s : Server) : Server → Type 0 where
    put :
        (faults : Faults) (now : ℕ) (user_id : Text) (params : PutParams) (body : Bytes)
        → length body < 2 ^ 63
        → Step s (apply_put path_name seal max_vault_bytes faults now user_id params body s).1
    delete :
        (faults : Faults) (now : ℕ) (user_id vault_id path : Text) (parent_hash : Option Text)
        → Step s
            (apply_delete path_name seal max_vault_bytes faults now user_id vault_id path
              parent_hash s).1

  pub data Reach (s : Server) : Server → Type 0 where
    here : Reach s s
    next : {t u : Server} → Reach s t → Step t u → Reach s u

  -- What a step does to the tables: nothing, or one write within the byte budget.
  data Change (s t : Server) : Type 0 where
    same : t.db ≡ s.db → Change s t
    wrote :
        (vault_id path : Text) (entry : FileEntry) (now : ℕ)
        → t.db ≡ written vault_id path entry now s.db
        → (entry.deleted ≡ true)
          ⊎ ((entry.size < 2 ^ 63)
              × (add_u64 (used_elsewhere path (rows s.db vault_id)) entry.size ≤ max_vault_bytes))
        → Change s t

  put-Change :
      (faults : Faults) (now : ℕ) (user_id : Text) (params : PutParams) (body : Bytes) (s : Server)
      → length body < 2 ^ 63
      → (apply_put path_name seal max_vault_bytes faults now user_id params body s).0 ≡ ok tt
      → Change s (apply_put path_name seal max_vault_bytes faults now user_id params body s).1
  put-Change faults now user_id params body s small done =
      let (gate, passed) =
        apply_put_passed path_name seal max_vault_bytes faults now user_id params body s done in
      let (_, _, _, _, _, _, budget, _) =
        put_gate-Checked max_vault_bytes faults s.db user_id params (length body) gate passed in
      let (hash, given, how) =
        apply_put_ok path_name seal max_vault_bytes faults now user_id params body s done in
      elim how [
        | inl (unchanged, _, _, _, _) ↦ same (ap (λ (t : Server). t.db) unchanged)
        | inr (wrote_it, _) ↦
            wrote params.vault_id params.path
              (uploaded params hash (current_entry s.db params.vault_id params.path) now
                (length body))
              now wrote_it (unfold uploaded in inr (small, leb→le _ _ budget))
      ]

  Step-Change : {s t : Server} → Step s t → Change s t
  Step-Change {s} (put faults now user_id params body small) =
      let run = apply_put path_name seal max_vault_bytes faults now user_id params body s in
      elim (Result-cases run.0) [
        | inr (e, failed) ↦
            same (
              apply_put_err path_name seal max_vault_bytes faults now user_id params body s e
                failed)
        | inl (tt, done) ↦ put-Change faults now user_id params body s small done
      ]
  Step-Change {s} (delete faults now user_id vault_id path parent_hash) =
      let run =
        apply_delete path_name seal max_vault_bytes faults now user_id vault_id path parent_hash
          s in
      elim (Result-cases run.0) [
        | inr (e, failed) ↦ same (
            apply_delete_err path_name seal max_vault_bytes faults now user_id vault_id path
              parent_hash s e failed)
        | inl (tt, done) ↦
            let (wrote_it, _) =
              apply_delete_ok path_name seal max_vault_bytes faults now user_id vault_id path
                parent_hash s done in
            wrote vault_id path (tombstone (current_entry s.db vault_id path) now) now wrote_it
              (inl (unfold tombstone in refl))
      ]

  Change-revision :
      {s t : Server} (v : Text) (row : VaultRow)
      → Change s t
      → get s.db.vaults v ≡ some row
      → (row' : VaultRow) × (get t.db.vaults v ≡ some row')
        × (row.revision ≤ row'.revision)
        × (row'.revision ≡ row.revision → rows t.db v ≡ rows s.db v)
  Change-revision v row (same e) found = (
    row,
    ap (λ (d : Db). get d.vaults v) e ∙ found,
    omega arith,
    λ _. ap (λ (d : Db). rows d v) e,
  )
  Change-revision {s} v row (wrote vault_id path entry now e _) found =
      let (row', found', le, kept) = revision-written vault_id path entry now s.db v row found in
      (
        row',
        ap (λ (d : Db). get d.vaults v) e ∙ found',
        le,
        λ r. ap (λ (d : Db). rows d v) e ∙ kept r,
      )

  -- Over any sequence of uploads and deletes a vault's revision never falls, and while it stays the
  -- rows of the vault stay.
  pub equal_revision :
      {s t : Server} (v : Text) (row : VaultRow)
      → Reach s t
      → get s.db.vaults v ≡ some row
      → (row' : VaultRow) × (get t.db.vaults v ≡ some row')
        × (row.revision ≤ row'.revision)
        × (row'.revision ≡ row.revision → rows t.db v ≡ rows s.db v)
  equal_revision v row here e = (row, e, omega arith, λ _. refl)
  equal_revision {s} v row (next {t = mid} {u = t} reached step) e =
      let (row1, found, le, kept) = equal_revision v row reached e in
      let (row2, found2, le2, kept2) = Change-revision v row1 (Step-Change step) found in
      (row2, found2, omega arith, λ r. kept2 (omega arith) ∙ kept (omega arith))

  -- The rows of a vault are in key order and within the byte budget.
  pub record IsWithin (v : Text) (s : Server) : Type 0 where
    pub sorted : IsSorted (keys (rows s.db v))
    pub budget : live_bytes (rows s.db v) ≤ max_vault_bytes

  live_bytes-fits :
      (path : Text) (entry : FileEntry) (m : Manifest)
      → max_vault_bytes < 2 ^ 63
      → IsSorted (keys m)
      → live_bytes m ≤ max_vault_bytes
      → (entry.deleted ≡ true)
        ⊎ ((entry.size < 2 ^ 63) × (add_u64 (used_elsewhere path m) entry.size ≤ max_vault_bytes))
      → live_bytes (insert path (stored_entry entry) m) ≤ max_vault_bytes
  live_bytes-fits path entry m bound sorted budget fits =
      rw (live_bytes-insert path (stored_entry entry) m sorted)
        (ground (arith, used_elsewhere-le path m, fits))

  Change-IsWithin :
      {s t : Server} (v : Text)
      → max_vault_bytes < 2 ^ 63
      → Change s t
      → IsWithin v s
      → IsWithin v t
  Change-IsWithin v bound (same e) w =
      let kept = ap (λ (d : Db). rows d v) e in
      record { sorted = rw kept w.sorted; budget = rw kept w.budget }
  Change-IsWithin {s} {t} v bound (wrote vault_id path entry now e fits) w =
      let after = ap (λ (d : Db). rows d v) e ∙ rows-written vault_id path entry now s.db v in
      elim (Bool-cases (vault_id == v)) [
        | inr other ↦
            let kept = after ∙ rw other in
            record { sorted = rw kept w.sorted; budget = rw kept w.budget }
        | inl at_v ↦
            let is_v : vault_id ≡ v = (==_iff vault_id v).0 at_v in
            let kept : rows t.db v ≡ insert path (stored_entry entry) (rows s.db v) =
              after ∙ rw (at_v, is_v) in
            record {
              sorted = rw kept (insert-IsSorted path (stored_entry entry) (rows s.db v) w.sorted);
              budget = rw kept (
                  live_bytes-fits path entry (rows s.db v) bound w.sorted w.budget
                    (rw is_v at fits));
            }
      ]

  -- No sequence of requests takes a vault past its byte budget, provided that the budget is below 2
  -- ^ 63, the rows start within it and in key order, and bodies have fewer than 2 ^ 63 bytes.
  pub Reach-IsWithin :
      {s t : Server} (v : Text) → max_vault_bytes < 2 ^ 63 → Reach s t → IsWithin v s → IsWithin v t
  Reach-IsWithin v bound here w = w
  Reach-IsWithin v bound (next reached step) w =
      Change-IsWithin v bound (Step-Change step) (Reach-IsWithin v bound reached w)
