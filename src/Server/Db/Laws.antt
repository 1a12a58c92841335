-- ===== src/Server/Db/Laws.antt =====
-- What the statements do to the tables.
use Prim.Native.Nat.{Ordering}
use obsink.Base.{
  ℕ, ◌+◌, ◌≤◌, ◌≡◌, refl, ◌∙◌, ap, false, ◌&&◌, some, [], ◌∷◌, arith, if◌then◌else◌, All, inl, inr,
  Option-cases, Bool-cases,
}
use obsink.Base.Ord.{◌==◌, ==_iff, ==_refl, text_ord}
use obsink.Base.Text.{Text}
use obsink.Base.BTreeMap.{keys, get, insert, get-insert}
use obsink.Base.BTreeMap.Order.{IsSorted, All-≺_trans}
use obsink.Types.{FileEntry, Manifest}
use obsink.Server.Db.{
  VaultRow, Db, stored, rows, current_entry, stored_entry, upsert_entry, bump_revision, lock_vault,
  live_bytes, used_elsewhere,
}

module _ (db : Db) (vault_id path : Text) (entry : FileEntry) where
  pub rows-upsert_entry :
      (v : Text)
      → rows (upsert_entry vault_id path entry db) v
        ≡ (if vault_id == v then insert path (stored_entry entry) (rows db vault_id) else rows db v)
  unfolding rows upsert_entry
  rows-upsert_entry v = rw get-insert (ground arith)

  pub current_entry-upsert_entry :
      (v p : Text)
      → current_entry (upsert_entry vault_id path entry db) v p
        ≡ (if vault_id == v && path == p then some (stored_entry entry) else current_entry db v p)
  unfolding current_entry
  current_entry-upsert_entry v p =
      ap (λ (m : Manifest). get m p) (rows-upsert_entry v)
      ∙ ground (arith, ==_iff vault_id v, get-insert path p (stored_entry entry) (rows db vault_id))

module _ (vault_id : Text) (now : ℕ) (db : Db) where
  pub rows-bump_revision : (v : Text) → rows (bump_revision vault_id now db) v ≡ rows db v
  unfolding rows bump_revision
  rows-bump_revision v = ground arith

  pub current_entry-bump_revision :
      (v p : Text) → current_entry (bump_revision vault_id now db) v p ≡ current_entry db v p
  unfolding current_entry
  current_entry-bump_revision v p = ap (λ (m : Manifest). get m p) (rows-bump_revision v)

  pub members-bump_revision : (bump_revision vault_id now db).members ≡ db.members
  unfolding bump_revision
  members-bump_revision = ground arith

-- A lookup of the row after the bump.
abbrev pub bumped : ℕ → VaultRow → VaultRow
bumped now row = record row { revision = row.revision + 1; last_write = stored now }

pub vaults-bump_revision :
    (vault_id : Text) (now : ℕ) (db : Db) (row : VaultRow) (v : Text)
    → get db.vaults vault_id ≡ some row
    → get (bump_revision vault_id now db).vaults v
      ≡ (if vault_id == v then some (bumped now row) else get db.vaults v)
unfolding bump_revision
vaults-bump_revision vault_id now db row v e = rw (e, bump_revision, get-insert)

used_above :
    (path : Text) (m : Manifest)
    → All (λ j. text_ord.cmp path j ≡ Ordering.lt) (keys m)
    → used_elsewhere path m ≡ live_bytes m
unfolding keys used_elsewhere live_bytes
used_above path [] h = refl
used_above path ((p, e) ∷ m) h =
    ground (arith, used_above path m h.1, ==_iff p path, text_ord.cmp_refl path)

pub used_elsewhere-insert :
    (path : Text) (e : FileEntry) (m : Manifest)
    → used_elsewhere path (insert path e m) ≡ used_elsewhere path m
unfolding used_elsewhere insert
used_elsewhere-insert path e [] = ground (arith, ==_refl path)
used_elsewhere-insert path e ((p, f) ∷ m) =
    ground (
      arith,
      used_elsewhere-insert path e m,
      ==_refl path,
      ==_iff p path,
      text_ord.eq_of_cmp path p,
    )

-- The live bytes after a write: the others' and the new entry's.
pub live_bytes-insert :
    (path : Text) (e : FileEntry) (m : Manifest)
    → IsSorted (keys m)
    → live_bytes (insert path e m) ≡ (if e.deleted then 0 else e.size) + used_elsewhere path m
unfolding keys live_bytes used_elsewhere insert
live_bytes-insert path e [] s = refl
live_bytes-insert path e ((p, f) ∷ m) s = ground (
  arith,
  live_bytes-insert path e m s.1,
  used_above path m,
  All-≺_trans path p (keys m),
  ==_iff p path,
  text_ord.cmp_refl path,
  text_ord.eq_of_cmp path p,
  text_ord.cmp_reverse path p,
  s.0,
)

pub used_elsewhere-le : (path : Text) (m : Manifest) → used_elsewhere path m ≤ live_bytes m
unfolding live_bytes used_elsewhere
used_elsewhere-le path [] = omega arith
used_elsewhere-le path ((p, e) ∷ m) = ground (arith, used_elsewhere-le path m)

-- The tables after a write: the entry, then the revision.
abbrev pub written : Text → Text → FileEntry → ℕ → Db → Db
written vault_id path entry now db =
    bump_revision vault_id now (upsert_entry vault_id path entry db)

module _ (vault_id path : Text) (entry : FileEntry) (now : ℕ) (db : Db) where
  pub rows-written :
      (v : Text)
      → rows (written vault_id path entry now db) v
        ≡ (if vault_id == v then insert path (stored_entry entry) (rows db vault_id) else rows db v)
  rows-written v =
      rows-bump_revision vault_id now (upsert_entry vault_id path entry db) v
      ∙ rows-upsert_entry db vault_id path entry v

  pub current_entry-written :
      (v p : Text)
      → current_entry (written vault_id path entry now db) v p
        ≡ (if vault_id == v && path == p then some (stored_entry entry) else current_entry db v p)
  current_entry-written v p =
      current_entry-bump_revision vault_id now (upsert_entry vault_id path entry db) v p
      ∙ current_entry-upsert_entry db vault_id path entry v p

  -- A write changes no membership and no size limit.
  pub lock_vault-written :
      (v user_id : Text)
      → lock_vault (written vault_id path entry now db) v user_id ≡ lock_vault db v user_id
  unfolding lock_vault bump_revision upsert_entry
  lock_vault-written v user_id = elim (Option-cases (get db.vaults vault_id)) [
    | inl absent ↦ ground (arith, absent)
    | inr (row, present) ↦
        ground (arith, present, get-insert vault_id v (bumped now row) db.vaults, ==_iff vault_id v)
  ]

  vaults-written_ne :
      (v : Text)
      → (vault_id == v) ≡ false
      → get (written vault_id path entry now db).vaults v ≡ get db.vaults v
  unfolding bump_revision upsert_entry
  vaults-written_ne v other = elim (Option-cases (get db.vaults vault_id)) [
    | inl absent ↦ rw (absent, bump_revision)
    | inr (row, present) ↦ rw (present, bump_revision, get-insert, other)
  ]

  -- A vault that was not written keeps its row and its files, the one that was has a new revision.
  pub revision-written :
      (v : Text) (row : VaultRow)
      → get db.vaults v ≡ some row
      → (row' : VaultRow) × (get (written vault_id path entry now db).vaults v ≡ some row')
        × (row.revision ≤ row'.revision)
        × (row'.revision ≡ row.revision → rows (written vault_id path entry now db) v ≡ rows db v)
  revision-written v row e = elim (Bool-cases (vault_id == v)) [
    | inl same ↦
        let here : get db.vaults vault_id ≡ some row = rw ((==_iff vault_id v).0 same) e in
        (
          bumped now row,
          vaults-bump_revision vault_id now (upsert_entry vault_id path entry db) row v
                (unfold upsert_entry in here)
              ∙ rw same,
          omega arith,
          λ r. absurd (omega arith),
        )
    | inr other ↦ (row, vaults-written_ne v other ∙ e, omega arith, λ _. rows-written v ∙ rw other)
  ]
