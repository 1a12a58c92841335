-- ===== src/Tests/Server.antt =====
-- The theorems on the server's writes, at concrete requests.
use obsink.Base.{◌≡◌, ◌≢◌, refl, ◌∙◌, true, false, none, some, [], ◌∷◌, arith}
use obsink.Base.Ord.{◌==◌, ==_iff, text_ord, path_ord}
use obsink.Base.Text.{Text, text, trim}
use obsink.Base.BTreeMap.{get, keys}
use obsink.Base.Result.{ok, err}
use obsink.Types.{FileEntry}
use obsink.Server.Error.{ApiError}
use obsink.Server.Blobs
use obsink.Server.Blobs.{
  Bytes, Faults, no_faults, Tier, versions, BlobUndo, live_path, history_path, history_name,
  entry_name, history_order, replace_live, trash_live, undo, valid_path, valid_vault_id,
}
use obsink.Server.Blobs.Names.{history_order-entry_name, history_name_free}
use obsink.Server.Blobs.Undo.{SameFiles, OthersKept, undo-replace_live, undo-trash_live}
use obsink.Server.Db.{is_exhausted, Db, rows, current_entry, used_elsewhere, lock_vault, live_bytes}
use obsink.Server.Files.{Server, Outcome, PutParams, put_gate, conflict_gate, given_hash, apply_put}
use obsink.Server.Files.Races.{stale_put_fails, one_of_two_wins}
use obsink.Server.Files.Retry.{put_again}
use obsink.Server.Files.Steps
use obsink.Server.Files.Reads.{get_manifest}
use obsink.Server.Files.Reads.Fresh.{not_modified_current}
use obsink.Server.Files.Steps.{Reach, here, next, IsWithin, Reach-IsWithin}

-- Names that show the path.
abbrev pub plain_name : Text → Text
plain_name path = path

abbrev pub plain_seal : Text → Text → Bytes → Bytes
plain_seal vault_id path body = body

abbrev pub vault : Text
vault = text "vault_00000000-0000-4000-8000-000000000000"

abbrev pub note : Text
note = text "note"

abbrev old : FileEntry
old = record { hash = text "h1"; modified = 1; size = 2; deleted = false; enc_path = text "e" }

abbrev db : Db
db = record {
  vaults = (vault, record { max_file_size = 100; revision = 3; last_write = 1 }) ∷ [];
  members = (vault, (text "user", text "owner") ∷ []) ∷ [];
  files = (vault, (note, old) ∷ []) ∷ [];
}

abbrev pub server : Server
server = record { db = db; blobs = (live_path plain_name vault note, 1 ∷ 2 ∷ []) ∷ [] }

abbrev request : Text → Text → PutParams
request parent hash = record {
  vault_id = vault;
  path = note;
  parent_hash = some parent;
  content_hash = some hash;
  enc_path = none;
}

abbrev edit : PutParams
edit = request (text "h1") (text "h2")

abbrev late : PutParams
late = request (text "h1") (text "h3")

abbrev other : PutParams
other = request (text "h0") (text "h3")

abbrev first : Faults → Server → PutParams → Outcome
first faults s params =
    apply_put plain_name plain_seal 1000 faults 9 (text "user") params (7 ∷ []) s

-- Texts that the comparison tells apart.
apart : (a b : Text) → (a == b) ≡ false → a ≢ b
apart a b h e = cc (h, (==_iff a b).1 e)

given_apart :
    (p : PutParams) (a b : Text) → given_hash p ≡ some a → (a == b) ≡ false → given_hash p ≢ some b
given_apart p a b g h e = apart a b h (cc (g, e))

edit_hash : given_hash edit ≡ some (text "h2")
unfolding trim
edit_hash = refl

other_hash : given_hash other ≡ some (text "h3")
unfolding trim
other_hash = refl

late_hash : given_hash late ≡ some (text "h3")
unfolding trim
late_hash = refl

edit_done : (first no_faults server edit).0 ≡ ok tt
unfolding apply_put is_exhausted put_gate conflict_gate valid_path trim lock_vault valid_vault_id
    get text_ord used_elsewhere rows current_entry replace_live path_ord
edit_done = refl

stale_put_fails_example :
    (e : ApiError) × ((first no_faults server other).0 ≡ err e)
    × ((first no_faults server other).1.db ≡ server.db)
unfolding current_entry rows get text_ord
stale_put_fails_example =
    stale_put_fails plain_name plain_seal 1000 no_faults 9 (text "user") other (7 ∷ []) server old
      refl (apart (text "h1") (text "h0") refl)
      (given_apart other (text "h3") (text "h1") other_hash refl)

one_of_two_wins_example :
    (e : ApiError) × ((first no_faults (first no_faults server edit).1 late).0 ≡ err e)
    × ((first no_faults (first no_faults server edit).1 late).1.db
        ≡ (first no_faults server edit).1.db)
unfolding text_ord
one_of_two_wins_example =
    one_of_two_wins plain_name plain_seal 1000 no_faults no_faults 9 9 (text "user") (text "user")
      edit late (7 ∷ []) (7 ∷ []) server refl refl
      (λ e. given_apart late (text "h3") (text "h2") late_hash refl (e ∙ edit_hash))
      (given_apart edit (text "h2") (text "h1") edit_hash refl) edit_done

put_again_example :
    first no_faults (first no_faults server edit).1 edit ≡ (ok tt, (first no_faults server edit).1)
unfolding text_ord
put_again_example =
    put_again plain_name plain_seal 1000 no_faults no_faults 9 9 (text "user") edit (7 ∷ []) server
      edit_done (given_apart edit (text "h2") (text "h1") edit_hash refl) (refl, refl, refl, refl)

abbrev after_edit : Server
after_edit = (first no_faults server edit).1

reached : Reach plain_name plain_seal 1000 server after_edit
reached = next here (Steps.put no_faults 9 (text "user") edit (7 ∷ []) (omega arith))

abbrev after_refusal : Server
after_refusal = (first no_faults server other).1

not_modified_current_example : rows after_refusal.db vault ≡ (note, old) ∷ []
unfolding get_manifest valid_vault_id get text_ord apply_put is_exhausted valid_path lock_vault
    used_elsewhere current_entry
not_modified_current_example =
    not_modified_current plain_name plain_seal 1000 {s = server} {t = after_refusal} vault
      (text "user") (text "user") none (text "\"3\"") (text "\"3\"") ((note, old) ∷ [])
      (next here (Steps.put no_faults 9 (text "user") other (7 ∷ []) (omega arith))) refl refl

Reach-IsWithin_example : IsWithin plain_name plain_seal 1000 vault after_edit
unfolding rows live_bytes get keys text_ord
Reach-IsWithin_example =
    Reach-IsWithin plain_name plain_seal 1000 vault (omega arith) reached
      (record { sorted = (tt, tt); budget = omega arith })

history_order_example : history_order (entry_name 17 2) ≡ (17, 2)
history_order_example = history_order-entry_name 17 2 (omega arith) (omega arith)

history_name_free_example :
    get server.blobs (
      history_path plain_name versions vault note
        (history_name plain_name versions vault note 9 server.blobs))
    ≡ none
history_name_free_example = history_name_free plain_name versions vault note 9 server.blobs

abbrev commit_lost : Faults
commit_lost = record no_faults { commit_fails = true }

undo_replace_example :
    (t : BlobUndo) × (after : Blobs.Files) × (replace_live plain_name commit_lost vault note
        (7 ∷ [])
        true
        9
        server.blobs
      ≡ (ok t, after))
    × (get after (live_path plain_name vault note) ≡ some (7 ∷ []))
    × OthersKept plain_name commit_lost vault note 9 server.blobs after
    × SameFiles (undo plain_name commit_lost t after) server.blobs
unfolding get path_ord
undo_replace_example =
    undo-replace_live plain_name commit_lost vault note 9 server.blobs (7 ∷ []) true
      (refl, refl, refl, refl) refl

undo_trash_example :
    (t : BlobUndo) × (after : Blobs.Files) × (trash_live plain_name commit_lost vault note 9
        server.blobs
      ≡ (ok t, after))
    × (get after (live_path plain_name vault note) ≡ none)
    × OthersKept plain_name commit_lost vault note 9 server.blobs after
    × SameFiles (undo plain_name commit_lost t after) server.blobs
undo_trash_example =
    undo-trash_live plain_name commit_lost vault note 9 server.blobs (refl, refl, refl, refl)
