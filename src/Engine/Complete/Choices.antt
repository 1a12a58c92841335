-- ===== src/Engine/Complete/Choices.antt =====
-- A conflict without a choice is an error, and the only way to that error.
use obsink.Base.{
  ℕ, ◌≡◌, refl, ◌∙◌, Bool, true, false, ◌||◌, List, [], ◌∷◌, any, all, arith, ◌⊎◌, inl, inr,
  Bool-cases, Option-cases, is_some,
}
use obsink.Base.Ord.{◌==◌, text_ord}
use obsink.Base.Text.{Text}
use obsink.Base.BTreeMap.{Map, get, insert, get-insert}
use obsink.Base.Result.{Result, ok, err}
use obsink.Base.Io.{Io, continue, map_err}
use obsink.Types.{
  Conflict, SyncPlan, ConflictResolution, ConflictResolutionChoice, keep_local, keep_remote,
  keep_both, defer,
}
use obsink.SyncRules.{effective_choice}
use obsink.Client
use obsink.Hasher.{File, HasherError}
use obsink.Engine.{
  SyncEngineError, api, missing_resolution, Device, Platform, VaultConfig, online, write_file,
  decrypted, with_length, decrypt_and_write, delete_local_file, get_file, write,
}
use obsink.Engine.Complete.{
  Resolved, apply_keep_remote, write_conflict_copy, build_upload_action_for_path, apply_choice,
  resolve_conflict, resolve_conflicts, apply_resolutions, complete_sync, finished, collect_choices,
  upload_action,
}

-- Whether the resolutions name the path.
abbrev pub answers : List ConflictResolution → Text → Bool
answers resolutions path = any (λ (r : ConflictResolution). r.path == path) resolutions

abbrev pub all_answered : SyncPlan → List ConflictResolution → Bool
all_answered plan resolutions = all (λ (c : Conflict). answers resolutions c.path) plan.conflicts

get-collect_choices :
    (resolutions : List ConflictResolution) (choices : Map Text ConflictResolutionChoice)
    (path : Text)
    → is_some (get (collect_choices resolutions choices) path)
      ≡ (answers resolutions path || is_some (get choices path))
unfolding collect_choices
get-collect_choices [] choices path = refl
get-collect_choices (r ∷ resolutions) choices path = ground (
  arith,
  get-collect_choices resolutions (insert r.path r.choice choices) path,
  get-insert r.path path r.choice choices,
)

abbrev pub is_missing : SyncEngineError → Bool
is_missing (missing_resolution path) = true
is_missing _ = false

abbrev pub fails_missing {ℓ} : {A : Type ℓ} → Result SyncEngineError A → Bool
fails_missing (ok a) = false
fails_missing (err e) = is_missing e

abbrev pub is_ok {ℓ} : {A : Type ℓ} → Result SyncEngineError A → Bool
is_ok (ok a) = true
is_ok (err e) = false

upload_action-settles :
    (path : Text) (file : File) (hash : Result HasherError Text)
    → fails_missing (upload_action path file hash) ≡ false
upload_action-settles path file (ok h) = ground arith
upload_action-settles path file (err e) = refl

module _ {W : Type 0} (p : Platform W) where
  -- A computation that never asks for a resolution.
  abbrev pub Settles {ℓ} : {A : Type ℓ} → Io SyncEngineError (Device W) A → Type 0
  Settles m = (d : Device W) → fails_missing (m d).0 ≡ false

  pub continue-Settles {ℓ κ} :
      {A : Type ℓ} {B : Type κ} (r : Result SyncEngineError A × Device W)
      (f : A → Io SyncEngineError (Device W) B)
      → fails_missing r.0 ≡ false
      → ((a : A) → Settles (f a))
      → fails_missing (continue r f).0 ≡ false
  continue-Settles (ok a, d) f h k = k a d
  continue-Settles (err e, d) f h k = h

  pub api-settles {ℓ} :
      {A : Type ℓ} (r : Result Client.ApiError A) → fails_missing (map_err api r) ≡ false
  api-settles (ok a) = refl
  api-settles (err e) = refl

  get_file-Settles : (path : Text) → Settles (get_file p path)
  unfolding get_file online
  get_file-Settles path d = api-settles (Client.get_file p.transport path d.net).0

  write_file-Settles : (path bytes : Text) → Settles (write_file p path bytes)
  unfolding write_file
  write_file-Settles path bytes d = elim (Bool-cases (p.fails d (write path))) [
    | inl fault ↦ rw (fault, write_file) refl
    | inr fine ↦ rw (fine, write_file) refl
  ]

  with_length-settles :
      (n : ℕ) (r : Result SyncEngineError (Unit {0}) × Device W)
      → fails_missing r.0 ≡ false
      → fails_missing (with_length p n r).0 ≡ false
  with_length-settles n (ok u, d) h = refl
  with_length-settles n (err e, d) h = h

  decrypted-Settles : (r : Result Text Text) (path : Text) → Settles (decrypted p r path)
  decrypted-Settles (ok plain) path d =
      with_length-settles _ (write_file p path plain d) (write_file-Settles path plain d)
  decrypted-Settles (err e) path d = refl

  decrypt_and_write-Settles : (path blob : Text) → Settles (decrypt_and_write p path blob)
  unfolding decrypt_and_write
  decrypt_and_write-Settles path blob d = decrypted-Settles (p.decrypt blob) path d

  delete_local_file-Settles : (path : Text) → Settles (delete_local_file p path)
  unfolding delete_local_file
  delete_local_file-Settles path d = ground arith

  apply_keep_remote-Settles : (conflict : Conflict) → Settles (apply_keep_remote p conflict)
  unfolding apply_keep_remote
  apply_keep_remote-Settles conflict d = elim (Bool-cases conflict.remote.deleted) [
    | inl gone ↦
        rw (gone, apply_keep_remote)
          (continue-Settles (delete_local_file p conflict.path d) _
            (delete_local_file-Settles conflict.path d) (λ u e. refl))
    | inr there ↦
        rw (there, apply_keep_remote)
          (continue-Settles (get_file p conflict.path d) _ (get_file-Settles conflict.path d)
            (decrypt_and_write-Settles conflict.path))
  ]

  write_conflict_copy-Settles : (conflict : Conflict) → Settles (write_conflict_copy p conflict)
  unfolding write_conflict_copy
  write_conflict_copy-Settles conflict d =
      continue-Settles (get_file p conflict.path d) _ (get_file-Settles conflict.path d) λ blob e.
        continue-Settles (decrypt_and_write p _ blob e) _ (decrypt_and_write-Settles _ blob e)
          λ len e'. refl

  build_upload-Settles : (path : Text) → Settles (build_upload_action_for_path p path)
  unfolding build_upload_action_for_path
  build_upload-Settles path d = elim (Option-cases (get d.files (p.directory_entry path))) [
    | inl e ↦ rw (e, build_upload_action_for_path) refl
    | inr (file, e) ↦ rw (e, build_upload_action_for_path) (upload_action-settles path file _)
  ]

  apply_choice-Settles :
      (choice : ConflictResolutionChoice) (conflict : Conflict) (resolved : Resolved)
      → Settles (apply_choice p choice conflict resolved)
  apply_choice-Settles defer conflict resolved d = refl
  apply_choice-Settles keep_local conflict resolved d = refl
  apply_choice-Settles keep_remote conflict resolved d =
      continue-Settles (apply_keep_remote p conflict d) _ (apply_keep_remote-Settles conflict d)
        λ bytes e. refl
  apply_choice-Settles keep_both conflict resolved d =
      continue-Settles (write_conflict_copy p conflict d) _ (write_conflict_copy-Settles conflict d)
        λ path e.
          continue-Settles (build_upload_action_for_path p path e) _ (build_upload-Settles path e)
            λ copy e'. refl

  abbrev chosen : Map Text ConflictResolutionChoice → List Conflict → Bool
  chosen choices = all (λ (c : Conflict). is_some (get choices c.path))

  resolve_conflict-settles :
      (choices : Map Text ConflictResolutionChoice) (conflict : Conflict) (resolved : Resolved)
      (d : Device W)
      → is_some (get choices conflict.path) ≡ true
      → fails_missing (resolve_conflict p choices conflict resolved d).0 ≡ false
  unfolding resolve_conflict
  resolve_conflict-settles choices conflict resolved d h =
      elim (Option-cases (get choices conflict.path)) [
        | inl e ↦ absurd (ground (arith, e, h))
        | inr (choice, e) ↦
            rw (e, resolve_conflict)
              (apply_choice-Settles (effective_choice choice conflict) conflict resolved d)
      ]

  resolve_conflict-missing :
      (choices : Map Text ConflictResolutionChoice) (conflict : Conflict) (resolved : Resolved)
      (d : Device W)
      → is_some (get choices conflict.path) ≡ false
      → is_ok (resolve_conflict p choices conflict resolved d).0 ≡ false
  unfolding resolve_conflict
  resolve_conflict-missing choices conflict resolved d h =
      elim (Option-cases (get choices conflict.path)) [
        | inl e ↦ rw (e, resolve_conflict) refl
        | inr (choice, e) ↦ absurd (ground (arith, e, h))
      ]

  resolve_conflicts-Settles :
      (choices : Map Text ConflictResolutionChoice) (conflicts : List Conflict)
      (resolved : Resolved)
      → chosen choices conflicts ≡ true
      → Settles (resolve_conflicts p choices conflicts resolved)
  unfolding resolve_conflicts
  resolve_conflicts-Settles choices [] resolved h d = refl
  resolve_conflicts-Settles choices (conflict ∷ conflicts) resolved h d =
      continue-Settles (resolve_conflict p choices conflict resolved d) _
        (resolve_conflict-settles choices conflict resolved d (ground (arith, h)))
        (λ next. resolve_conflicts-Settles choices conflicts next (ground (arith, h)))

  continue-fails {ℓ κ} :
      {A : Type ℓ} {B : Type κ} (r : Result SyncEngineError A × Device W)
      (f : A → Io SyncEngineError (Device W) B)
      → (is_ok r.0 ≡ false) ⊎ ((a : A) (d : Device W) → is_ok (f a d).0 ≡ false)
      → is_ok (continue r f).0 ≡ false
  continue-fails (ok a, d) f (inl h) = absurd (ground (arith, h))
  continue-fails (ok a, d) f (inr k) = k a d
  continue-fails (err e, d) f h = refl

  resolve_conflicts-missing :
      (choices : Map Text ConflictResolutionChoice) (conflicts : List Conflict)
      (resolved : Resolved) (d : Device W)
      → chosen choices conflicts ≡ false
      → is_ok (resolve_conflicts p choices conflicts resolved d).0 ≡ false
  unfolding resolve_conflicts
  resolve_conflicts-missing choices [] resolved d h = absurd (ground (arith, h))
  resolve_conflicts-missing choices (conflict ∷ conflicts) resolved d h =
      continue-fails (resolve_conflict p choices conflict resolved d) _
        (elim (Bool-cases (is_some (get choices conflict.path))) [
          | inl here ↦
              inr λ next e.
                resolve_conflicts-missing choices conflicts next e (ground (arith, h, here))
          | inr gone ↦ inl (resolve_conflict-missing choices conflict resolved d gone)
        ])

  chosen-answers :
      (resolutions : List ConflictResolution) (conflicts : List Conflict)
      → chosen (collect_choices resolutions []) conflicts
        ≡ all (λ (c : Conflict). answers resolutions c.path) conflicts
  unfolding get
  chosen-answers resolutions [] = refl
  chosen-answers resolutions (c ∷ conflicts) =
      ground
        (arith, chosen-answers resolutions conflicts, get-collect_choices resolutions [] c.path)

  -- A sync whose resolutions leave a conflict of the plan unanswered does not succeed, and one that
  -- answers all of them never fails for want of a resolution.
  pub complete_sync_missing :
      (config : VaultConfig) (plan : SyncPlan) (resolutions : List ConflictResolution)
      (d : Device W)
      → (all_answered plan resolutions ≡ false
          → is_ok (complete_sync p config plan resolutions d).0 ≡ false)
        × (all_answered plan resolutions ≡ true
            → fails_missing (complete_sync p config plan resolutions d).0 ≡ false)
  unfolding complete_sync apply_resolutions
  complete_sync_missing config plan resolutions d =
      let same = chosen-answers resolutions plan.conflicts in
      let choices = collect_choices resolutions [] in
      (
        λ h.
            continue-fails (apply_resolutions p plan resolutions d) (finished p config plan)
              (inl (resolve_conflicts-missing choices plan.conflicts _ d (same ∙ h))),
        λ h.
            continue-Settles (apply_resolutions p plan resolutions d) (finished p config plan)
              (resolve_conflicts-Settles choices plan.conflicts _ (same ∙ h) d)
              (λ resolved e. refl),
      )
