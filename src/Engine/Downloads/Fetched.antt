-- ===== src/Engine/Downloads/Fetched.antt =====
-- What one fetch leaves on the volume.
use obsink.Base.{
  ℕ, ◌≡◌, refl, sym, ◌∙◌, ap, subst, Bool, true, false, not, ◌&&◌, ◌||◌, Option, none, some, List,
  any, all, arith, inl, inr, Bool-cases, length,
}
use obsink.Base.Ord.{◌==◌, ==_refl, text_ord}
use obsink.Base.Text.{Text}
use obsink.Base.BTreeMap.{get, insert, get-insert}
use obsink.Base.Result.{Result, ok, err}
use obsink.Base.Io.{continue, map_err}
use obsink.Types.{SyncAction}
use obsink.Client
use obsink.Hasher.{File}
use obsink.Engine.{
  api, io, Platform, Device, write_file, decrypt_and_write, get_file, online, decrypted,
  with_length, new_file, write,
}
use obsink.Engine.Downloads.{fetch_file, is_download}

module _ {W : Type 0} (p : Platform W) (path bytes : Text) (d : Device W) where
  write_file-fault : p.fails d (write path) ≡ true → write_file p path bytes d ≡ (err (io path), d)
  unfolding write_file
  write_file-fault e = rw e refl

  write_file-fine :
      p.fails d (write path) ≡ false
      → write_file p path bytes d ≡ (
        ok tt,
        record d { files = insert (p.directory_entry path) (new_file p d.net bytes) d.files },
      )
  unfolding write_file
  write_file-fine e = rw e refl

module _ {W : Type 0} (p : Platform W) (q contents : Text) where
  -- Whether the volume has the contents at the path.
  abbrev holds : Option File → Bool
  holds none = false
  holds (some file) = file.bytes == contents

  abbrev pub landed : Device W → Bool
  landed d = holds (get d.files (p.directory_entry q))

  -- Whether a fetch of the path is among the actions.
  abbrev pub wanted : List SyncAction → Bool
  wanted = any (λ (a : SyncAction). a.path == q && is_download a.kind)

  -- Whether no other path of the actions has the same directory entry.
  abbrev pub is_clear : List SyncAction → Bool
  is_clear =
      all (λ (a : SyncAction). not (p.directory_entry a.path == p.directory_entry q) || a.path == q)

  -- What the server answers for the path decrypts to the contents, if it does at all.
  abbrev pub Serves : Type 0
  Serves =
      (w : W) (blob plain : Text)
      → (Client.get_file p.transport q w).0 ≡ ok blob
      → p.decrypt blob ≡ ok plain
      → plain ≡ contents

  -- A write of the contents at the path succeeds only if they are there.
  landed-decrypted :
      (r : Result Text Text) (path : Text) (d : Device W) (len : ℕ)
      → path ≡ q
      → ((plain : Text) → r ≡ ok plain → plain ≡ contents)
      → (decrypted p r path d).0 ≡ ok len
      → landed (decrypted p r path d).1 ≡ true
  landed-decrypted (err e) path d len same fits h = absurd (ground (arith, h))
  landed-decrypted (ok plain) path d len same fits h = elim (Bool-cases (p.fails d (write path))) [
    | inl fault ↦
        let bad : err (io path) ≡ ok len =
          subst (λ r. (with_length p (length plain) r).0 ≡ ok len)
            (write_file-fault p path plain d fault) h in
        absurd (ground (arith, bad))
    | inr fine ↦
        subst (λ r. landed (with_length p (length plain) r).1 ≡ true)
          (sym (write_file-fine p path plain d fine))
          (rw (same, get-insert, ==_refl (p.directory_entry q))
            (rw (fits plain refl) (==_refl contents)))
  ]

  -- A write at another directory entry leaves the path alone.
  landed-other :
      (r : Result Text Text) (path : Text) (d : Device W)
      → (p.directory_entry path == p.directory_entry q) ≡ false
      → landed (decrypted p r path d).1 ≡ landed d
  landed-other (err e) path d other = refl
  landed-other (ok plain) path d other = elim (Bool-cases (p.fails d (write path))) [
    | inl fault ↦
        ap (λ r. landed (with_length p (length plain) r).1) (write_file-fault p path plain d fault)
    | inr fine ↦
        ap (λ r. landed (with_length p (length plain) r).1) (write_file-fine p path plain d fine)
        ∙ ap holds
            (get-insert (p.directory_entry path) (p.directory_entry q) _ d.files ∙ rw other refl)
  ]

  -- An answer that is fetched and written for the path.
  landed-got :
      (r : Result Client.ApiError Text) (path : Text) (d : Device W) (len : ℕ)
      → path ≡ q
      → ((blob plain : Text) → r ≡ ok blob → p.decrypt blob ≡ ok plain → plain ≡ contents)
      → (continue (map_err api r, d) (decrypt_and_write p path)).0 ≡ ok len
      → landed (continue (map_err api r, d) (decrypt_and_write p path)).1 ≡ true
  unfolding decrypt_and_write
  landed-got (ok blob) path d len same fits h =
      landed-decrypted (p.decrypt blob) path d len same (λ plain e. fits blob plain refl e) h
  landed-got (err e) path d len same fits h = absurd (ground (arith, h))

  landed-got_other :
      (r : Result Client.ApiError Text) (path : Text) (d : Device W)
      → (p.directory_entry path == p.directory_entry q) ≡ false
      → landed (continue (map_err api r, d) (decrypt_and_write p path)).1 ≡ landed d
  unfolding decrypt_and_write
  landed-got_other (ok blob) path d other = landed-other (p.decrypt blob) path d other
  landed-got_other (err e) path d other = refl

  -- A fetch of the path succeeds only if the contents are there.
  pub landed-fetch :
      (action : SyncAction) (d : Device W) (len : ℕ)
      → Serves
      → action.path ≡ q
      → (fetch_file p action d).0 ≡ ok len
      → landed (fetch_file p action d).1 ≡ true
  unfolding fetch_file get_file online
  landed-fetch action d len serves same h =
      let got = Client.get_file p.transport action.path d.net in
      landed-got got.0 action.path (record d { net = got.1 }) len same
        (λ blob plain e.
          serves d.net blob plain
            (sym (ap (λ path. (Client.get_file p.transport path d.net).0) same) ∙ e))
        h

  pub landed-fetch_other :
      (action : SyncAction) (d : Device W)
      → (p.directory_entry action.path == p.directory_entry q) ≡ false
      → landed (fetch_file p action d).1 ≡ landed d
  unfolding fetch_file get_file online
  landed-fetch_other action d other =
      let got = Client.get_file p.transport action.path d.net in
      landed-got_other got.0 action.path (record d { net = got.1 }) other
