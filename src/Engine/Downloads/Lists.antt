-- ===== src/Engine/Downloads/Lists.antt =====
-- Laws of the lists of actions and outcomes.
use obsink.Base.{
  filter, ℕ, zero, suc, ◌≡◌, refl, ◌∙◌, Bool, false, not, ◌&&◌, ◌||◌, Option, none, some, List, [],
  ◌∷◌, ◌++◌, any, all, arith, inl, inr, Option-cases,
}
use obsink.Base.Ord.{text_ord}
use obsink.Types.{
  SyncAction, SyncActionKind, SyncFailure, upload, download, delete_local, delete_remote,
}
use obsink.Engine.Downloads.{
  take_out, flatten, is_download, fetches, deletes, ordered_for_apply, is_delete_local,
}

-- The failure that is pushed.
abbrev pub pushed : (SyncFailure → Bool) → Option SyncFailure → Bool
pushed f none = false
pushed f (some failure) = f failure

pub any-flatten :
    (f : SyncFailure → Bool) (os : List (Option SyncFailure)) (o : Option SyncFailure)
    → any f (flatten (os ++ o ∷ [])) ≡ (any f (flatten os) || pushed f o)
unfolding flatten
any-flatten f [] none = refl
any-flatten f [] (some a) = ground arith
any-flatten f (none ∷ os) o = any-flatten f os o
any-flatten f (some a ∷ os) o = ground (arith, any-flatten f os o)

pub all-append {ℓ} :
    {A : Type ℓ} (f : A → Bool) (xs ys : List A) → all f (xs ++ ys) ≡ (all f xs && all f ys)
all-append f [] ys = refl
all-append f (x ∷ xs) ys = ground (arith, all-append f xs ys)

module _ {ℓ} {A : Type ℓ} (f : A → Bool) where
  pub any-take_out :
      (n : ℕ) (xs : List A) (found : A × List A)
      → take_out n xs ≡ some found
      → any f xs ≡ (f found.0 || any f found.1)
  unfolding take_out
  any-take_out n [] found h = ground (arith, h)
  any-take_out zero (x ∷ xs) found h = ground (arith, h)
  any-take_out (suc n) (x ∷ xs) found h = elim (Option-cases (take_out n xs)) [
    | inl e ↦ ground (arith, e, h)
    | inr (g, e) ↦ ground (arith, e, h, any-take_out n xs g e)
  ]

  pub all-take_out :
      (n : ℕ) (xs : List A) (found : A × List A)
      → take_out n xs ≡ some found
      → all f xs ≡ (f found.0 && all f found.1)
  unfolding take_out
  all-take_out n [] found h = ground (arith, h)
  all-take_out zero (x ∷ xs) found h = ground (arith, h)
  all-take_out (suc n) (x ∷ xs) found h = elim (Option-cases (take_out n xs)) [
    | inl e ↦ ground (arith, e, h)
    | inr (g, e) ↦ ground (arith, e, h, all-take_out n xs g e)
  ]

pub kind_of : (kind : SyncActionKind) → (is_download kind && is_delete_local kind) ≡ false
kind_of upload = refl
kind_of download = refl
kind_of delete_local = refl
kind_of delete_remote = refl

filter-append {ℓ} :
    {A : Type ℓ} (f : A → Bool) (xs ys : List A) → filter f (xs ++ ys) ≡ filter f xs ++ filter f ys
filter-append f [] ys = refl
filter-append f (x ∷ xs) ys = ground (arith, filter-append f xs ys)

fetches-deletes : (xs : List SyncAction) → fetches (deletes xs) ≡ []
unfolding fetches deletes
fetches-deletes [] = refl
fetches-deletes (a ∷ xs) = ground (arith, fetches-deletes xs)

fetches-fetches : (xs : List SyncAction) → fetches (fetches xs) ≡ fetches xs
unfolding fetches
fetches-fetches [] = refl
fetches-fetches (a ∷ xs) = ground (arith, fetches-fetches xs)

fetches_append : (xs ys : List SyncAction) → fetches (xs ++ ys) ≡ fetches xs ++ fetches ys
unfolding fetches
fetches_append xs ys = filter-append (λ (a : SyncAction). not (is_delete_local a.kind)) xs ys

-- The order of the two kinds does not change the fetches.
pub fetches-ordered : (xs : List SyncAction) → fetches (ordered_for_apply xs) ≡ fetches xs
unfolding ordered_for_apply
fetches-ordered xs =
    fetches_append (deletes xs) (fetches xs) ∙ cc (fetches-deletes xs, fetches-fetches xs)
