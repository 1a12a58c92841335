-- ===== src/Base/BTreeMap.antt =====
-- Rust's `BTreeMap` and `BTreeSet` as association lists in key order: iteration is by ascending key.
-- The laws of `get` need no invariant; equality of maps needs the order.
pub mod Order
use Prim.Native.Nat.{Ordering, ◌≤◌, ◌<◌}
use mathlib.Core.Path.{◌≡◌, refl}
use mathlib.Core.Bool.{Bool, true, false, ◌||◌}
use mathlib.Core.Option.{Option, none, some}
use mathlib.Core.List.{List, [], ◌∷◌, ◌++◌}
use native.Mathlib.Omega.{arith}
use obsink.Base.Tests.{if◌then◌else◌, is_some, map_option}
use obsink.Base.Lists.{length}
use obsink.Base.Ord.{Ord, ◌==◌, ==_iff}

abbrev pub Map {ℓ κ} : Type ℓ → Type κ → Type (ℓ ⊔ κ)
Map K V = List (K × V)

unfoldable pub keys {ℓ κ} : {K : Type ℓ} {V : Type κ} → Map K V → List K
keys [] = []
keys ((k, _) ∷ m) = k ∷ keys m

module _ {ℓ κ} {K : Type ℓ} {V : Type κ} ⦃o : Ord K⦄ where
  unfoldable pub get : Map K V → K → Option V
  get [] k = none
  get ((j, v) ∷ m) k = if j == k then some v else get m k

  unfoldable pub insert : K → V → Map K V → Map K V
  insert k v [] = (k, v) ∷ []
  insert k v ((j, w) ∷ m) =
      let rest = insert k v m in
      elim (o.cmp k j) [
        | Ordering.lt ↦ (k, v) ∷ (j, w) ∷ m
        | Ordering.eq ↦ (k, v) ∷ m
        | Ordering.gt ↦ (j, w) ∷ rest
      ]

  unfoldable pub remove : K → Map K V → Map K V
  remove k [] = []
  remove k ((j, w) ∷ m) = let rest = remove k m in if j == k then rest else (j, w) ∷ rest

  pub get-insert :
      (k j : K) (v : V) (m : Map K V) → get (insert k v m) j ≡ (if k == j then some v else get m j)
  unfolding get insert
  get-insert k j v [] = ground arith
  get-insert k j v ((i, w) ∷ m) =
      ground (arith, get-insert k j v m, ==_iff k j, ==_iff i j, ==_iff k i, o.cmp_reverse k i)

  pub get-remove : (k j : K) (m : Map K V) → get (remove k m) j ≡ (if k == j then none else get m j)
  unfolding get remove
  get-remove k j [] = ground arith
  get-remove k j ((i, w) ∷ m) = ground (arith, get-remove k j m, ==_iff i k, ==_iff i j, ==_iff k j)

  length-remove_le : (k : K) (m : Map K V) → length (remove k m) ≤ length m
  unfolding remove
  length-remove_le k [] = omega arith
  length-remove_le k ((i, w) ∷ m) = ground (arith, length-remove_le k m)

  pub length-remove_lt :
      (k : K) (m : Map K V) → is_some (get m k) ≡ true → length (remove k m) < length m
  unfolding get remove
  length-remove_lt k [] h = cc
  length-remove_lt k ((i, w) ∷ m) h = ground (arith, length-remove_lt k m, length-remove_le k m)

  -- Every value changed, under its key.
  unfoldable pub map_values : (V → V) → Map K V → Map K V
  map_values f [] = []
  map_values f ((j, w) ∷ m) = (j, f w) ∷ map_values f m

  pub get-map_values :
      (f : V → V) (m : Map K V) (k : K) → get (map_values f m) k ≡ map_option f (get m k)
  unfolding get map_values
  get-map_values f [] k = refl
  get-map_values f ((j, w) ∷ m) k = ground (arith, get-map_values f m k)

module _ {ℓ} {K : Type ℓ} ⦃o : Ord K⦄ where
  -- `BTreeSet::contains`.
  unfoldable pub contains : List K → K → Bool
  contains [] k = false
  contains (j ∷ s) k = j == k || contains s k

  -- `BTreeSet::insert`.
  unfoldable pub insert_key : K → List K → List K
  insert_key k [] = k ∷ []
  insert_key k (j ∷ s) =
      let rest = insert_key k s in
      elim (o.cmp k j) [ Ordering.lt ↦ k ∷ j ∷ s | Ordering.eq ↦ k ∷ s | Ordering.gt ↦ j ∷ rest ]

  -- `collect::<BTreeSet<_>>()`.
  unfoldable pub key_set : List K → List K
  unfolding insert_key
  key_set [] = []
  key_set (k ∷ ks) = insert_key k (key_set ks)

  pub contains-insert_key :
      (k j : K) (s : List K) → contains (insert_key k s) j ≡ (k == j || contains s j)
  unfolding contains insert_key
  contains-insert_key k j [] = refl
  contains-insert_key k j (i ∷ s) =
      ground (arith, contains-insert_key k j s, ==_iff k j, ==_iff i j, ==_iff k i)

  pub contains-key_set : (ks : List K) (j : K) → contains (key_set ks) j ≡ contains ks j
  unfolding key_set contains
  contains-key_set [] j = refl
  contains-key_set (k ∷ ks) j =
      ground (arith, contains-insert_key k j (key_set ks), contains-key_set ks j)

pub contains-append {ℓ} :
    {K : Type ℓ} ⦃o : Ord K⦄ (k : K) (xs ys : List K)
    → contains (xs ++ ys) k ≡ (contains xs k || contains ys k)
unfolding contains
contains-append k [] ys = refl
contains-append k (x ∷ xs) ys = ground (arith, contains-append k xs ys)

pub contains-keys {ℓ κ} :
    {K : Type ℓ} {V : Type κ} ⦃o : Ord K⦄ (m : Map K V) (k : K)
    → contains (keys m) k ≡ is_some (get m k)
unfolding contains keys get
contains-keys [] k = refl
contains-keys ((j, v) ∷ m) k = ground (arith, contains-keys m k)
