-- ===== src/Base/BTreeMap/Order.antt =====
-- The order of keys: every operation keeps it, and a map in order is determined by its lookups.
use mathlib.Core.Path.{◌≡◌, refl, sym, ◌∙◌}
use mathlib.Core.Bool.{true, false}
use mathlib.Core.Option.{none, some}
use mathlib.Core.Logic.{◌⊎◌, inl, inr}
use mathlib.Core.List.{List, [], ◌∷◌}
use native.Mathlib.Omega.{arith}
use obsink.Base.Lists.{All}
use obsink.Base.Ord.{Ord, ◌≺◌, ==_iff}
use obsink.Base.BTreeMap.{Map, keys, get, insert, remove, contains, insert_key, key_set}

module _ {ℓ} {K : Type ℓ} ⦃o : Ord K⦄ where
  -- Strictly ascending.
  abbrev pub IsSorted : List K → Type ℓ
  IsSorted [] = Unit
  IsSorted (k ∷ ks) = All (λ j. k ≺ j) ks × IsSorted ks

  pub All-≺_trans : (k j : K) (ks : List K) → k ≺ j → All (λ i. j ≺ i) ks → All (λ i. k ≺ i) ks
  All-≺_trans k j [] h below = tt
  All-≺_trans k j (i ∷ ks) h below = (o.lt_trans k j i h below.0, All-≺_trans k j ks h below.1)

  All-insert_key :
      (k j : K) (ks : List K) → j ≺ k → All (λ i. j ≺ i) ks → All (λ i. j ≺ i) (insert_key k ks)
  unfolding insert_key
  All-insert_key k j [] h below = (h, tt)
  All-insert_key k j (i ∷ ks) h below =
      ground (arith, All-insert_key k j ks h below.1, o.eq_of_cmp k i)

  pub insert_key-IsSorted : (k : K) (ks : List K) → IsSorted ks → IsSorted (insert_key k ks)
  unfolding insert_key
  insert_key-IsSorted k [] s = (tt, tt)
  insert_key-IsSorted k (j ∷ ks) s = ground (
    arith,
    insert_key-IsSorted k ks s.1,
    All-insert_key k j ks,
    All-≺_trans k j ks,
    o.eq_of_cmp k j,
    o.cmp_reverse k j,
  )

  pub key_set-IsSorted : (ks : List K) → IsSorted (key_set ks)
  unfolding key_set
  key_set-IsSorted [] = tt
  key_set-IsSorted (k ∷ ks) = insert_key-IsSorted k (key_set ks) (key_set-IsSorted ks)

  pub not_contains_of_All : (k : K) (ks : List K) → All (λ j. k ≺ j) ks → contains ks k ≡ false
  unfolding contains
  not_contains_of_All k [] h = refl
  not_contains_of_All k (j ∷ ks) h =
      ground (arith, not_contains_of_All k ks h.1, ==_iff j k, o.cmp_refl k)

  cmp_cases : (k j : K) → (k ≺ j) ⊎ ((k ≡ j) ⊎ (j ≺ k))
  cmp_cases k j = ground (arith, o.eq_of_cmp k j, o.cmp_reverse k j)

  contains_head : (k : K) (ks : List K) → contains (k ∷ ks) k ≡ true
  unfolding contains
  contains_head k ks = ground (arith, o.cmp_refl k)

  contains_tails :
      (k : K) (xs ys : List K)
      → All (λ j. k ≺ j) xs
      → All (λ j. k ≺ j) ys
      → ((j : K) → contains (k ∷ xs) j ≡ contains (k ∷ ys) j)
      → (j : K) → contains xs j ≡ contains ys j
  unfolding contains
  contains_tails k xs ys bx by same j =
      ground (arith, same j, ==_iff k j, not_contains_of_All k xs bx, not_contains_of_All k ys by)

  head_not_in :
      (k : K) (xs ys : List K)
      → ((j : K) → contains (k ∷ xs) j ≡ contains ys j)
      → All (λ j. k ≺ j) ys
      → ⊥
  head_not_in k xs ys same below =
      cc (sym (contains_head k xs) ∙ same k ∙ not_contains_of_All k ys below)

  -- A set in order is determined by its members.
  pub set_ext :
      (xs ys : List K)
      → IsSorted xs
      → IsSorted ys
      → ((k : K) → contains xs k ≡ contains ys k)
      → xs ≡ ys
  set_ext [] [] sx sy same = refl
  set_ext [] (j ∷ ys) sx sy same = absurd (head_not_in j ys [] (λ i. sym (same i)) tt)
  set_ext (k ∷ xs) [] sx sy same = absurd (head_not_in k xs [] same tt)
  set_ext (k ∷ xs) (j ∷ ys) sx sy same = elim (cmp_cases k j) [
    | inl lower ↦ absurd (head_not_in k xs (j ∷ ys) same (lower, All-≺_trans k j ys lower sy.0))
    | inr (inr higher) ↦
        absurd
          (head_not_in j ys (k ∷ xs) (λ i. sym (same i)) (higher, All-≺_trans j k xs higher sx.0))
    | inr (inl e) ↦
        let below : All (λ i. k ≺ i) ys = rw e sy.0 in
        let tails : xs ≡ ys =
          set_ext xs ys sx.1 sy.1 (contains_tails k xs ys sx.0 below (λ i. same i ∙ rw e)) in
        cc (e, tails)
  ]

module _ {ℓ κ} {K : Type ℓ} {V : Type κ} ⦃o : Ord K⦄ where
  pub keys-insert : (k : K) (v : V) (m : Map K V) → keys (insert k v m) ≡ insert_key k (keys m)
  unfolding keys insert insert_key
  keys-insert k v [] = refl
  keys-insert k v ((j, w) ∷ m) = ground (arith, keys-insert k v m)

  pub insert-IsSorted :
      (k : K) (v : V) (m : Map K V) → IsSorted (keys m) → IsSorted (keys (insert k v m))
  insert-IsSorted k v m s = rw keys-insert (insert_key-IsSorted k (keys m) s)

  All-remove :
      (k j : K) (m : Map K V) → All (λ i. j ≺ i) (keys m) → All (λ i. j ≺ i) (keys (remove k m))
  unfolding keys remove
  All-remove k j [] h = tt
  All-remove k j ((i, w) ∷ m) h = ground (arith, All-remove k j m h.1)

  pub remove-IsSorted : (k : K) (m : Map K V) → IsSorted (keys m) → IsSorted (keys (remove k m))
  unfolding keys remove
  remove-IsSorted k [] s = tt
  remove-IsSorted k ((j, w) ∷ m) s = ground (arith, remove-IsSorted k m s.1, All-remove k j m s.0)

  get_below : (k : K) (m : Map K V) → All (λ j. k ≺ j) (keys m) → get m k ≡ none
  unfolding keys get
  get_below k [] h = refl
  get_below k ((j, v) ∷ m) h = ground (arith, get_below k m h.1, ==_iff j k, o.cmp_refl k)

  get_head : (k : K) (v : V) (m : Map K V) → get ((k, v) ∷ m) k ≡ some v
  unfolding get
  get_head k v m = ground (arith, o.cmp_refl k)

  get_tail : (k j : K) (v : V) (m : Map K V) → k ≺ j → get ((k, v) ∷ m) j ≡ get m j
  unfolding get
  get_tail k j v m h = ground arith

  -- A head below every key of the other map cannot be found there.
  head_not_below :
      (k : K) (v : V) (m n : Map K V)
      → ((j : K) → get ((k, v) ∷ m) j ≡ get n j)
      → All (λ j. k ≺ j) (keys n)
      → ⊥
  head_not_below k v m n same below = cc (sym (get_head k v m) ∙ same k ∙ get_below k n below)

  pub tails_same :
      (k : K) (v w : V) (m n : Map K V)
      → All (λ j. k ≺ j) (keys m)
      → All (λ j. k ≺ j) (keys n)
      → ((j : K) → get ((k, v) ∷ m) j ≡ get ((k, w) ∷ n) j)
      → (j : K) → get m j ≡ get n j
  unfolding get
  tails_same k v w m n bm bn same j =
      ground (arith, same j, ==_iff k j, get_below k m bm, get_below k n bn)

  -- A map in order is determined by its lookups.
  pub map_ext :
      (m n : Map K V)
      → IsSorted (keys m)
      → IsSorted (keys n)
      → ((k : K) → get m k ≡ get n k)
      → m ≡ n
  unfolding keys
  map_ext [] [] sm sn same = refl
  map_ext [] ((j, w) ∷ n) sm sn same = cc (get_head j w n, same j, get_below j [] tt)
  map_ext ((k, v) ∷ m) [] sm sn same = cc (get_head k v m, same k, get_below k [] tt)
  map_ext ((k, v) ∷ m) ((j, w) ∷ n) sm sn same = elim (cmp_cases k j) [
    | inl lower ↦
        absurd (head_not_below k v m ((j, w) ∷ n) same (lower, All-≺_trans k j (keys n) lower sn.0))
    | inr (inr higher) ↦ absurd (
        head_not_below j w n ((k, v) ∷ m) (λ i. sym (same i))
          (higher, All-≺_trans j k (keys m) higher sm.0))
    | inr (inl e) ↦
        let below : All (λ i. k ≺ i) (keys n) = rw e sn.0 in
        let tails : m ≡ n =
          map_ext m n sm.1 sn.1 (tails_same k v w m n sm.0 below (λ i. same i ∙ rw e)) in
        cc (e, tails, get_head k v m, same k, get_head j w n)
  ]
