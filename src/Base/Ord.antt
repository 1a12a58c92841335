-- ===== src/Base/Ord.antt =====
-- Rust's `Ord`: a comparison with the laws that the trait asks of it. `==` is derived from it.
use Prim.Native.Nat.{ℕ, compare, Ordering}
use Prim.Native.Nat.Ordering.{lt, eq, gt}
use mathlib.Core.Path.{◌≡◌, refl}
use mathlib.Core.Logic.{◌↔◌, ◌≢◌}
use mathlib.Core.Bool.{Bool, true, false}
use mathlib.Core.List.{List, [], ◌∷◌}
use native.Mathlib.Omega.{arith}

-- `Ordering::reverse`.
abbrev pub reverse : Ordering → Ordering
reverse lt = gt
reverse eq = eq
reverse gt = lt

-- A total order whose `Equal` is equality.
pub record IsLawful {ℓ} {K : Type ℓ} (cmp : K → K → Ordering) : Type ℓ where
  pub eq_of_cmp : (x y : K) → cmp x y ≡ eq → x ≡ y
  pub cmp_refl : (x : K) → cmp x x ≡ eq
  pub cmp_reverse : (x y : K) → cmp y x ≡ reverse (cmp x y)
  pub lt_trans : (x y z : K) → cmp x y ≡ lt → cmp y z ≡ lt → cmp x z ≡ lt

pub record Ord {ℓ} (K : Type ℓ) : Type ℓ where
  pub cmp : K → K → Ordering
  pub lawful : IsLawful cmp
  pub open lawful use *

abbrev pub is_eq : Ordering → Bool
is_eq eq = true
is_eq _ = false

infix 50 ◌≺◌ ◌==◌
abbrev pub ◌==◌ {ℓ} : {K : Type ℓ} ⦃o : Ord K⦄ → K → K → Bool
◌==◌ ⦃o⦄ a b = is_eq (o.cmp a b)

abbrev pub ◌≺◌ {ℓ} : {K : Type ℓ} ⦃o : Ord K⦄ → K → K → Type 0
◌≺◌ ⦃o⦄ a b = o.cmp a b ≡ lt

module _ {ℓ} {K : Type ℓ} ⦃o : Ord K⦄ where
  pub ==_refl : (a : K) → (a == a) ≡ true
  ==_refl a = ground (arith, o.cmp_refl a)

  pub ==_iff : (a b : K) → ((a == b) ≡ true) ↔ (a ≡ b)
  ==_iff a b = (λ h. ground (arith, o.eq_of_cmp a b), λ p. ground (arith, o.cmp_refl a, p))

  pub ==_ne : (a b : K) → a ≢ b → (a == b) ≡ false
  ==_ne a b h = ground (arith, o.eq_of_cmp a b, h)

  pub ==_comm : (a b : K) → (a == b) ≡ (b == a)
  ==_comm a b = ground (arith, ==_iff a b, ==_iff b a)

pub compare-IsLawful : IsLawful compare
compare-IsLawful = ground arith

instance abbrev pub nat_ord : Ord ℕ
nat_ord = record { cmp = compare; lawful = compare-IsLawful }

abbrev pub then : Ordering → Ordering → Ordering
then eq second = second
then first _ = first

-- Lists compare lexicographically, as slices and strings do.
module _ {ℓ} {A : Type ℓ} ⦃o : Ord A⦄ where
  unfoldable pub compare_list : List A → List A → Ordering
  compare_list [] [] = eq
  compare_list [] (b ∷ bs) = lt
  compare_list (a ∷ as') [] = gt
  compare_list (a ∷ as') (b ∷ bs) = then (o.cmp a b) (compare_list as' bs)

  list_refl : (a : List A) → compare_list a a ≡ eq
  unfolding compare_list
  list_refl [] = refl
  list_refl (a ∷ as') = ground (arith, list_refl as', o.cmp_refl a)

  list_eq : (a b : List A) → compare_list a b ≡ eq → a ≡ b
  unfolding compare_list
  list_eq [] [] h = refl
  list_eq [] (b ∷ bs) h = ground arith
  list_eq (a ∷ as') [] h = ground arith
  list_eq (a ∷ as') (b ∷ bs) h = ground (arith, list_eq as' bs, o.eq_of_cmp a b)

  list_reverse : (a b : List A) → compare_list b a ≡ reverse (compare_list a b)
  unfolding compare_list
  list_reverse [] [] = refl
  list_reverse [] (b ∷ bs) = refl
  list_reverse (a ∷ as') [] = refl
  list_reverse (a ∷ as') (b ∷ bs) = ground (arith, list_reverse as' bs, o.cmp_reverse a b)

  list_trans :
      (a b c : List A) → compare_list a b ≡ lt → compare_list b c ≡ lt → compare_list a c ≡ lt
  unfolding compare_list
  list_trans [] [] c h k = ground arith
  list_trans [] (b ∷ bs) [] h k = ground arith
  list_trans [] (b ∷ bs) (c ∷ cs) h k = refl
  list_trans (a ∷ as') [] c h k = ground arith
  list_trans (a ∷ as') (b ∷ bs) [] h k = ground arith
  list_trans (a ∷ as') (b ∷ bs) (c ∷ cs) h k = ground (
    arith,
    list_trans as' bs cs,
    o.eq_of_cmp a b,
    o.eq_of_cmp b c,
    o.lt_trans a b c,
    o.cmp_refl a,
  )

  pub compare_list-IsLawful : IsLawful compare_list
  compare_list-IsLawful = record {
    eq_of_cmp = list_eq;
    cmp_refl = list_refl;
    cmp_reverse = list_reverse;
    lt_trans = list_trans;
  }

-- The order of texts.
instance unfoldable pub text_ord : Ord (List ℕ)
unfolding compare_list
text_ord = record { cmp = compare_list; lawful = compare_list-IsLawful }

-- The order of file paths, by components.
instance unfoldable pub path_ord : Ord (List (List ℕ))
unfolding text_ord
path_ord = record { cmp = compare_list; lawful = compare_list-IsLawful }
