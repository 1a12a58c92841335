-- ===== src/Base/Io.antt =====
-- Computations that change a state and may fail, with `do` blocks for the operator `?`.
use mathlib.Core.Path.{◌≡◌, refl}
use native.Mathlib.Omega.{arith}
use obsink.Base.Result.{Result, ok, err}

abbrev pub Io {ℓ κ μ} : Type ℓ → Type κ → Type μ → Type (ℓ ⊔ κ ⊔ μ)
Io E W A = W → Result E A × W

abbrev pub continue {ℓ κ μ ν} :
    {E : Type ℓ} {W : Type κ} {A : Type μ} {B : Type ν}
    → Result E A × W
    → (A → Io E W B)
    → Result E B × W
continue (ok a, w) f = f a w
continue (err e, w) f = (err e, w)

infixl 5 ◌>>=◌ ◌>>◌
abbrev pub ◌>>=◌ {ℓ κ μ ν} :
    {E : Type ℓ} {W : Type κ} {A : Type μ} {B : Type ν} → Io E W A → (A → Io E W B) → Io E W B
(m >>= f) w = continue (m w) f

abbrev pub ◌>>◌ {ℓ κ μ} :
    {E : Type ℓ} {W : Type κ} {B : Type μ} → Io E W (Unit {0}) → Io E W B → Io E W B
m >> k = m >>= λ _. k

abbrev pub return {ℓ κ μ} : {E : Type ℓ} {W : Type κ} {A : Type μ} → A → Io E W A
return a w = (ok a, w)

abbrev pub lift {ℓ κ μ} : {E : Type ℓ} {W : Type κ} {A : Type μ} → Result E A → Io E W A
lift r w = (r, w)

abbrev pub get_state {ℓ κ} : {E : Type ℓ} {W : Type κ} → Io E W W
get_state w = (ok w, w)

abbrev pub map_err {ℓ κ μ} :
    {E : Type ℓ} {F : Type κ} {A : Type μ} → (E → F) → Result E A → Result F A
map_err f (ok a) = ok a
map_err f (err e) = err (f e)

-- What a first computation leaves and a second one keeps, both leave.
pub continue-keeps {ℓ κ μ ν ξ} :
    {E : Type ℓ} {W : Type κ} {A : Type μ} {B : Type ν} (P : W → Type ξ) (r : Result E A × W)
    (f : A → Io E W B)
    → P r.1
    → ((a : A) (w : W) → P w → P (f a w).1)
    → P (continue r f).1
continue-keeps P (ok a, w) f h k = k a w h
continue-keeps P (err e, w) f h k = h

-- A chain that succeeds is one whose parts do.
pub continue-ok {ℓ κ μ ν} :
    {E : Type ℓ} {W : Type κ} {A : Type μ} {B : Type ν} (r : Result E A × W) (f : A → Io E W B)
    (b : B)
    → (continue r f).0 ≡ ok b
    → (a : A) × (r.0 ≡ ok a) × ((f a r.1).0 ≡ ok b)
continue-ok (ok a, w) f b h = (a, refl, h)
continue-ok (err e, w) f b h = absurd (ground (arith, h))
