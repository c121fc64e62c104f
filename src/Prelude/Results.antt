-- ===== src/Prelude/Results.antt =====
-- Code that may stop the machine: a failed `kassert`, `kbugon` or `assert`, a call of `kabort`, or
-- an access out of bounds. Nothing runs after a panic, so it carries no state.
use mathlib.Core.Bool.{Bool, true, false}
use mathlib.Core.Path.{◌≡◌, refl}
use mathlib.Core.Option.{Option, none, some}

pub data Result {ℓ} (A : Type ℓ) : Type ℓ where
  panic : Result A
  ok : A → Result A

-- Whether it goes on.
abbrev pub is_ok {ℓ} : {A : Type ℓ} → Result A → Bool
is_ok panic = false
is_ok (ok x) = true

infixl 5 ◌>>=◌ ◌>>◌
abbrev pub ◌>>=◌ {ℓ κ} : {A : Type ℓ} {B : Type κ} (m : Result A) (next : A → Result B) → Result B
panic >>= next = panic
ok x >>= next = next x

abbrev pub ◌>>◌ {ℓ} : {B : Type ℓ} → Result (Unit {0}) → Result B → Result B
m >> k = m >>= λ _. k

-- `kassert(b)`
abbrev pub kassert : Bool → Result (Unit {0})
kassert true = ok tt
kassert false = panic

-- A value that must be there.
abbrev pub expect {ℓ} : {A : Type ℓ} → Option A → Result A
expect none = panic
expect (some a) = ok a

-- Where a bind goes on, both of its parts do.
pub >>=-eq-ok {ℓ κ} :
    {A : Type ℓ} {B : Type κ} {y : B} (m : Result A) (next : A → Result B)
    → (m >>= next) ≡ ok y
    → (x : A) × (m ≡ ok x) × (next x ≡ ok y)
>>=-eq-ok panic next h = cc
>>=-eq-ok (ok x) next h = (x, refl, h)

pub >>=-assoc {ℓ κ μ} :
    {A : Type ℓ} {B : Type κ} {C : Type μ} (m : Result A) (f : A → Result B) (g : B → Result C)
    → ((m >>= f) >>= g) ≡ (m >>= λ x. f x >>= g)
>>=-assoc panic f g = refl
>>=-assoc (ok x) f g = refl

pub ok-injective {ℓ} : {A : Type ℓ} {x y : A} → ok x ≡ ok y → x ≡ y
ok-injective e = cc e
