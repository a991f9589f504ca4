-- ===== src/Prelude/Raise.antt =====
-- A computation that may raise: `err` carries the exception.
use mathlib.Core.Path.{◌≡◌, refl}
use mathlib.Core.Logic.{◌⊎◌, inl, inr}
use mathlib.Core.Bool.{Bool, true, false}

pub data Result {ℓ κ} (E : Type ℓ) (A : Type κ) : Type (ℓ ⊔ κ) where
  ok : A → Result E A
  err : E → Result E A

infixl 5 ◌>>=◌ ◌>>◌
abbrev pub ◌>>=◌ {ℓ κ μ} :
    {E : Type ℓ} {A : Type κ} {B : Type μ} → Result E A → (A → Result E B) → Result E B
err e >>= next = err e
ok a >>= next = next a

abbrev pub ◌>>◌ {ℓ μ} : {E : Type ℓ} {B : Type μ} → Result E (Unit {0}) → Result E B → Result E B
test >> next = test >>= λ _. next

-- `if not test: raise e`
abbrev pub require {ℓ} : {E : Type ℓ} → Bool → E → Result E (Unit {0})
require true e = ok tt
require false e = err e

-- `if test: raise e`
abbrev pub refuse {ℓ} : {E : Type ℓ} → Bool → E → Result E (Unit {0})
refuse true e = err e
refuse false e = ok tt

module _ {ℓ κ μ} {E : Type ℓ} {A : Type κ} {B : Type μ} where
  -- A successful bind has a successful first part.
  pub >>=-eq-ok :
      (r : Result E A) (next : A → Result E B) {x : B}
      → (r >>= next) ≡ ok x
      → (a : A) × (r ≡ ok a) × (next a ≡ ok x)
  >>=-eq-ok (err e) next h = cc
  >>=-eq-ok (ok a) next h = (a, refl, h)

module _ {ℓ κ μ ν} {E : Type ℓ} {A : Type κ} {B : Type μ} {C : Type ν} where
  pub >>=_assoc :
      (m : Result E A) (f : A → Result E B) (g : B → Result E C)
      → (m >>= f >>= g) ≡ (m >>= λ a. f a >>= g)
  >>=_assoc (ok a) f g = refl
  >>=_assoc (err e) f g = refl

module _ {ℓ κ} {E : Type ℓ} {A : Type κ} where
  pub Result-cases : (r : Result E A) → ((a : A) × (r ≡ ok a)) ⊎ ((e : E) × (r ≡ err e))
  Result-cases (ok a) = inl (a, refl)
  Result-cases (err e) = inr (e, refl)

module _ {ℓ μ} {E : Type ℓ} {B : Type μ} where
  -- What follows a passed `require` or `refuse`, and that it passed.
  pub require-eq-ok :
      (b : Bool) (e : E) (f : Unit {0} → Result E B) {x : B}
      → (require b e >>= f) ≡ ok x
      → (b ≡ true) × (f tt ≡ ok x)
  require-eq-ok true e f h = (refl, h)
  require-eq-ok false e f h = cc

  pub refuse-eq-ok :
      (b : Bool) (e : E) (f : Unit {0} → Result E B) {x : B}
      → (refuse b e >>= f) ≡ ok x
      → (b ≡ false) × (f tt ≡ ok x)
  refuse-eq-ok true e f h = cc
  refuse-eq-ok false e f h = (refl, h)

-- The same three as rules that go on with what they find.
module _ {ℓ κ μ ν} {E : Type ℓ} {A : Type κ} {B : Type μ} {C : Type ν} where
  pub bound :
      (m : Result E A) (f : A → Result E B) {b : B}
      → (m >>= f) ≡ ok b
      → ((a : A) → m ≡ ok a → f a ≡ ok b → C)
      → C
  bound m f h go = let (a, e, k) = >>=-eq-ok m f h in go a e k

module _ {ℓ μ ν} {E : Type ℓ} {B : Type μ} {C : Type ν} where
  pub passed :
      (b : Bool) (e : E) (f : Unit {0} → Result E B) {x : B}
      → (require b e >>= f) ≡ ok x
      → (b ≡ true → f tt ≡ ok x → C)
      → C
  passed b e f h go = let (p, k) = require-eq-ok b e f h in go p k

  pub not_refused :
      (b : Bool) (e : E) (f : Unit {0} → Result E B) {x : B}
      → (refuse b e >>= f) ≡ ok x
      → (b ≡ false → f tt ≡ ok x → C)
      → C
  not_refused b e f h go = let (p, k) = refuse-eq-ok b e f h in go p k
