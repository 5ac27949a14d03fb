-- ===== src/Machine/Fault.antt =====
-- Undefined behaviour as a value. A step of the simulator returns `none` where the C program has
-- none: it touches a byte outside of the memory buffer, or shifts a word by 32 bits or more.
use herve.Base.{Bool, true, false, Option, none, some, if◌then◌else◌, ◌≡◌, refl}

infixl 5 ◌>>=◌
abbrev pub ◌>>=◌ : {A B : Type 0} → Option A → (A → Option B) → Option B
none >>= f = none
some a >>= f = f a

-- What holds of the result, if the behaviour is defined.
abbrev pub Ensures : {A : Type 0} → (A → Type 0) → Option A → Type 0
Ensures P none = Unit
Ensures P (some a) = P a

-- The behaviour is defined, and `P` holds of the result.
abbrev pub Returns : {A : Type 0} → (A → Type 0) → Option A → Type 0
Returns P none = ⊥
Returns P (some a) = P a

module _ {A B : Type 0} (P : A → Type 0) (Q : B → Type 0) where
  pub Ensures-bind :
      (m : Option A) (f : A → Option B)
      → Ensures P m
      → ((a : A) → P a → Ensures Q (f a))
      → Ensures Q (m >>= f)
  Ensures-bind none f h k = tt
  Ensures-bind (some a) f h k = k a h

  pub Returns-bind :
      (m : Option A) (f : A → Option B)
      → Returns P m
      → ((a : A) → P a → Returns Q (f a))
      → Returns Q (m >>= f)
  Returns-bind none f h k = h
  Returns-bind (some a) f h k = k a h

pub if-Ensures :
    {A : Type 0} (P : A → Type 0) (b : Bool) (x y : Option A)
    → Ensures P x
    → Ensures P y
    → Ensures P (if b then x else y)
if-Ensures P true x y hx hy = hx
if-Ensures P false x y hx hy = hy

pub Ensures-map :
    {A : Type 0} {P Q : A → Type 0} (m : Option A)
    → Ensures P m
    → ((a : A) → P a → Q a)
    → Ensures Q m
Ensures-map none h f = tt
Ensures-map (some a) h f = f a h

pub Ensures-both :
    {A : Type 0} (P Q : A → Type 0) (m : Option A)
    → Ensures P m
    → Ensures Q m
    → Ensures (λ a. P a × Q a) m
Ensures-both P Q none h k = tt
Ensures-both P Q (some a) h k = (h, k)

-- A result is the result.
pub some_result : {A : Type 0} (m : Option A) → Ensures (λ a. m ≡ some a) m
some_result none = tt
some_result (some a) = refl
