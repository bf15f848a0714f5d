-- ===== src/Base/Run.antt =====
-- What a kernel routine comes to: a value, or `while (1) {}`.
use mathlib.Core.Path.{◌≡◌, refl, subst}
use mathlib.Core.Logic.{◌⊎◌, inl, inr}

pub data Run {ℓ} (A : Type ℓ) : Type ℓ where
  done : A → Run A
  halt : Run A

infixl 5 ◌>>=◌
abbrev pub ◌>>=◌ {ℓ κ} : {A : Type ℓ} {B : Type κ} → Run A → (A → Run B) → Run B
done a >>= f = f a
halt >>= f = halt

pub Run-cases {ℓ} : {A : Type ℓ} (r : Run A) → (r ≡ halt) ⊎ ((a : A) × (r ≡ done a))
Run-cases (done a) = inr (a, refl)
Run-cases halt = inl refl

-- The value, if there is one, has the property.
abbrev pub Ends {ℓ κ} : {A : Type ℓ} → (A → Type κ) → Run A → Type κ
Ends P (done a) = P a
Ends P halt = Unit

pub Ends-bind {ℓ κ μ} :
    {A : Type ℓ} {B : Type ℓ} (P : A → Type κ) (Q : B → Type μ) (m : Run A) (f : A → Run B)
    → Ends P m
    → ((a : A) → P a → Ends Q (f a))
    → Ends Q (m >>= f)
Ends-bind P Q (done a) f h k = k a h
Ends-bind P Q halt f h k = tt

pub Ends-any {ℓ} : {A : Type ℓ} (m : Run A) → Ends (λ a. m ≡ done a) m
Ends-any (done a) = refl
Ends-any halt = tt

pub Ends-of_done {ℓ κ} :
    {A : Type ℓ} (P : A → Type κ) {r : Run A} {a : A} → Ends P r → r ≡ done a → P a
Ends-of_done P h e = subst (Ends P) e h

pub Ends-mono {ℓ κ μ} :
    {A : Type ℓ} (P : A → Type κ) (Q : A → Type μ) (m : Run A)
    → Ends P m
    → ((a : A) → P a → Q a)
    → Ends Q m
Ends-mono P Q (done a) h k = k a h
Ends-mono P Q halt h k = tt

pub bind_assoc {ℓ κ μ} :
    {A : Type ℓ} {B : Type κ} {C : Type μ} (m : Run A) (f : A → Run B) (g : B → Run C)
    → ((m >>= f) >>= g) ≡ (m >>= λ a. f a >>= g)
bind_assoc (done a) f g = refl
bind_assoc halt f g = refl
