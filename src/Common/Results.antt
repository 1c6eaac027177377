-- ===== src/Common/Results.antt =====
-- Results of fallible code, and what a run of it returns.
use mathlib.Core.Path.{◌≡◌, refl, subst}
use mathlib.Core.Bool.{Bool, true, false}
use sera_c.Common.Tests.{if◌then◌else◌}
use mathlib.Core.Option.{Option, none, some}
use mathlib.Core.Logic.{◌⊎◌, inl, inr}

pub data Result {ℓ} (E : Type 0) (A : Type ℓ) : Type ℓ where
  ok : A → Result E A
  err : E → Result E A

module _ {ℓ} {E : Type 0} {A : Type ℓ} where
  -- A successful result satisfies `P`.
  abbrev pub Post {κ} : Result E A → (A → Type κ) → Type κ
  Post (ok x) P = P x
  Post (err reason) P = Unit

  -- The run returns a value, and one of which `Q` holds.
  abbrev pub Returns : Result E A → (A → Type 0) → Type 0
  Returns (ok x) Q = Q x
  Returns (err reason) Q = ⊥

  pub ok_injective : (a b : A) → ◌≡◌ {A = Result E A} (ok a) (ok b) → a ≡ b
  ok_injective a b e = cc

  pub Post-eq-ok {κ} : (P : A → Type κ) (m : Result E A) {a : A} → Post m P → m ≡ ok a → P a
  Post-eq-ok P (ok b) h e = subst P (ok_injective b _ e) h
  Post-eq-ok P (err x) h e = cc

  pub Post-of_ok {κ} : (P : A → Type κ) (m : Result E A) → ((a : A) → m ≡ ok a → P a) → Post m P
  Post-of_ok P (ok a) h = h a refl
  Post-of_ok P (err e) h = tt

  pub Returns-eq-ok : (Q : A → Type 0) (m : Result E A) → Returns m Q → (a : A) × (m ≡ ok a) × Q a
  Returns-eq-ok Q (ok a) h = (a, refl, h)
  Returns-eq-ok Q (err _) h = elim h [ ]

  pub Returns_map :
      (P Q : A → Type 0) (m : Result E A) → ((a : A) → P a → Q a) → Returns m P → Returns m Q
  Returns_map P Q (ok a) k h = k a h
  Returns_map P Q (err _) k h = elim h [ ]

  pub Post_map {κ μ} :
      (P : A → Type κ) (Q : A → Type μ) (m : Result E A)
      → ((a : A) → P a → Q a)
      → Post m P
      → Post m Q
  Post_map P Q (ok a) k h = k a h
  Post_map P Q (err e) k h = tt

-- The first error ends the run.
module _ {ℓ κ} {E : Type 0} {A : Type ℓ} {B : Type κ} where
  infixl 5 ◌>>=◌
  abbrev pub ◌>>=◌ : Result E A → (A → Result E B) → Result E B
  err reason >>= next = err reason
  ok x >>= next = next x

  pub Post-bind {μ ν} :
      (P : A → Type μ) (Q : B → Type ν) (m : Result E A) (f : A → Result E B)
      → Post m P
      → ((a : A) → P a → Post (f a) Q)
      → Post (m >>= f) Q
  Post-bind P Q (ok a) f h k = k a h
  Post-bind P Q (err e) f h k = tt

  pub Returns-bind :
      (P : A → Type 0) (Q : B → Type 0) (m : Result E A) (f : A → Result E B)
      → Returns m P
      → ((a : A) → P a → Returns (f a) Q)
      → Returns (m >>= f) Q
  Returns-bind P Q (ok a) f h k = k a h
  Returns-bind P Q (err _) f h k = elim h [ ]

-- An early return with an error where the test fails.
abbrev pub require : {E : Type 0} → Bool → E → Result E (Unit {0})
require false reason = err reason
require true reason = ok tt

module _ {ℓ} {E : Type 0} {B : Type ℓ} where
  infixl 5 ◌>>◌
  abbrev pub ◌>>◌ : Result E (Unit {0}) → Result E B → Result E B
  first >> then_run = first >>= λ done. then_run

  pub Post-require {κ} :
      (Q : B → Type κ) (b : Bool) (e : E) (m : Result E B)
      → (b ≡ true → Post m Q)
      → Post (require b e >> m) Q
  Post-require Q true e m k = k refl
  Post-require Q false e m k = tt

  -- A test that passes leaves what follows it.
  pub require_pass : (b : Bool) (e : E) (m : Result E B) → b ≡ true → (require b e >> m) ≡ m
  require_pass true e m t = refl
  require_pass false e m t = cc

-- The value of an option, or an early return with an error.
abbrev pub need {ℓ} : {E : Type 0} {A : Type ℓ} → Option A → E → Result E A
need none reason = err reason
need (some x) reason = ok x

module _ {ℓ κ} {E : Type 0} {A : Type ℓ} {B : Type κ} where
  pub need_post {μ} :
      (Q : B → Type μ) (o : Option A) (e : E) (f : A → Result E B)
      → ((a : A) → o ≡ some a → Post (f a) Q)
      → Post (need o e >>= f) Q
  need_post Q none e f k = tt
  need_post Q (some a) e f k = k a refl

  pub need_pass :
      (o : Option A) (e : E) (f : A → Result E B) {a : A} → o ≡ some a → (need o e >>= f) ≡ f a
  need_pass o e f t = rw t refl

  -- What a successful run has got from its first step.
  pub need-some :
      (o : Option A) (e : E) (f : A → Result E B) {b : B}
      → (need o e >>= f) ≡ ok b
      → (a : A) × (o ≡ some a) × (f a ≡ ok b)
  need-some none e f h = cc
  need-some (some a) e f h = (a, refl, h)

  pub bind_ok :
      (m : Result E A) (f : A → Result E B) {b : B}
      → (m >>= f) ≡ ok b
      → (a : A) × (m ≡ ok a) × (f a ≡ ok b)
  bind_ok (err e) f h = cc
  bind_ok (ok a) f h = (a, refl, h)

module _ {ℓ} {E : Type 0} {B : Type ℓ} where
  pub require-true :
      (t : Bool) (e : E) (m : Result E B) {b : B}
      → (require t e >> m) ≡ ok b
      → (t ≡ true) × (m ≡ ok b)
  require-true false e m h = cc
  require-true true e m h = (refl, h)

-- Every error of the run satisfies `P`.
abbrev pub Fails {ℓ κ} : {E : Type 0} {A : Type ℓ} → Result E A → (E → Type κ) → Type κ
Fails (ok x) P = Unit
Fails (err reason) P = P reason

module _ {ℓ κ} {E : Type 0} {A : Type ℓ} (P : E → Type κ) where
  pub Fails-bind {μ} :
      {B : Type μ} (m : Result E A) (f : A → Result E B)
      → Fails m P
      → ((a : A) → Fails (f a) P)
      → Fails (m >>= f) P
  Fails-bind (ok a) f h k = k a
  Fails-bind (err e) f h k = h

  pub Fails_need : (o : Option A) (e : E) → P e → Fails (need o e) P
  Fails_need none e p = p
  Fails_need (some a) e p = tt

  pub Fails_require :
      (b : Bool) (e : E) (m : Result E A) → P e → Fails m P → Fails (require b e >> m) P
  Fails_require true e m p h = h
  Fails_require false e m p h = p

pub Fails-eq-err {ℓ} :
    {E : Type 0} {A : Type ℓ} (P : E → Type 0) (m : Result E A) {e : E}
    → Fails m P
    → m ≡ err e
    → P e
Fails-eq-err P (ok a) h q = cc
Fails-eq-err {E} {A} P (err d) {e} h q = let same : d ≡ e = cc in subst P same h

-- The same for options.
infixl 5 ◌>>=?◌
abbrev pub ◌>>=?◌ {ℓ κ} : {A : Type ℓ} {B : Type κ} → Option A → (A → Option B) → Option B
none >>=? next = none
some x >>=? next = next x

pub bind-some {ℓ κ} :
    {A : Type ℓ} {B : Type κ} (o : Option A) (f : A → Option B) {b : B}
    → (o >>=? f) ≡ some b
    → (a : A) × (o ≡ some a) × (f a ≡ some b)
bind-some none f h = cc
bind-some (some a) f h = (a, refl, h)

pub some-injective {ℓ} : {A : Type ℓ} (a b : A) → ◌≡◌ {A = Option A} (some a) (some b) → a ≡ b
some-injective a b h = cc

module _ {ℓ κ μ} {E : Type 0} {A : Type ℓ} {B : Type κ} (Q : B → Type μ) where
  -- A step of which nothing is needed.
  pub Post-then :
      (m : Result E A) (f : A → Result E B) → ((a : A) → Post (f a) Q) → Post (m >>= f) Q
  Post-then (ok a) f k = k a
  Post-then (err e) f k = tt

module _ {κ μ} {E : Type 0} {B : Type κ} (Q : B → Type μ) where
  pub Post-if : (b : Bool) (m n : Result E B) → Post m Q → Post n Q → Post (if b then m else n) Q
  Post-if true m n h k = h
  Post-if false m n h k = k

module _ {ℓ} {E : Type 0} {A : Type ℓ} where
  pub Result-cases : (m : Result E A) → ((a : A) × (m ≡ ok a)) ⊎ ((e : E) × (m ≡ err e))
  Result-cases (ok a) = inl (a, refl)
  Result-cases (err e) = inr (e, refl)

  pub err-injective : (d e : E) → ◌≡◌ {A = Result E A} (err d) (err e) → d ≡ e
  err-injective d e h = cc

pub require_post :
    {E : Type 0} (b : Bool) (e : E) → Post (require b e) (λ (done : Unit {0}). b ≡ true)
require_post true e = refl
require_post false e = tt
