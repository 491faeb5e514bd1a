-- ===== src/Base/Results.antt =====
-- What a Go call that returns an `error` ends in. `panic` is a nil dereference: the process dies,
-- and a transaction that was open is rolled back.
use mathlib.Core.Path.{◌≡◌, refl, sym, subst}
use mathlib.Core.Logic.{◌⊎◌, inl, inr}
use mathlib.Core.Bool.{Bool, true, false}
use mathlib.Core.Option.{Option, none, some}
use native.Mathlib.Omega.{arith}

-- The codes of model.Error.
pub data Code : Type 0 where
  internal_error : Code
  usage_error invalid_config invalid_json schema_invalid : Code
  ambiguous_id not_found capability_denied precondition_failed : Code
  invalid_state insufficient_resource limit_exceeded precondition_changed : Code
  worker_unavailable runner_unavailable repository_unavailable blocked : Code
  storage_failure core_inconsistent : Code

pub data Result {ℓ} (T : Type ℓ) : Type ℓ where
  panic : Result T
  err : Code → Result T
  ok : T → Result T

infixl 5 ◌>>=◌ ◌>>◌
abbrev pub ◌>>=◌ {ℓ κ} : {T : Type ℓ} {V : Type κ} → Result T → (T → Result V) → Result V
panic >>= next = panic
err code >>= next = err code
ok x >>= next = next x

-- A guard, and what the code does after it.
abbrev pub ◌>>◌ {ℓ} : {V : Type ℓ} → Result (Unit {0}) → Result V → Result V
passed >> later = passed >>= λ done. later

-- `if b { return model.Err(e) }`
abbrev pub fail_if : Bool → Code → Result (Unit {0})
fail_if true e = err e
fail_if false e = ok tt

-- `x := m[k]; if x == nil { return model.Err(e) }`
abbrev pub or_fail {ℓ} : {A : Type ℓ} → Option A → Code → Result A
or_fail none e = err e
or_fail (some a) e = ok a

-- A pointer that the code follows with no test.
abbrev pub deref {ℓ} : {A : Type ℓ} → Option A → Result A
deref none = panic
deref (some a) = ok a

-- What a call that succeeds returns.
pub ok-inj {ℓ} : {T : Type ℓ} {x y : T} → ok x ≡ ok y → x ≡ y
ok-inj h = cc

module _ {ℓ κ} {T : Type ℓ} {V : Type κ} where
  -- A call that succeeds has succeeded in its first part.
  pub >>=-eq-ok :
      (call : Result T) (next : T → Result V) {v : V}
      → ok v ≡ (call >>= next)
      → (x : T) × (call ≡ ok x) × (next x ≡ ok v)
  >>=-eq-ok panic next h = cc
  >>=-eq-ok (err code) next h = cc
  >>=-eq-ok (ok x) next h = (x, refl, sym h)

-- What holds of every result of a call that succeeds.
abbrev pub Yields : {T : Type 0} → (T → Type 0) → Result T → Type 0
Yields {T} P call = (x : T) → call ≡ ok x → P x

pub Yields-ok : {T : Type 0} (P : T → Type 0) (x : T) → P x → Yields P (ok x)
Yields-ok P x h y e = subst P (ok-inj e) h

pub Yields-bind :
    {T V : Type 0} (P : V → Type 0) (call : Result T) (next : T → Result V)
    → ((x : T) → call ≡ ok x → Yields P (next x))
    → Yields P (call >>= next)
Yields-bind P call next h v e =
    let (x, first, rest) = >>=-eq-ok call next (sym e) in h x first v rest

pub fail_if-ok : (b : Bool) (e : Code) {u : Unit {0}} → fail_if b e ≡ ok u → b ≡ false
fail_if-ok b e h = ground arith

pub or_fail-ok {ℓ} :
    {A : Type ℓ} (o : Option A) (e : Code) {a : A} → or_fail o e ≡ ok a → o ≡ some a
or_fail-ok o e h = ground arith

pub deref-ok {ℓ} : {A : Type ℓ} (o : Option A) {a : A} → deref o ≡ ok a → o ≡ some a
deref-ok o h = ground arith

-- How a call ends.
pub Result-cases {ℓ} :
    {A : Type ℓ} (r : Result A) → ((a : A) × (r ≡ ok a)) ⊎ ((c : Code) × (r ≡ err c)) ⊎ (r ≡ panic)
Result-cases (ok a) = inl (a, refl)
Result-cases (err c) = inr (inl (c, refl))
Result-cases panic = inr (inr refl)
