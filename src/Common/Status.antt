-- ===== src/Common/Status.antt =====
-- include/photobridge/common/status.h and status_or.h. An OK status is `ok tt`; `StatusOr<T>` is
-- `Result T`. A `StatusOr` never holds an OK status without a value, which its constructor sees to.
use photobridge.Base.{Bool, String, ap, false, inl, inr, refl, true, ◌≡◌, ◌⊎◌}

pub data Code : Type 0 where
  invalid_argument not_found already_exists permission_denied io_error internal : Code

pub record Error : Type 0 where
  pub code : Code
  pub message : String

pub data Result {ℓ} (T : Type ℓ) : Type ℓ where
  ok : T → Result T
  err : Error → Result T

abbrev pub Status : Type 0
Status = Result (Unit {0})

infixl 5 ◌>>=◌ ◌>>◌
abbrev pub ◌>>=◌ {ℓ κ} : {S : Type ℓ} {T : Type κ} → Result S → (S → Result T) → Result T
err failure >>= next = err failure
ok value >>= next = next value

abbrev pub ◌>>◌ {ℓ} : {T : Type ℓ} → Status → Result T → Result T
m >> k = m >>= λ _. k

-- Status(code, message) as the value of a fallible function
abbrev pub fail {ℓ} : {A : Type ℓ} → Code → String → Result A
fail c m = err (record { code = c; message = m })

-- `if (test) return Status(code, message);`
abbrev pub reject_if : Bool → Code → String → Status
reject_if true c m = fail c m
reject_if false c m = ok tt

abbrev pub is_ok {ℓ} : {A : Type ℓ} → Result A → Bool
is_ok (ok a) = true
is_ok (err e) = false

pub Result-cases {ℓ} :
    {A : Type ℓ} (r : Result A) → ((a : A) × (r ≡ ok a)) ⊎ ((e : Error) × (r ≡ err e))
Result-cases (ok a) = inl (a, refl)
Result-cases (err e) = inr (e, refl)

-- Both steps of a successful chain succeeded.
pub bind_ok {ℓ κ} :
    {S : Type ℓ} {T : Type κ} (first : Result S) (next : S → Result T) {t : T}
    → (first >>= next) ≡ ok t
    → (x : S) × (first ≡ ok x) × (next x ≡ ok t)
bind_ok (err e) next h = cc
bind_ok (ok x) next h = (x, refl, h)

pub ok_injective {ℓ} : {A : Type ℓ} {a b : A} → Result.ok a ≡ ok b → a ≡ b
ok_injective h = cc

-- A chain failed in its first step, or after it.
pub bind_err {ℓ κ} :
    {A : Type ℓ} {B : Type κ} (m : Result A) (f : A → Result B) {e : Error}
    → (m >>= f) ≡ err e
    → (m ≡ err e) ⊎ ((a : A) × (m ≡ ok a) × (f a ≡ err e))
bind_err (ok a) f h = inr (a, refl, h)
bind_err (err x) f h = inl (let q : x ≡ _ = cc in ap err q)
