-- ===== src/Http.antt =====
-- The results of the handlers: `Result<T, (StatusCode, String)>`, with its `?` as a bind.
use wavvon_server.Base.{◌≡◌, refl, String, Bool, true, false, ◌⊎◌, inl, inr}

-- The status codes that the modelled code answers with.
pub data StatusCode : Type 0 where
  bad_request forbidden not_found conflict gone internal_server_error : StatusCode

pub record ApiError : Type 0 where
  pub status : StatusCode
  pub message : String

pub data Result {ℓ} (A : Type ℓ) : Type ℓ where
  ok : A → Result A
  err : ApiError → Result A

-- `return Err((status, message))`
abbrev pub fail {ℓ} : {A : Type ℓ} → StatusCode → String → Result A
fail s m = err (record { status = s; message = m })

-- `if !b { return Err((status, message)) }`
abbrev pub guard : Bool → StatusCode → String → Result (Unit {0})
guard true s m = ok tt
guard false s m = fail s m

-- Success, as a test.
abbrev pub is_ok {ℓ} : {A : Type ℓ} → Result A → Bool
is_ok (ok a) = true
is_ok (err e) = false

pub Result-cases {ℓ} :
    {A : Type ℓ} (r : Result A) → ((a : A) × (r ≡ ok a)) ⊎ ((e : ApiError) × (r ≡ err e))
Result-cases (ok a) = inl (a, refl)
Result-cases (err e) = inr (e, refl)

-- The operator `?`: the rest of a handler is not run behind an error.
infixl 5 ◌>>=◌ ◌>>◌
abbrev pub ◌>>=◌ {ℓ κ} : {A : Type ℓ} {B : Type κ} → Result A → (A → Result B) → Result B
err failure >>= rest = err failure
ok value >>= rest = rest value

-- A check before the rest.
abbrev pub ◌>>◌ {ℓ} : {B : Type ℓ} → Result (Unit {0}) → Result B → Result B
err failure >> rest = err failure
ok tt >> rest = rest

-- What a chain of checks that succeeds says of its first check, and of the rest.
pub then-ok {ℓ} :
    {B : Type ℓ} (check : Result (Unit {0})) (rest : Result B) {answer : B}
    → (check >> rest) ≡ ok answer
    → (check ≡ ok tt) × (rest ≡ ok answer)
then-ok (ok tt) rest h = (refl, h)
then-ok (err x) rest h = cc

-- The same of a step whose value the rest takes.
pub bind-ok {ℓ κ} :
    {A : Type ℓ} (step : Result A) {B : Type κ} (rest : A → Result B) {answer : B}
    → (step >>= rest) ≡ ok answer
    → (value : A) × (step ≡ ok value) × (rest value ≡ ok answer)
bind-ok (ok value) rest h = (value, refl, h)
bind-ok (err x) rest h = cc

pub guard-ok : (b : Bool) (s : StatusCode) (m : String) → guard b s m ≡ ok tt → b ≡ true
guard-ok true s m h = refl
guard-ok false s m h = cc
