-- ===== src/Core/Errors.antt =====
-- app/core/errors.py, with `TransientJobError` of app/jobs/handlers.py: a raised exception is a value.
use async_job_processing_pip.Prelude.{ℕ, String, ◌≡◌, refl, ◌⊎◌, inl, inr}
use async_job_processing_pip.Core.Json.{Payload, empty}

pub record ServiceError : Type 0 where
  pub code : String
  pub message : String
  pub status_code : ℕ
  pub details : Payload

unfoldable pub not_found_error : String → ServiceError
not_found_error m = record { code = "not_found"; message = m; status_code = 404; details = empty }

unfoldable pub conflict_error : String → Payload → ServiceError
conflict_error m d = record { code = "conflict"; message = m; status_code = 409; details = d }

unfoldable pub bad_request_error : String → Payload → ServiceError
bad_request_error m d = record { code = "bad_request"; message = m; status_code = 400; details = d }

unfoldable pub dependency_unavailable_error : String → Payload → ServiceError
dependency_unavailable_error m d = record {
  code = "dependency_unavailable";
  message = m;
  status_code = 503;
  details = d;
}

-- What the program raises, or lets through: `integrity_error` is SQLAlchemy's `IntegrityError`,
-- `builtin_error` one of Python's own classes, by its name, with its message.
pub data Raised : Type 0 where
  service_error : ServiceError → Raised
  transient_job_error : String → Raised
  integrity_error : Raised
  builtin_error : String → String → Raised

pub data Result {ℓ} (A : Type ℓ) : Type ℓ where
  ok : A → Result A
  err : Raised → Result A

-- A raised exception ends the calls that follow.
infixl 5 ◌>>=◌ ◌>>◌
abbrev pub ◌>>=◌ {ℓ κ} : {A : Type ℓ} {B : Type κ} → Result A → (A → Result B) → Result B
ok value >>= next = next value
err raised >>= next = err raised

abbrev pub ◌>>◌ {ℓ κ} : {A : Type ℓ} {B : Type κ} → Result A → Result B → Result B
first >> second = first >>= λ _. second

abbrev pub raise {ℓ} : {A : Type ℓ} → ServiceError → Result A
raise x = err (service_error x)

pub >>=-eq-ok {ℓ κ} :
    {A : Type ℓ} {B : Type κ} (first : Result A) (next : A → Result B) {answer : B}
    → (first >>= next) ≡ ok answer
    → (value : A) × (first ≡ ok value) × (next value ≡ ok answer)
>>=-eq-ok (ok value) next same = (value, refl, same)
>>=-eq-ok (err raised) next same = cc

abbrev pub value_error : String → Raised
value_error m = builtin_error "ValueError" m

abbrev pub key_error : Raised
key_error = builtin_error "KeyError" ""

abbrev pub index_error : Raised
index_error = builtin_error "IndexError" "list index out of range"

pub Result-cases :
    {A : Type 0} (r : Result A) → ((a : A) × (r ≡ ok a)) ⊎ ((x : Raised) × (r ≡ err x))
Result-cases (ok a) = inl (a, refl)
Result-cases (err x) = inr (x, refl)
