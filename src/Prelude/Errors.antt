-- ===== src/Prelude/Errors.antt =====
-- Python exceptions as values (src/error.rs names the classes), and the chains of `?`.
use Prim.Native.String.{String}
use mathlib.Core.Path.{◌≡◌, refl}
use mathlib.Core.Option.{Option, none, some}

-- The class of an exception; `raised` is one that code outside the library throws, and `panic` a
-- Rust panic, which pyo3 turns into a `PanicException`.
pub data ErrKind : Type 0 where
  value_error type_error runtime_error key_error io_error stop_iteration stop_async_iteration
        request_error tls_error proxy_error http_status_error connection_error timeout_error
        too_many_redirects_error resource_limit_error json_decode_error raised panic :
      ErrKind

pub record PyErr : Type 0 where
  pub kind : ErrKind
  pub message : String

pub data PyResult {ℓ} (A : Type ℓ) : Type ℓ where
  err : PyErr → PyResult A
  ok : A → PyResult A

abbrev pub error_kind {ℓ} : {A : Type ℓ} → PyResult A → Option ErrKind
error_kind (err raise) = some raise.kind
error_kind (ok value) = none

-- What the constructors of the exception classes make.
abbrev pub new_err {ℓ} : {A : Type ℓ} → ErrKind → String → PyResult A
new_err class message = err (record { kind = class; message = message })

pub ok_inj {ℓ} : {A : Type ℓ} {a b : A} → ok a ≡ ok b → a ≡ b
ok_inj e = cc

-- `?`: the rest runs on the value, and an exception passes through.
module _ {κ} {B : Type κ} where
  infixl 5 ◌>>=◌ ◌>>◌
  abbrev pub ◌>>=◌ {ℓ} : {A : Type ℓ} → PyResult A → (A → PyResult B) → PyResult B
  err raise >>= rest = err raise
  ok value >>= rest = rest value

  abbrev pub ◌>>◌ : PyResult (Unit {0}) → PyResult B → PyResult B
  first >> rest = first >>= (λ value. rest)

  pub >>=-eq-ok {ℓ} :
      {A : Type ℓ} (first : PyResult A) (rest : A → PyResult B) {result : B}
      → (first >>= rest) ≡ ok result
      → (value : A) × (first ≡ ok value) × (rest value ≡ ok result)
  >>=-eq-ok (err raise) rest e = cc
  >>=-eq-ok (ok value) rest e = (value, refl, e)
