-- ===== src/Errors.antt =====
-- errors.go: the error values of the package, and `errors.Is` on them. A message built by
-- `fmt.Errorf` is kept as its format's name and arguments; its wording is not modelled.
use libvirt_go.Prelude.{ℕ, String, [], Bool, true, false, Bytes, ◌≡◌, ◌⊎◌, inl, inr, refl}
use libvirt_go.Prelude.Int.{ℤ, pos, eqb_ℤ}

-- The struct `Error`, a copy of libvirt's error record.
pub record Error : Type 0 where
  pub operation : String
  pub code : ℤ
  pub domain : ℤ
  pub level : ℤ
  pub message : Bytes

-- `Error{Operation: operation}`
abbrev pub bare_error : String → Error
bare_error op = record { operation = op; code = pos 0; domain = pos 0; level = pos 0; message = [] }

pub data GoError : Type 0 where
  -- fmt.Errorf("%w: kind", ErrClosed)
  closed : String → GoError
  -- fmt.Errorf("libvirt: %s: %w", field, ErrEmbeddedNUL)
  embedded_nul : String → GoError
  -- &SymbolUnavailableError{Symbol, Since}
  symbol_unavailable : String → String → GoError
  libvirt_error : Error → GoError
  stream_would_block eof : GoError
  -- the plain messages, by their arguments
  negative_count : ℤ → GoError
  unknown_type : ℤ → Bytes → GoError
  too_many : ℕ → GoError
  invalid_field : Bytes → GoError
  value_expected : Bytes → String → GoError
  overflows : Bytes → String → GoError
  unsupported_type : ℤ → GoError
  allocation_failed : String → GoError
  count_changed : ℤ → ℤ → GoError
  job_field_type : Bytes → GoError
  nil_storage : String → ℤ → GoError
  invalid_stats_record : ℤ → GoError
  argument_too_large : String → GoError
  other_error : String → GoError

-- What `errors.Is` is asked for: a sentinel of the package, or an `ErrorNumber`.
pub data Target : Type 0 where
  err_closed err_embedded_nul err_library_not_found : Target
  err_symbol_unavailable err_stream_would_block err_unsupported_platform io_eof : Target
  error_number : ℤ → Target

-- `func (e Error) Is(target error) bool`
unfoldable pub error_is : Error → Target → Bool
error_is e (error_number n) = eqb_ℤ e.code n
error_is e _ = false

-- `errors.Is(err, target)`: the chain of `Unwrap`, and `Error.Is`.
unfoldable pub errors_is : GoError → Target → Bool
unfolding error_is
errors_is (closed kind) err_closed = true
errors_is (embedded_nul field) err_embedded_nul = true
errors_is (symbol_unavailable symbol since) err_symbol_unavailable = true
errors_is (libvirt_error e) target = error_is e target
errors_is stream_would_block err_stream_would_block = true
errors_is eof io_eof = true
errors_is _ _ = false

-- A pair `(value, error)` of Go of which the value is used only without an error.
pub data Result {ℓ} (A : Type ℓ) : Type ℓ where
  ok : A → Result A
  err : GoError → Result A

infixl 5 ◌>>=◌
abbrev pub ◌>>=◌ {ℓ κ} : {A : Type ℓ} {B : Type κ} → Result A → (A → Result B) → Result B
ok a >>= f = f a
err e >>= f = err e

pub Result-cases {ℓ} :
    {A : Type ℓ} (r : Result A) → ((a : A) × (r ≡ ok a)) ⊎ ((e : GoError) × (r ≡ err e))
Result-cases (ok a) = inl (a, refl)
Result-cases (err e) = inr (e, refl)
