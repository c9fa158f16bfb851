-- ===== src/Errors.antt =====
-- Go error values as the reconcilers build and test them: internal/errors/errors.go, `fmt.Errorf`
-- with and without `%w`, `errors.Join`, and the errors that the API server's client and the driver
-- return. A formatted message is kept as its format string with the arguments.
pub mod Laws
use cosi.Base.{String, Bool, true, false, List, [], ◌∷◌, if◌then◌else◌}

-- How `kerrors` classifies an error of the API server's client.
pub data Reason : Type 0 where
  not_found already_exists other_reason : Reason

-- The codes of gRPC. `status.Code` gives `unknown` for an error that is no gRPC status.
pub data Code : Type 0 where
  canceled unknown invalid_argument deadline_exceeded grpc_not_found grpc_already_exists : Code
  permission_denied resource_exhausted failed_precondition aborted out_of_range : Code
  unimplemented internal unavailable data_loss unauthenticated : Code

mutual
  pub data Error : Type 0 where
    api_error : Reason → String → Error
    rpc_error : Code → String → Error
    -- `fmt.Errorf` that wraps nothing: the format and its arguments.
    errorf : String → List String → Error
    -- `fmt.Errorf` with `%w`.
    wrapf : String → List String → Error → Error
    joined : Errors → Error
    non_retryable_error : Error → Error

  pub data Errors : Type 0 where
    no_errors : Errors
    more_errors : Error → Errors → Errors

-- `errors.Join(errs...)`
unfoldable pub join : List Error → Errors
join [] = no_errors
join (e ∷ es) = more_errors e (join es)

-- `errors.Is(err, cosierr.NonRetryableError(nil))`: the tree of wrapped errors holds a
-- `nonRetryableError`.
unfoldable mutual
  pub is_non_retryable : Error → Bool
  is_non_retryable (api_error r s) = false
  is_non_retryable (rpc_error c s) = false
  is_non_retryable (errorf f args) = false
  is_non_retryable (wrapf f args e) = is_non_retryable e
  is_non_retryable (joined es) = any_non_retryable es
  is_non_retryable (non_retryable_error e) = true

  pub any_non_retryable : Errors → Bool
  any_non_retryable no_errors = false
  any_non_retryable (more_errors e es) = if is_non_retryable e then true else any_non_retryable es

-- A Go pair `(value, error)` of which one part is used.
pub data Result {ℓ} (A : Type ℓ) : Type ℓ where
  ok : A → Result A
  err : Error → Result A

-- `if len(errs) > 0 { return nil, fmt.Errorf(format, errors.Join(errs...)) }; return a, nil`
unfoldable pub settle {ℓ} : {A : Type ℓ} → String → A → List Error → Result A
unfolding join
settle format a [] = ok a
settle format a (e ∷ es) = err (wrapf format [] (joined (join (e ∷ es))))

unfoldable pub fail_if_any : String → List Error → Result (Unit {0})
unfolding settle
fail_if_any format errs = settle format tt errs
