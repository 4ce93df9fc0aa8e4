-- ===== src/Wrapper/ErrorProtocol.antt =====
-- include/co_usb/wrapper/error_protocol.hpp and concepts/error_protocol.hpp. A task is what it returns
-- when it is awaited.
pub mod Reports
use co_usb.Prelude.{◌⊎◌, inl, inr, Option, none, some}
use co_usb.Errors.{ErrorCode, no_error}

pub record ErrorProtocol : Type 1 where
  pub return_type : Type 0 → Type 0
  pub with_error : {U : Type 0} → ErrorCode → return_type U
  pub with_success : {U : Type 0} → U → return_type U

-- A function that may throw `std::system_error`.
pub data Exceptional (U : Type 0) : Type 0 where
  returned : U → Exceptional U
  system_error : ErrorCode → Exceptional U

unfoldable pub as_exception : ErrorProtocol
as_exception = record {
  return_type = Exceptional;
  with_error = λ ec. Exceptional.system_error ec;
  with_success = λ u. Exceptional.returned u;
}

-- With the value of the error code that it refers to.
unfoldable pub as_optional : ErrorProtocol
as_optional = record {
  return_type = λ U. Option U × ErrorCode;
  with_error = λ ec. (none, ec);
  with_success = λ u. (some u, no_error);
}

-- `std::expected`.
unfoldable pub as_expected : ErrorProtocol
as_expected = record {
  return_type = λ U. U ⊎ ErrorCode;
  with_error = λ ec. inr ec;
  with_success = λ u. inl u;
}

unfoldable pub as_results : ErrorProtocol
as_results = record {
  return_type = λ U. ErrorCode × Option U;
  with_error = λ ec. (ec, none);
  with_success = λ u. (no_error, some u);
}

unfoldable pub as_task : ErrorProtocol
as_task = record {
  return_type = λ U. ErrorCode × Option U;
  with_error = λ ec. (ec, none);
  with_success = λ u. (no_error, some u);
}
