-- ===== src/Wrapper/ErrorProtocol/Reports.antt =====
-- What a client can tell from a protocol's result: the error or the value.
use co_usb.Prelude.{◌≡◌, refl, ◌⊎◌, inl, inr, Option, none, some}
use co_usb.Errors.{ErrorCode}
use co_usb.Wrapper.ErrorProtocol.{
  ErrorProtocol, Exceptional, as_exception, as_optional, as_expected, as_results, as_task,
}

-- A reading of a protocol's results, which gives back what was reported.
pub record Reports (p : ErrorProtocol) : Type 1 where
  pub read : {U : Type 0} → p.return_type U → ErrorCode ⊎ U
  pub read-with_error : {U : Type 0} (ec : ErrorCode) → read (p.with_error {U = U} ec) ≡ inl ec
  pub read-with_success : {U : Type 0} (u : U) → read (p.with_success u) ≡ inr u

read_exception : {U : Type 0} → Exceptional U → ErrorCode ⊎ U
read_exception (Exceptional.returned u) = inr u
read_exception (Exceptional.system_error ec) = inl ec

read_pair : {U : Type 0} → Option U → ErrorCode → ErrorCode ⊎ U
read_pair none ec = inl ec
read_pair (some u) ec = inr u

read_expected : {U : Type 0} → U ⊎ ErrorCode → ErrorCode ⊎ U
read_expected (inl u) = inr u
read_expected (inr ec) = inl ec

pub as_exception_reports : Reports as_exception
unfolding as_exception read_exception
as_exception_reports = record {
  read = λ x. read_exception x;
  read-with_error = λ ec. refl;
  read-with_success = λ u. refl;
}

pub as_optional_reports : Reports as_optional
unfolding as_optional read_pair
as_optional_reports = record {
  read = λ x. read_pair x.0 x.1;
  read-with_error = λ ec. refl;
  read-with_success = λ u. refl;
}

pub as_expected_reports : Reports as_expected
unfolding as_expected read_expected
as_expected_reports = record {
  read = λ x. read_expected x;
  read-with_error = λ ec. refl;
  read-with_success = λ u. refl;
}

pub as_results_reports : Reports as_results
unfolding as_results read_pair
as_results_reports = record {
  read = λ x. read_pair x.1 x.0;
  read-with_error = λ ec. refl;
  read-with_success = λ u. refl;
}

pub as_task_reports : Reports as_task
unfolding as_task read_pair
as_task_reports = record {
  read = λ x. read_pair x.1 x.0;
  read-with_error = λ ec. refl;
  read-with_success = λ u. refl;
}
