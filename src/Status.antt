-- ===== src/Status.antt =====
-- iouring/status.h: `StatusCode` and `Status`. `strerror` of the C library is an argument. The
-- error numbers are those of Linux.
use Prim.Native.String.{String}
use iouring_cc.Common.{ℕ, ◌==◌, ◌≡◌, ◌≢◌, refl, Bool, true, false, if◌then◌else◌, arith}
use iouring_cc.Common.Int.{ℤ, pos, negsuc, eqb_ℤ, ltb_ℤ, neg_ℤ}

-- `enum class StatusCode`.
pub data StatusCode : Type 0 where
  ok cancelled unknown invalid_argument deadline_exceeded not_found already_exists permission_denied
        resource_exhausted failed_precondition aborted out_of_range unimplemented internal
        unavailable data_loss unauthenticated closed unimplemented2 :
      StatusCode

-- The number of a code.
unfoldable pub to_int : StatusCode → ℕ
to_int ok = 0
to_int cancelled = 1
to_int unknown = 2
to_int invalid_argument = 3
to_int deadline_exceeded = 4
to_int not_found = 5
to_int already_exists = 6
to_int permission_denied = 7
to_int resource_exhausted = 8
to_int failed_precondition = 9
to_int aborted = 10
to_int out_of_range = 11
to_int unimplemented = 12
to_int internal = 13
to_int unavailable = 14
to_int data_loss = 15
to_int unauthenticated = 16
to_int closed = 100
to_int unimplemented2 = 101

-- `==` on codes, which compares their numbers.
unfoldable pub code_eq : StatusCode → StatusCode → Bool
unfolding to_int
code_eq a b = to_int a == to_int b

pub record Status : Type 0 where
  pub code : StatusCode
  pub error_message : String
  pub error_details : String

unfoldable pub from_args : StatusCode → String → Status
from_args c m = record { code = c; error_message = m; error_details = "" }

unfoldable pub from_args_details : StatusCode → String → String → Status
from_args_details c m d = record { code = c; error_message = m; error_details = d }

unfoldable pub ok_status : Status
ok_status = record { code = ok; error_message = ""; error_details = "" }

-- `Status::Ok`.
unfoldable pub is_ok : Status → Bool
unfolding code_eq
is_ok s = code_eq s.code ok

unfoldable pub get_error_message : Status → String
unfolding is_ok
get_error_message s = if is_ok s then "" else s.error_message

unfoldable pub get_error_details : Status → String
unfolding is_ok
get_error_details s = if is_ok s then "" else s.error_details

unfoldable pub aborted_error : String → Status
unfolding from_args
aborted_error m = from_args aborted m

unfoldable pub already_exists_error : String → Status
unfolding from_args
already_exists_error m = from_args already_exists m

unfoldable pub cancelled_error : String → Status
unfolding from_args
cancelled_error m = from_args cancelled m

unfoldable pub data_loss_error : String → Status
unfolding from_args
data_loss_error m = from_args data_loss m

unfoldable pub deadline_exceeded_error : String → Status
unfolding from_args
deadline_exceeded_error m = from_args deadline_exceeded m

unfoldable pub failed_precondition_error : String → Status
unfolding from_args
failed_precondition_error m = from_args failed_precondition m

unfoldable pub internal_error : String → Status
unfolding from_args
internal_error m = from_args internal m

unfoldable pub invalid_argument_error : String → Status
unfolding from_args
invalid_argument_error m = from_args invalid_argument m

unfoldable pub not_found_error : String → Status
unfolding from_args
not_found_error m = from_args not_found m

unfoldable pub out_of_range_error : String → Status
unfolding from_args
out_of_range_error m = from_args out_of_range m

unfoldable pub permission_denied_error : String → Status
unfolding from_args
permission_denied_error m = from_args permission_denied m

unfoldable pub resource_exhausted_error : String → Status
unfolding from_args
resource_exhausted_error m = from_args resource_exhausted m

unfoldable pub unauthenticated_error : String → Status
unfolding from_args
unauthenticated_error m = from_args unauthenticated m

unfoldable pub unavailable_error : String → Status
unfolding from_args
unavailable_error m = from_args unavailable m

unfoldable pub unimplemented_error : String → Status
unfolding from_args
unimplemented_error m = from_args unimplemented m

unfoldable pub unknown_error : String → Status
unfolding from_args
unknown_error m = from_args unknown m

unfoldable pub is_aborted : Status → Bool
unfolding code_eq
is_aborted s = code_eq s.code aborted

unfoldable pub is_already_exists : Status → Bool
unfolding code_eq
is_already_exists s = code_eq s.code already_exists

unfoldable pub is_cancelled : Status → Bool
unfolding code_eq
is_cancelled s = code_eq s.code cancelled

unfoldable pub is_data_loss : Status → Bool
unfolding code_eq
is_data_loss s = code_eq s.code data_loss

unfoldable pub is_deadline_exceeded : Status → Bool
unfolding code_eq
is_deadline_exceeded s = code_eq s.code deadline_exceeded

unfoldable pub is_failed_precondition : Status → Bool
unfolding code_eq
is_failed_precondition s = code_eq s.code failed_precondition

unfoldable pub is_internal : Status → Bool
unfolding code_eq
is_internal s = code_eq s.code internal

unfoldable pub is_invalid_argument : Status → Bool
unfolding code_eq
is_invalid_argument s = code_eq s.code invalid_argument

unfoldable pub is_not_found : Status → Bool
unfolding code_eq
is_not_found s = code_eq s.code not_found

unfoldable pub is_out_of_range : Status → Bool
unfolding code_eq
is_out_of_range s = code_eq s.code out_of_range

unfoldable pub is_permission_denied : Status → Bool
unfolding code_eq
is_permission_denied s = code_eq s.code permission_denied

unfoldable pub is_resource_exhausted : Status → Bool
unfolding code_eq
is_resource_exhausted s = code_eq s.code resource_exhausted

unfoldable pub is_unauthenticated : Status → Bool
unfolding code_eq
is_unauthenticated s = code_eq s.code unauthenticated

unfoldable pub is_unavailable : Status → Bool
unfolding code_eq
is_unavailable s = code_eq s.code unavailable

unfoldable pub is_unimplemented : Status → Bool
unfolding code_eq
is_unimplemented s = code_eq s.code unimplemented

unfoldable pub is_unknown : Status → Bool
unfolding code_eq
is_unknown s = code_eq s.code unknown

abbrev pub einval : ℤ
einval = pos 22

abbrev pub enodev : ℤ
enodev = pos 19

abbrev pub enoent : ℤ
enoent = pos 2

-- `ErrnoToStatusCode`.
unfoldable pub errno_to_status_code : ℤ → StatusCode
errno_to_status_code e =
    if eqb_ℤ e (pos 0)
    then ok
    else if eqb_ℤ e einval
    then invalid_argument
    else if eqb_ℤ e enodev
    then not_found
    else if eqb_ℤ e enoent
    then not_found
    else unknown

-- `ErrnoToStatus`, with `strerror` as its first argument.
unfoldable pub errno_to_status : (ℤ → String) → ℤ → String → Status
unfolding from_args_details errno_to_status_code
errno_to_status strerror e m = from_args_details (errno_to_status_code e) m (strerror e)

-- The status of a failed kernel call, which returned `-errno`, is no success, and none that the
-- registration of a file gives by itself.
pub errno_failed :
    (strerror : ℤ → String) (ret : ℤ) (m : String)
    → ltb_ℤ ret (pos 0) ≡ true
    → (is_ok (errno_to_status strerror (neg_ℤ ret) m) ≡ false)
      × ((errno_to_status strerror (neg_ℤ ret) m).code ≢ already_exists)
      × ((errno_to_status strerror (neg_ℤ ret) m).code ≢ resource_exhausted)
unfolding errno_to_status is_ok
errno_failed strerror (pos n) m h = absurd (ground arith)
errno_failed strerror (negsuc n) m h = ground arith

pub is_ok-ok_status : is_ok ok_status ≡ true
unfolding is_ok ok_status
is_ok-ok_status = refl

pub code_of_is_ok : (s : Status) → is_ok s ≡ true → s.code ≡ ok
unfolding is_ok
code_of_is_ok s h = ground arith
