-- ===== src/Common/Errors.antt =====
-- Go's `error` values. A nil error is `none`; the formatted text of an error is kept as its
-- format string, without the values put into it.
use Prim.Native.Nat.{ℕ}
use Prim.Native.String.{String}
use mathlib.Core.Bool.{Bool, false, ◌||◌}
use mathlib.Core.Option.{Option, none, some}
use go_service_template.Common.Tests.{nat_beq}

-- The package-level error variables that the code compares with `errors.Is`.
pub data Sentinel : Type 0 where
  negative_ack_not_supported deserialize_unknown_message idk_already_inserted : Sentinel
  unauthenticated permission_denied parsing_error : Sentinel
  domain_user_not_found user_not_found user_profile_not_found : Sentinel
  invalid_user_credentials user_is_already_deleted user_already_exists : Sentinel
  domain_user_profile_not_found invalid_user_profile_data invalid_token : Sentinel
  client_user_not_found profile_user_not_found no_rows : Sentinel
  canceled deadline_exceeded : Sentinel

abbrev index : Sentinel → ℕ
index negative_ack_not_supported = 0
index deserialize_unknown_message = 1
index idk_already_inserted = 2
index unauthenticated = 3
index permission_denied = 4
index parsing_error = 5
index domain_user_not_found = 6
index user_not_found = 7
index user_profile_not_found = 8
index invalid_user_credentials = 9
index user_is_already_deleted = 10
index user_already_exists = 11
index domain_user_profile_not_found = 12
index invalid_user_profile_data = 13
index invalid_token = 14
index client_user_not_found = 15
index profile_user_not_found = 16
index no_rows = 17
index canceled = 18
index deadline_exceeded = 19

pub data Error : Type 0 where
  sentinel : Sentinel → Error  -- a package-level variable
  external : ℕ → Error  -- an error of code that is not modelled
  message : String → Error  -- errors.New or fmt.Errorf with no %w
  wrap : String → Error → Error  -- fmt.Errorf with one %w
  wrap_both : String → Error → Error → Error  -- fmt.Errorf with two %w

-- errors.Is(err, target), for a target that is a package-level variable.
abbrev pub is : Error → Sentinel → Bool
is (sentinel s) t = nat_beq (index s) (index t)
is (external _) t = false
is (message _) t = false
is (wrap _ e) t = is e t
is (wrap_both _ e f) t = is e t || is f t

-- errors.Is on an error that may be nil.
abbrev pub is? : Option Error → Sentinel → Bool
is? none t = false
is? (some e) t = is e t

-- What a Go function with results `(A, error)` returns: the value counts when the error is nil.
pub data Result {ℓ} (A : Type ℓ) : Type ℓ where
  ok : A → Result A
  err : Error → Result A
