-- ===== src/Auth/Stored.antt =====
-- The authentication in a context, of pkg/auth/context.go. The context is the value under its key, and
-- the program has one type of principals, so that the assertion of the type holds.
use go_service_template.Common.{Bool, Option, none, some, Error, Result, ok, err}
use go_service_template.Auth.{Principal, Authentication, is_authenticated}

-- The copy of a principal behind a pointer that may be nil.
abbrev pub copy_principal : Option Principal → Option Principal
copy_principal none = none
copy_principal (some p) = some p

unfoldable pub with_authentication : Option Authentication → Authentication → Option Authentication
with_authentication c a = some (record { principal = copy_principal a.principal })

unfoldable pub get_authentication : Option Authentication → Option Authentication
get_authentication none = none
get_authentication (some a) = some (record { principal = copy_principal a.principal })

-- `IsAuthenticated` of a context.
unfoldable pub is_context_authenticated : Option Authentication → Result Bool
unfolding is_authenticated
is_context_authenticated none = err (Error.message "authentication not found")
is_context_authenticated (some a) = ok (is_authenticated a)
