-- ===== src/Auth/Permissions/Laws.antt =====
-- Which principals the permissions let pass, and that a filter agrees with the check of each id.
use mathlib.Core.Path.{subst}
use go_service_template.Common.{
  Bool, true, false, ◌&&◌, ◌≡◌, refl, sym, ap, ◌∙◌, Option, none, some, String, List, [], ◌∷◌, ◌==◌,
  nat_eq, arith, Error, Result, ok, err,
}
use go_service_template.Common.Assoc.{contains}
use go_service_template.Message.{Uuid}
use go_service_template.Auth.{
  Principal, Authentication, Token, authenticate, token_type, principal_type, check, check_allowed,
  filter, switch_fields,
}
use go_service_template.Auth.Permissions.{
  can_read_user, can_read_user_filter, can_delete_user, principal_can_read, principal_filter,
  principal_can_change, find_own,
}

ok-injective {ℓ} : {A : Type ℓ} {a b : A} → ok a ≡ ok b → a ≡ b
ok-injective h = cc

contains-find_own :
    (own id : Uuid) (ids : List Uuid)
    → contains id (find_own own ids) ≡ (contains id ids && own == id)
unfolding contains find_own
contains-find_own own id [] = refl
contains-find_own own id (i ∷ ids) = ground (arith, contains-find_own own id ids)

and_true : (b : Bool) → b ≡ (b && true)
and_true true = refl
and_true false = refl

and_false : (b : Bool) → false ≡ (b && false)
and_false true = refl
and_false false = refl

contains-switch :
    (ids : List Uuid) (id : Uuid) (u : Option Uuid) (a s : Option String)
    → contains id (switch_fields u a s (λ own. find_own own ids) (λ _. ids) (λ _. ids) [])
      ≡ (contains id ids && switch_fields u a s (λ own. own == id) (λ _. true) (λ _. true) false)
unfolding contains
contains-switch ids id (some own) a s = contains-find_own own id ids
contains-switch ids id none (some a) s = and_true (contains id ids)
contains-switch ids id none none (some s) = and_true (contains id ids)
contains-switch ids id none none none = and_false (contains id ids)

contains-principal_filter :
    (ids : List Uuid) (id : Uuid) (p : Option Principal)
    → contains id (principal_filter ids p) ≡ (contains id ids && principal_can_read id p)
unfolding principal_filter principal_can_read contains
contains-principal_filter ids id none = and_false (contains id ids)
contains-principal_filter ids id (some p) =
    contains-switch ids id p.user_id p.admin_user_id p.service_name

-- Whether a check passed, and whether a filter returned an id.
abbrev pub passed : Option Error → Bool
passed none = true
passed (some e) = false

abbrev pub returned : Uuid → Result (List Uuid) → Bool
returned id (ok ids) = contains id ids
returned id (err e) = false

passed-check_allowed : (b : Bool) → passed (check_allowed (ok b)) ≡ b
unfolding check_allowed
passed-check_allowed true = refl
passed-check_allowed false = refl

-- An id is returned by `Filter` with `CanReadUserFilter` if and only if it is among the given ids
-- and `Check` with `CanReadUser` passes it, whoever is authenticated, if anyone.
pub filter-can_read_user :
    (a : Option Authentication) (ids : List Uuid) (id : Uuid)
    → returned id (filter a (can_read_user_filter ids))
      ≡ (contains id ids && passed (check a (can_read_user id)))
unfolding filter check can_read_user_filter can_read_user
filter-can_read_user none ids id = and_false (contains id ids)
filter-can_read_user (some a) ids id =
    contains-principal_filter ids id a.principal
    ∙ ap (λ b. contains id ids && b)
        (sym (passed-check_allowed (principal_can_read id a.principal)))

switch-weaker :
    (id : Uuid) (u : Option Uuid) (a s : Option String)
    → switch_fields u a s (λ own. own == id) (λ _. true) (λ _. false) false ≡ true
    → switch_fields u a s (λ own. own == id) (λ _. true) (λ _. true) false ≡ true
switch-weaker id (some own) a s h = h
switch-weaker id none (some a) s h = refl
switch-weaker id none none (some s) h = refl
switch-weaker id none none none h = h

principal_can_read_changed :
    (id : Uuid) (p : Option Principal)
    → principal_can_change id p ≡ true
    → principal_can_read id p ≡ true
unfolding principal_can_change principal_can_read
principal_can_read_changed id none h = h
principal_can_read_changed id (some p) h =
    switch-weaker id p.user_id p.admin_user_id p.service_name h

-- Whoever passes `Check` with `CanDeleteUser` passes it with `CanReadUser`.
pub check-can_read_user :
    (a : Option Authentication) (id : Uuid)
    → passed (check a (can_delete_user id)) ≡ true
    → passed (check a (can_read_user id)) ≡ true
unfolding check can_delete_user can_read_user
check-can_read_user none id h = h
check-can_read_user (some a) id h =
    passed-check_allowed (principal_can_read id a.principal)
    ∙ principal_can_read_changed id a.principal
        (sym (passed-check_allowed (principal_can_change id a.principal)) ∙ h)

-- The principal of an authentication has a type.
abbrev pub HasType : Token → Authentication → Type 0
HasType t a = (p : Principal) × (a.principal ≡ some p) × (principal_type p ≡ token_type t)

-- The principal that `Authenticate` makes of a token has the token's type, if it accepts the token.
pub authenticate-principal_type :
    (t : Token) (a : Authentication) → authenticate t ≡ ok a → HasType t a
unfolding authenticate principal_type token_type
authenticate-principal_type (Token.user_id_token id) a h =
    subst (HasType (Token.user_id_token id)) (ok-injective h) (_, refl, refl)
authenticate-principal_type (Token.admin_user_id_token id) a h =
    subst (HasType (Token.admin_user_id_token id)) (ok-injective h) (_, refl, refl)
authenticate-principal_type (Token.service_name_token id) a h =
    subst (HasType (Token.service_name_token id)) (ok-injective h) (_, refl, refl)
authenticate-principal_type (Token.other_token t) a h = cc
