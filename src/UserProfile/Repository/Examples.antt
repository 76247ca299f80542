-- ===== src/UserProfile/Repository/Examples.antt =====
-- A table with room for one profile.
use go_service_template.Common.{
  ℕ, ◌≡◌, refl, sym, ap, ◌∙◌, inl, inr, [], ◌∷◌, Option, none, some, Error, Sentinel, is, Result,
  ok, err, false, Bool-cases, ◌==◌, ==_iff, nat_eq, if◌then◌else◌,
}
use go_service_template.UserProfile.{UserProfile}
use go_service_template.UserProfile.Repository.{SqlxUserProfile, ProfileClient}
use go_service_template.UserProfile.Repository.Rows.{Got, ProfileTable}

abbrev World : Type 0
World = Option SqlxUserProfile

abbrev IsRow : SqlxUserProfile → World → Type 0
IsRow r w = w ≡ some r

abbrev no_rows : Error
no_rows = Error.sentinel Sentinel.no_rows

abbrev get : ℕ → World → Result SqlxUserProfile
get id none = err no_rows
get id (some r) = if r.id == id then ok r else err no_rows

abbrev client : ProfileClient ℕ World
client = record {
  build = λ q. none;
  get = λ c id w. (get id w, w);
  exec_upsert = λ c r w. (none, some r);
  exec_delete = λ c id w. (ok (ok 1), none);
  to_domain_user_profile =
      λ r. record { id = r.id; first_name = r.first_name; last_name = r.last_name };
}

same_row : (r q : SqlxUserProfile) → some r ≡ some q → r ≡ q
same_row r q h = cc

get-Got : (id : ℕ) (w : World) → Got IsRow id w (get id w)
get-Got id none = Got.no_rows no_rows refl (λ r h. cc)
get-Got id (some r) = elim (Bool-cases (r.id == id)) [
  | inl e ↦ rw (e) (Got.got r refl ((==_iff r.id id).0 e))
  | inr e ↦ rw (e) (
      Got.no_rows no_rows refl (λ q h i.
        let same : r.id ≡ id = ap (λ x. x.id) (same_row r q h) ∙ i in
        let known = (==_iff r.id id).1 same in cc))
]

abbrev answer : Option Error → World → Option Error × World
answer e w = (e, w)

abbrev counted : ℕ → World → Result (Result ℕ) × World
counted n w = (ok (ok n), w)

upserted : (r : SqlxUserProfile) (w : World) → answer none (some r) ≡ answer none w → IsRow r w
upserted r w h = sym (ap (λ x. x.1) h)

gone : (w w' : World) (n : ℕ) (r : SqlxUserProfile) → counted 1 none ≡ counted n w' → IsRow r w' → ⊥
gone w w' n r h i = let z : none ≡ w' = ap (λ x. x.1) h in cc

never_fails : (e : Error) → none ≡ some e → is e Sentinel.domain_user_profile_not_found ≡ false
never_fails e h = cc

abbrev table : ProfileTable client
table = record {
  Row = IsRow;
  ids_distinct = λ w r q hr hq i. same_row r q (sym hr ∙ hq);
  gets = λ c id w. get-Got id w;
  upserts = λ c r w w' h. upserted r w' h;
  deletes = λ c id w w' n h r i e. gone w w' n r h i;
  build_fails = λ q e h. never_fails e h;
  converts = λ p. refl;
}

abbrev profile : UserProfile
profile = record { id = 7; first_name = 97 ∷ []; last_name = 98 ∷ [] }
