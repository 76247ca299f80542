-- ===== src/Observability/Laws.antt =====
-- What is read in a context after a field has been written.
use go_service_template.Common.{
  ◌≡◌, refl, ap, inl, inr, String, string_eq, ◌==◌, if◌then◌else◌, Bool-cases,
}
use go_service_template.Common.Assoc.{lookup-insert}
use go_service_template.Observability.{
  Field, Context, ObserverConfig, field_of, set_field, put_field, text_of,
}

field_of-put_field :
    (o : ObserverConfig) (c : Context) (f g : Field) (value : String)
    → field_of (put_field o c g value) f ≡ (if g == f then value else field_of c f)
unfolding field_of put_field
field_of-put_field o c f g value = elim (Bool-cases (g == f)) [
  | inl h ↦ rw h (ap text_of (rw h at (lookup-insert g f value c.values)))
  | inr h ↦ rw h (ap text_of (rw h at (lookup-insert g f value c.values)))
]

pub field_of-set_field :
    (o : ObserverConfig) (c : Context) (f g : Field) (value : String)
    → field_of (set_field o c g value) f
      ≡ (if value == "" then field_of c f else if g == f then value else field_of c f)
unfolding set_field
field_of-set_field o c f g value = elim (Bool-cases (value == "")) [
  | inl e ↦ rw (e) refl
  | inr e ↦ rw (e) (field_of-put_field o c f g value)
]
