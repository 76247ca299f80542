-- ===== src/Message/Observability/Collected.antt =====
-- What the metadata of a produced message holds of the fields in the producer's context.
use text.Mathlib.TextLemmas.{append_cancel_left}
use go_service_template.Common.{
  ◌≡◌, refl, ap, inl, inr, String, string_eq, ◌==◌, ==_iff, ==_refl, true, false, some, List, [],
  ◌∷◌, All, if◌then◌else◌, Bool-cases,
}
use go_service_template.Common.Assoc.{lookup, insert, contains, lookup-insert}
use go_service_template.Message.{Metadata}
use go_service_template.Message.BusProducer.{merge}
use go_service_template.Message.Observability.{meta_key, collect_values, metadata_of}
use go_service_template.Observability.{
  Field, Context, Observer, ObserverConfig, new_observer, field_of,
}

-- Each entry with a key has one value.
abbrev Only : String → String → List (String × String) → Type 0
Only k v entries = All (λ entry. entry.0 ≡ k → entry.1 ≡ v) entries

insert-Only :
    (k v j u : String) (entries : List (String × String))
    → (j ≡ k → u ≡ v)
    → Only k v entries
    → Only k v (insert j u entries)
unfolding insert
insert-Only k v j u [] h all = (h, tt)
insert-Only k v j u ((i, x) ∷ entries) h all = elim (Bool-cases (i == j)) [
  | inl e ↦ rw (e) (h, all.1)
  | inr e ↦ rw (e) (all.0, insert-Only k v j u entries h all.1)
]

-- A write that gives a key its value, or is to another key, keeps the value.
insert-kept :
    (k v j u : String) (entries : List (String × String))
    → (j ≡ k → u ≡ v)
    → lookup k entries ≡ some v
    → lookup k (insert j u entries) ≡ some v
insert-kept k v j u entries h e = elim (Bool-cases (j == k)) [
  | inl s ↦ rw (lookup-insert j k u entries, s, h ((==_iff j k).0 s)) refl
  | inr s ↦ rw (lookup-insert j k u entries, s) e
]

insert-found :
    (k v : String) (entries : List (String × String)) → lookup k (insert k v entries) ≡ some v
insert-found k v entries = rw (lookup-insert k k v entries, ==_refl k) refl

merge-kept :
    (k v : String) (source target : Metadata)
    → Only k v source
    → lookup k target ≡ some v
    → lookup k (merge source target) ≡ some v
unfolding merge
merge-kept k v [] target all e = e
merge-kept k v ((j, u) ∷ source) target all e =
    merge-kept k v source (insert j u target) all.1 (insert-kept k v j u target all.0 e)

merge-found :
    (k v : String) (source target : Metadata)
    → Only k v source
    → lookup k source ≡ some v
    → lookup k (merge source target) ≡ some v
unfolding merge lookup
merge-found k v [] target all e = cc
merge-found k v ((j, u) ∷ source) target all e = elim (Bool-cases (j == k)) [
  | inl s ↦
      let p : j ≡ k = (==_iff j k).0 s in
      merge-kept k v source (insert j u target) all.1
        (rw (lookup-insert j k u target, s, all.0 p) refl)
  | inr s ↦ merge-found k v source (insert j u target) all.1 (rw s at e)
]

meta_key-eq : (f g : Field) → meta_key f ≡ meta_key g → f ≡ g
meta_key-eq f g e = append_cancel_left "observability/" f g e

metadata_of-Only :
    (f v : String) (values : List (Field × String)) (target : Metadata)
    → Only f v values
    → Only (meta_key f) v target
    → Only (meta_key f) v (metadata_of values target)
unfolding metadata_of
metadata_of-Only f v [] target all h = h
metadata_of-Only f v ((g, u) ∷ values) target all h =
    metadata_of-Only f v values (insert (meta_key g) u target) all.1
      (insert-Only (meta_key f) v (meta_key g) u target (λ e. all.0 (meta_key-eq g f e)) h)

metadata_of-kept :
    (f v : String) (values : List (Field × String)) (target : Metadata)
    → Only f v values
    → lookup (meta_key f) target ≡ some v
    → lookup (meta_key f) (metadata_of values target) ≡ some v
unfolding metadata_of
metadata_of-kept f v [] target all e = e
metadata_of-kept f v ((g, u) ∷ values) target all e =
    metadata_of-kept f v values (insert (meta_key g) u target) all.1
      (insert-kept (meta_key f) v (meta_key g) u target (λ p. all.0 (meta_key-eq g f p)) e)

metadata_of-found :
    (f v : String) (values : List (Field × String)) (target : Metadata)
    → Only f v values
    → lookup f values ≡ some v
    → lookup (meta_key f) (metadata_of values target) ≡ some v
unfolding metadata_of lookup
metadata_of-found f v [] target all e = cc
metadata_of-found f v ((g, u) ∷ values) target all e = elim (Bool-cases (g == f)) [
  | inl s ↦
      let p : g ≡ f = (==_iff g f).0 s in
      metadata_of-kept f v values (insert (meta_key g) u target) all.1
        (rw (p, all.0 p) (insert-found (meta_key f) v target))
  | inr s ↦ metadata_of-found f v values (insert (meta_key g) u target) all.1 (rw s at e)
]

collect_values-Only :
    (o : Observer) (c : Context) (f : Field) (fields : List Field) (values : List (Field × String))
    → Only f (o.field c f) values
    → Only f (o.field c f) (collect_values o c fields values)
unfolding collect_values
collect_values-Only o c f [] values all = all
collect_values-Only o c f (g ∷ fields) values all = elim (Bool-cases (o.field c g == "")) [
  | inl e ↦ rw (e) (collect_values-Only o c f fields values all)
  | inr e ↦ rw (e) (
      collect_values-Only o c f fields (insert g (o.field c g) values)
        (insert-Only f (o.field c f) g (o.field c g) values (λ p. ap (o.field c) p) all))
]

collect_values-kept :
    (o : Observer) (c : Context) (f : Field) (fields : List Field) (values : List (Field × String))
    → lookup f values ≡ some (o.field c f)
    → lookup f (collect_values o c fields values) ≡ some (o.field c f)
unfolding collect_values
collect_values-kept o c f [] values h = h
collect_values-kept o c f (g ∷ fields) values h = elim (Bool-cases (o.field c g == "")) [
  | inl e ↦ rw (e) (collect_values-kept o c f fields values h)
  | inr e ↦ rw (e) (
      collect_values-kept o c f fields (insert g (o.field c g) values)
        (insert-kept f (o.field c f) g (o.field c g) values (λ p. ap (o.field c) p) h))
]

collect_values-found :
    (o : Observer) (c : Context) (f : Field) (fields : List Field) (values : List (Field × String))
    → contains f fields ≡ true
    → (o.field c f == "") ≡ false
    → lookup f (collect_values o c fields values) ≡ some (o.field c f)
unfolding collect_values contains
collect_values-found o c f [] values h e = cc
collect_values-found o c f (g ∷ fields) values h e = elim (Bool-cases (g == f)) [
  | inl s ↦
      let p : g ≡ f = (==_iff g f).0 s in
      rw (p, e)
        (collect_values-kept o c f fields (insert f (o.field c f) values)
          (insert-found f (o.field c f) values))
  | inr s ↦
      collect_values-found o c f fields
        (if o.field c g == "" then values else insert g (o.field c g) values) (rw s at h) e
]

-- What the metadata of a producer holds for a field that is not empty.
pub collected-found :
    (opts : List (ObserverConfig → ObserverConfig)) (c : Context) (f : Field) (fields : List Field)
    (target : Metadata)
    → contains f fields ≡ true
    → (field_of c f == "") ≡ false
    → lookup
        (meta_key f)
        (merge (metadata_of (collect_values (new_observer opts) c fields []) []) target)
      ≡ some (field_of c f)
unfolding new_observer
collected-found opts c f fields target h e =
    let o = new_observer opts in
    let all = collect_values-Only o c f fields [] tt in
    merge-found (meta_key f) (field_of c f) (metadata_of (collect_values o c fields []) []) target
      (metadata_of-Only f (field_of c f) (collect_values o c fields []) [] all tt)
      (metadata_of-found f (field_of c f) (collect_values o c fields []) [] all
        (collect_values-found o c f fields [] h e))
