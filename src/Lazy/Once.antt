-- ===== src/Lazy/Once.antt =====
-- That the provider is called once.
use go_service_template.Common.{
  ◌≡◌, refl, Bool, true, false, Option, none, some, Error, Result, ok, err, if◌then◌else◌,
}
use go_service_template.Lazy.{Provider, new_loader, after_provider, load_once, load, if_loaded}

-- What a loader returns from now on, and whether it counts as loaded, by what the provider did.
abbrev pub kept : {A : Type 0} → A → Option (Result A) → A × Option Error
kept empty none = (empty, none)
kept empty (some (err e)) = (empty, some (Error.wrap "load value of %T: %w" e))
kept empty (some (ok value)) = (value, none)

abbrev pub is_value : {A : Type 0} → Option (Result A) → Bool
is_value none = false
is_value (some (err e)) = false
is_value (some (ok value)) = true

module _ {W A : Type 0} (provider : Provider W A) where
  -- Both calls, after the first `Load` called the provider.
  after_provider-load :
      (empty : A) (r : Option (Result A)) (v w : W) (f : A → W → W)
      → let s = (after_provider (new_loader empty) (r, v)).1 in
        (load provider s ≡ (some (kept empty r), (s.0, v)))
        × (if_loaded f s.0 w ≡ (if is_value r then f (kept empty r).0 w else w))
  unfolding load load_once after_provider new_loader if_loaded
  after_provider-load empty none v w f = (refl, refl)
  after_provider-load empty (some (err e)) v w f = (refl, refl)
  after_provider-load empty (some (ok value)) v w f = (refl, refl)

  -- After the first `Load` of a loader a further `Load` calls the provider no more: it returns the value of
  -- the provider, or its error with the zero value, or, if the provider panicked, the zero value
  -- without an error, and changes nothing; and `IfLoaded` calls its function exactly if the provider returned
  -- a value.
  pub load-load :
      (empty : A) (w later : W) (f : A → W → W)
      → let (result, (l, w')) = load provider (new_loader empty, w) in
        (load provider (l, w') ≡ (some (kept empty (provider w).0), (l, (provider w).1)))
        × (if_loaded f l later
            ≡ (if is_value (provider w).0 then f (kept empty (provider w).0).0 later else later))
  unfolding load load_once new_loader
  load-load empty w later f = after_provider-load empty (provider w).0 (provider w).1 later f
