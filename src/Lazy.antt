-- ===== src/Lazy.antt =====
-- The loader of pkg/lazy/loader.go. The provider may panic, which is `none`, and acts on a world of type `W`;
-- `once` tells whether the `sync.Once` is done.
pub mod Once
use go_service_template.Common.{Bool, true, false, Option, none, some, Error, Result, ok, err}

pub record Loader (A : Type 0) : Type 0 where
  pub once : Bool
  pub is_loaded : Bool
  pub value : A
  pub load_error : Option Error

abbrev pub Provider : Type 0 → Type 0 → Type 0
Provider W A = W → Option (Result A) × W

-- `New`, with the zero value of the type.
unfoldable pub new_loader : {A : Type 0} → A → Loader A
new_loader empty = record { once = false; is_loaded = false; value = empty; load_error = none }

-- What `Load` returns; it is `none` if it panics.
abbrev pub Loaded : Type 0 → Type 0 → Type 0
Loaded W A = Option (A × Option Error) × (Loader A × W)

module _ {W A : Type 0} where
  -- The end of `Load`.
  abbrev pub loaded : Loader A → W → Loaded W A
  loaded l w = (some (l.value, l.load_error), (l, w))

  -- The function that runs once; `Do` is done also if it panics.
  unfoldable pub after_provider : Loader A → Option (Result A) × W → Loaded W A
  after_provider l (none, w) = (none, (record l { once = true }, w))
  after_provider l (some (err e), w) =
      loaded (record l { once = true; load_error = some (Error.wrap "load value of %T: %w" e) }) w
  after_provider l (some (ok value), w) =
      loaded (record l { once = true; is_loaded = true; value = value }) w

  unfoldable pub load_once : Provider W A → Bool → Loader A → W → Loaded W A
  unfolding after_provider
  load_once provider true l w = loaded l w
  load_once provider false l w = after_provider l (provider w)

  -- `Load`.
  unfoldable pub load : Provider W A → Loader A × W → Loaded W A
  unfolding load_once
  load provider (l, w) = load_once provider l.once l w

  unfoldable pub must : Loaded W A → Option A × (Loader A × W)
  must (none, s) = (none, s)
  must (some (value, none), s) = (some value, s)
  must (some (value, some e), s) = (none, s)

  -- `MustLoad`.
  unfoldable pub must_load : Provider W A → Loader A × W → Option A × (Loader A × W)
  unfolding load must
  must_load provider s = must (load provider s)

  -- `IfLoaded`.
  unfoldable pub if_loaded : (A → W → W) → Loader A → W → W
  if_loaded f l w = elim l.is_loaded [ true ↦ f l.value w | false ↦ w ]
