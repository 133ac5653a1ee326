-- ===== src/Base/Maps.antt =====
-- A JavaScript `Map` with string keys, in the order of insertion: setting a key that is there
-- replaces its value in place.
use mathlib.Core.Path.{◌≡◌, refl}
use mathlib.Core.Option.{Option, none, some}
use mathlib.Core.List.{List, [], ◌∷◌}
use native.Mathlib.Omega.{arith}
use kitstack.Base.Tests.{if◌then◌else◌, ◌==◌, eq_iff}
use kitstack.Base.Texts.{Text, text_instance}

abbrev pub Dictionary {ℓ} : Type ℓ → Type ℓ
Dictionary V = List (Text × V)

module _ {ℓ} {V : Type ℓ} where
  unfoldable pub map_get : Dictionary V → Text → Option V
  map_get [] wanted = none
  map_get ((key, value) ∷ rest) wanted = if wanted == key then some value else map_get rest wanted

  unfoldable pub map_set : Dictionary V → Text → V → Dictionary V
  map_set [] key value = (key, value) ∷ []
  map_set ((old_key, old) ∷ rest) key value =
      if key == old_key then (old_key, value) ∷ rest else (old_key, old) ∷ map_set rest key value

  pub map_get-map_set :
      (entries : Dictionary V) (key wanted : Text) (value : V)
      → map_get (map_set entries key value) wanted
        ≡ (if wanted == key then some value else map_get entries wanted)
  unfolding map_get map_set
  map_get-map_set [] key wanted value = refl
  map_get-map_set ((old_key, old) ∷ rest) key wanted value = ground (
    arith,
    map_get-map_set rest key wanted value,
    eq_iff key old_key,
    eq_iff wanted old_key,
    eq_iff wanted key,
  )
