-- ===== src/SafeMap/Update.antt =====
-- Update changes the value of its key and no other.
use sky_accel.Base.{◌≡◌, ◌≢◌, ◌⊎◌, inl, inr, refl, Option, none, some, Option-cases}
use sky_accel.Base.Keys.{lookup, lookup-insert, same_refl, same_ne, string_eq}
use Prim.Native.String.{String}
use sky_accel.SafeMap.{SafeMap, key_not_found, get, update}

module _ {A : Type 0} (key : String) (fn : A → A × Option String) (s : SafeMap A) where
  -- Update on a key that the map has stores what the callback makes of its value; without the key it fails and
  -- changes nothing. In both cases every other key has the value that it had.
  pub get-update :
      (j : String)
      → key ≢ j
      → (get j (update key fn s).0 ≡ get j s)
        × (((v : A) × (get key s ≡ some v) × (get key (update key fn s).0 ≡ some (fn v).0))
            ⊎ ((get key s ≡ none) × (update key fn s ≡ (s, some key_not_found))))
  unfolding get update
  get-update j ne = elim (Option-cases (lookup key s.m)) [
    | inl e ↦ (rw (e, update), inr (e, rw (e, update)))
    | inr (v, e) ↦ (
      rw (e, update) (rw (lookup-insert key j (fn v).0 s.m, same_ne key j ne) refl),
      inl (v, e, rw (e, update) (rw (lookup-insert key key (fn v).0 s.m, same_refl key) refl)),
    )
  ]
