-- ===== src/SafeMap.antt =====
-- control-plane/util/safe-map.go: a map from texts to values behind a lock; each operation is one step.
pub mod Update
use sky_accel.Base.{ℕ, List, [], ◌∷◌, Option, none, some, Bool, true, false, if◌then◌else◌, length}
use sky_accel.Base.Keys.{lookup, insert, delete, string_eq}
use Prim.Native.String.{String}

pub record SafeMap (A : Type 0) : Type 0 where
  pub m : List (String × A)

-- The errors of Update: that of the callback, or that there is no such key.
pub data UpdateError : Type 0 where
  key_not_found : UpdateError
  callback : String → UpdateError

module _ {A : Type 0} where
  unfoldable pub new_safe_map : SafeMap A
  new_safe_map = record { m = [] }

  unfoldable pub get : String → SafeMap A → Option A
  get key s = lookup key s.m

  unfoldable pub set_value : String → A → SafeMap A → SafeMap A
  set_value key value s = record { m = insert key value s.m }

  unfoldable pub delete_key : String → SafeMap A → SafeMap A
  delete_key key s = record { m = delete key s.m }

  unfoldable pub len : SafeMap A → ℕ
  len s = length s.m

  -- Range: the entries that the callback sees, up to the first one that it refuses.
  unfoldable pub visited : (String → A → Bool) → List (String × A) → List (String × A)
  visited fn [] = []
  visited fn ((k, v) ∷ m) = let rest = visited fn m in if fn k v then (k, v) ∷ rest else (k, v) ∷ []

  unfoldable pub range : (String → A → Bool) → SafeMap A → List (String × A)
  unfolding visited
  range fn s = visited fn s.m

  unfoldable pub get_all : SafeMap A → List (String × A)
  get_all s = s.m

  -- Update: the callback changes the stored object in place, also where it returns an error.
  unfoldable pub update :
      String → (A → A × Option String) → SafeMap A → SafeMap A × Option UpdateError
  update key fn s = elim (lookup key s.m) [
    | none ↦ (s, some key_not_found)
    | some v ↦
        let r = fn v in
        (record { m = insert key r.0 s.m }, elim r.1 [ none ↦ none | some e ↦ some (callback e) ])
  ]
