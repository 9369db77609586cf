-- ===== src/Paths.antt =====
-- control-plane/routing/core-domain/k-shortest.go: the operations on paths that Yen's algorithm uses. `F` is
-- float64, with its order and its sum as parameters where a function compares or adds costs.
pub mod Heap
pub mod Search
pub mod Yen
pub mod Computing
pub mod Hops
pub mod Select
use sky_accel.Base.{
  ℕ, zero, suc, ◌-◌, List, [], ◌∷◌, ◌++◌, Option, none, some, Bool, true, false, not, ltb, leb,
  ◌||◌, ◌&&◌, if◌then◌else◌, length, take,
}
use sky_accel.Base.Keys.{lookup, same, string_eq}
use sky_accel.Base.Maps.{filter}
use sky_accel.Graph.{Edge}
use Prim.Native.String.{String}

-- Path of the solver.
pub record SolverPath (F : Type 0) : Type 0 where
  pub hops : List String
  pub cost : F
  pub raw_rtt : F

-- isInPath
unfoldable pub is_in_path : String → List String → Bool
is_in_path node [] = false
is_in_path node (n ∷ path) = let rest = is_in_path node path in if same n node then true else rest

-- hasDuplicateNodes: `seen` is the map of the nodes before.
unfoldable pub duplicate_after : List String → List String → Bool
unfolding is_in_path
duplicate_after seen [] = false
duplicate_after seen (hop ∷ hops) =
    let rest = duplicate_after (hop ∷ seen) hops in if is_in_path hop seen then true else rest

unfoldable pub has_duplicate_nodes : List String → Bool
has_duplicate_nodes hops = duplicate_after [] hops

-- removeConsecutiveDuplicates: the hops behind the first, which is `last`.
unfoldable pub remove_after : String → List String → List String
remove_after last [] = []
remove_after last (hop ∷ hops) =
    let rest = remove_after hop hops in if not (same hop last) then hop ∷ rest else rest

unfoldable pub remove_consecutive_duplicates : List String → List String
remove_consecutive_duplicates [] = []
remove_consecutive_duplicates (hop ∷ hops) = hop ∷ remove_after hop hops

-- pathsSharePrefix: the loop over the shorter path, once the longer one is first.
unfoldable pub starts_with : List String → List String → Bool
starts_with path [] = true
starts_with [] (b ∷ prefix) = false
starts_with (a ∷ path) (b ∷ prefix) =
    let rest = starts_with path prefix in if not (same a b) then false else rest

unfoldable pub paths_share_prefix : List String → List String → Bool
paths_share_prefix path1 path2 =
    if ltb (length path1) (length path2) then starts_with path2 path1 else starts_with path1 path2

module _ {F : Type 0} (lt : F → F → Bool) where
  -- The inner loop of the sort on the place `i`: the path that is there behind it, and the paths behind
  -- that place.
  unfoldable pub sort_pass : SolverPath F → List (SolverPath F) → SolverPath F × List (SolverPath F)
  sort_pass at [] = (at, [])
  sort_pass at (p ∷ ps) =
      let swapped = sort_pass p ps in
      let kept = sort_pass at ps in
      if lt p.raw_rtt at.raw_rtt then (swapped.0, at ∷ swapped.1) else (kept.0, p ∷ kept.1)

  -- The outer loop, with one turn for each path.
  unfoldable pub sort_loop : ℕ → List (SolverPath F) → List (SolverPath F)
  unfolding sort_pass
  sort_loop zero ps = ps
  sort_loop (suc n) [] = []
  sort_loop (suc n) (p ∷ ps) = let r = sort_pass p ps in r.0 ∷ sort_loop n r.1

  unfoldable pub sort_paths : List (SolverPath F) → List (SolverPath F)
  sort_paths ps = sort_loop (length ps) ps

  -- selectTopPaths
  unfoldable pub select_top_paths : List (SolverPath F) → ℕ → List (SolverPath F)
  unfolding sort_paths
  select_top_paths paths count =
      if leb (length paths) count
      then paths
      else (let short_paths = sort_paths (filter (λ p. leb (length p.hops) 4) paths) in
          let long_paths = sort_paths (filter (λ p. not (leb (length p.hops) 4)) paths) in
          let chosen = take count short_paths in chosen ++ take (count - length chosen) long_paths)
