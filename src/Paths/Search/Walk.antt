-- ===== src/Paths/Search/Walk.antt =====
-- The walks that a search builds: a chain of the map `prev` leads back to the start.
use sky_accel.Base.{
  ℕ, zero, suc, ◌<◌, ◌≡◌, ◌≢◌, inl, inr, refl, sym, ap, ◌∙◌, List, [], ◌∷◌, ◌++◌, none, some, true,
  false, arith, length, All, All-imp, All-both, Bool-cases,
}
use sky_accel.Base.Keys.{lookup, insert, lookup-insert, same, same_ne, string_eq}
use mathlib.Core.Path.{subst}
use sky_accel.Graph.{Edge}
use sky_accel.Paths.{is_in_path}
use sky_accel.Paths.Hops.{AllDistinct}
use sky_accel.Paths.Search.{path_back, has_dup, edges_of}
use Prim.Native.String.{String}

pub same-eq : (a b : String) → same a b ≡ true → a ≡ b
same-eq a b e = (string_eq.beq_iff a b).0 e

abbrev pub last_of : String → List String → String
last_of a [] = a
last_of a (b ∷ path) = last_of b path

module _ {F : Type 0} (graph : List (String × List (Edge F))) (nodes : List String) where
  -- An edge of the graph to a node that is not forbidden.
  pub record HasEdge (a b : String) : Type 0 where
    pub edge : Edge F
    pub before : List (Edge F)
    pub behind : List (Edge F)
    pub at : edges_of graph a ≡ before ++ edge ∷ behind
    pub ends : edge.destination_ip ≡ b
    pub allowed : is_in_path b nodes ≡ false

  abbrev pub IsWalk : List String → Type 0
  IsWalk [] = Unit
  IsWalk (a ∷ []) = Unit
  IsWalk (a ∷ b ∷ path) = HasEdge a b × IsWalk (b ∷ path)

  -- The nodes from `node` back to the start, without `node`.
  pub data Chain (prev : List (String × String)) (start : String)
      : String → List String → Type 0 where
    root : lookup start prev ≡ none → Chain prev start start []
    link :
        (node before : String) (l : List String)
        → lookup node prev ≡ some before
        → before ≢ node
        → HasEdge before node
        → Chain prev start before l
        → Chain prev start node (before ∷ l)

  -- A walk of the graph from the start to the end that comes to no node twice.
  pub record IsPath (start end : String) (path : List String) : Type 0 where
    pub tail : List String
    pub begins : path ≡ start ∷ tail
    pub ends : last_of start tail ≡ end
    pub walks : IsWalk path
    pub thin : has_dup path ≡ false
    pub distinct : AllDistinct path

  module _ (prev : List (String × String)) (start : String) where
    -- A node has one chain.
    Chain-length :
        (node node' : String) (l l' : List String)
        → node ≡ node'
        → Chain prev start node l
        → Chain prev start node' l'
        → length l ≡ length l'
    Chain-length _ _ _ _ i (root e) (root e') = refl
    Chain-length _ _ _ _ i (root e) (link node before l e' ne edge c) =
        absurd (cc (sym e ∙ ap (λ n. lookup n prev) i ∙ e'))
    Chain-length _ _ _ _ i (link node before l e ne edge c) (root e') =
        absurd (cc (sym e' ∙ ap (λ n. lookup n prev) (sym i) ∙ e))
    Chain-length _ _ _ _ i (link node before l e ne edge c)
          (link node' before' l' e' ne' edge' c') =
        let same_before : before ≡ before' =
          ground (arith, sym e ∙ ap (λ n. lookup n prev) i ∙ e') in
        ap suc (Chain-length before before' l l' same_before c c')

    -- The nodes of a chain have shorter chains.
    Chain-shorter :
        (node : String) (l : List String)
        → Chain prev start node l
        → All (λ x. (l' : List String) × Chain prev start x l' × (length l' < length l)) l
    Chain-shorter _ _ (root e) = tt
    Chain-shorter _ _ (link node before l e ne edge c) = (
      (l, c, omega arith),
      All-imp l (λ x (l', c', less). (l', c', omega (arith, less))) (Chain-shorter before l c),
    )

    Chain-Apart :
        (node : String) (l : List String) → Chain prev start node l → All (λ x. x ≢ node) l
    Chain-Apart node l c =
        All-imp l
          (λ x (l', c', less) i. absurd (omega (arith, less, Chain-length x node l' l i c' c)))
          (Chain-shorter node l c)

    -- The loop over `prev` gives the walk from the start.
    pub path_back-IsPath :
        (node : String) (l : List String)
        → Chain prev start node l
        → (path : List String) → IsWalk (node ∷ path)
        → has_dup (node ∷ path) ≡ false
        → AllDistinct (node ∷ path)
        → All (λ x. All (λ n. x ≢ n) path) l
        → (fuel : ℕ) → length l < fuel
        → (whole : List String) × (path_back prev fuel node path ≡ some whole)
          × IsPath start (last_of node path) whole
    unfolding path_back has_dup
    path_back-IsPath node l c path w d a x zero h = absurd (omega arith)
    path_back-IsPath _ _ (root e) path w d a x (suc fuel) h = (
      start ∷ path,
      rw (e, path_back) refl,
      record { tail = path; begins = refl; ends = refl; walks = w; thin = d; distinct = a },
    )
    path_back-IsPath _ _ (link node before l e ne edge c) path w d a x (suc fuel) h =
        let differ = same_ne before node ne in
        let apart = Chain-Apart node (before ∷ l) (link node before l e ne edge c) in
        let further : All (λ y. (y ≢ node) × All (λ n. y ≢ n) path) (before ∷ l) =
          All-both (before ∷ l) (λ y (i : y ≢ node) (j : All (λ n. y ≢ n) path). (i, j)) apart x in
        let (whole, built, is_path) =
          path_back-IsPath before l c (node ∷ path) (edge, w) (rw differ d) (further.0, a) further.1
            fuel (omega arith) in
        (whole, rw (e, path_back) built, is_path)

    module _ (v u : String) where
      -- A chain that does not have `v` is not changed by a new node before `v`.
      pub Chain-insert :
          (node : String) (l : List String)
          → Chain prev start node l
          → All (λ x. x ≢ v) (node ∷ l)
          → Chain (insert v u prev) start node l
      Chain-insert _ _ (root e) a =
          root (lookup-insert v start u prev ∙ rw (same_ne v start (λ i. a.0 (sym i))) e)
      Chain-insert _ _ (link node before l e ne edge c) a =
          link node before l
            (lookup-insert v node u prev ∙ rw (same_ne v node (λ i. a.0 (sym i))) e) ne edge
            (Chain-insert before l c a.1)

      -- With a chain for `v` there is one for every node that had one.
      pub Chain-moved :
          (lv : List String)
          → Chain (insert v u prev) start v lv
          → (node : String) (l : List String) → Chain prev start node l
          → (l' : List String) × Chain (insert v u prev) start node l'
      Chain-moved lv cv _ _ (root e) =
          let moved = λ (x : String) (i : v ≡ x).
            subst (λ n. (l' : List String) × Chain (insert v u prev) start n l') i (lv, cv) in
          elim (Bool-cases (same v start)) [
            | inl i ↦ moved start (same-eq v start i)
            | inr i ↦ ([], root (lookup-insert v start u prev ∙ rw i e))
          ]
      Chain-moved lv cv _ _ (link node before l e ne edge c) =
          let moved = λ (x : String) (i : v ≡ x).
            subst (λ n. (l' : List String) × Chain (insert v u prev) start n l') i (lv, cv) in
          elim (Bool-cases (same v node)) [
            | inl i ↦ moved node (same-eq v node i)
            | inr i ↦
                let (l', c') = Chain-moved lv cv before l c in
                (before ∷ l', link node before l' (lookup-insert v node u prev ∙ rw i e) ne edge c')
          ]
