-- ===== src/Paths/Yen/Grafts.antt =====
-- The walks that Yen's algorithm puts together: a part of a path and a spur path.
use sky_accel.Base.{
  ℕ, zero, suc, ◌≡◌, inl, inr, refl, sym, ap, ◌∙◌, List, [], ◌∷◌, ◌++◌, Option, none, some, Bool,
  not, arith, take, get_elem?, Bool-cases, Option-cases,
}
use sky_accel.Base.Keys.{lookup, insert, lookup-insert, same, string_eq}
use sky_accel.Base.Maps.{filter}
use sky_accel.Graph.{Edge}
use sky_accel.Paths.{is_in_path, remove_after, paths_share_prefix}
use sky_accel.Paths.Search.{edges_of}
use sky_accel.Paths.Search.Walk.{HasEdge, IsWalk, last_of, same-eq}
use sky_accel.Paths.Yen.{FoundPath, ban_next, spur_edges}
use mathlib.Core.Path.{subst}
use Prim.Native.String.{String}

module _ {F : Type 0} where
  -- The edges of `xs` are edges of `ys`.
  abbrev pub Sub : List (Edge F) → List (Edge F) → Type 0
  Sub xs ys =
      (before behind : List (Edge F)) (e : Edge F)
      → xs ≡ before ++ e ∷ behind
      → (before' : List (Edge F)) × (behind' : List (Edge F)) × (ys ≡ before' ++ e ∷ behind')

  filter_kept :
      (p : Edge F → Bool) (x : Edge F) (xs before behind : List (Edge F)) (e : Edge F)
      → x ∷ filter p xs ≡ before ++ e ∷ behind
      → Sub (filter p xs) xs
      → (before' : List (Edge F)) × (behind' : List (Edge F)) × (x ∷ xs ≡ before' ++ e ∷ behind')
  filter_kept p x xs [] behind e at h =
      let here : x ≡ e = ground (arith, at) in ([], xs, ap (λ y. y ∷ xs) here)
  filter_kept p x xs (b ∷ before) behind e at h =
      let rest : filter p xs ≡ before ++ e ∷ behind = ground (arith, at) in
      let (b', t, g) = h before behind e rest in (x ∷ b', t, ap (λ l. x ∷ l) g)

  filter-Sub : (p : Edge F → Bool) (xs : List (Edge F)) → Sub (filter p xs) xs
  filter-Sub p [] [] behind e at = absurd cc
  filter-Sub p [] (b ∷ before) behind e at = absurd cc
  filter-Sub p (x ∷ xs) before behind e at = elim (Bool-cases (p x)) [
    | inr out ↦
        let (b, t, h) = filter-Sub p xs before behind e (rw out at at) in
        (x ∷ b, t, ap (λ l. x ∷ l) h)
    | inl kept ↦ filter_kept p x xs before behind e (rw kept at at) (filter-Sub p xs)
  ]

  ban_next-Sub :
      (j : ℕ) (root : List String) (a : List (FoundPath F)) (edges all : List (Edge F))
      → Sub edges all
      → Sub (ban_next j root a edges) all
  unfolding ban_next
  ban_next-Sub j root [] edges all h = h
  ban_next-Sub j root (p ∷ ps) edges all h = elim (Option-cases (get_elem? p.hops (suc j))) [
    | inl e ↦ rw e (ban_next-Sub j root ps edges all h)
    | inr (target, e) ↦
        let banned = filter (λ (e : Edge F). not (same e.destination_ip target)) edges in
        let fewer : Sub banned all = λ before behind d at.
          let (b, t, g) =
            filter-Sub (λ (e : Edge F). not (same e.destination_ip target)) edges before behind d
              at in
          h b t d g in
        elim (Bool-cases (paths_share_prefix p.hops root)) [
          | inl share ↦ rw e (rw share (ban_next-Sub j root ps banned all fewer))
          | inr differ ↦ rw e (rw differ (ban_next-Sub j root ps edges all h))
        ]
  ]

  pub spur_edges-Sub :
      (j : ℕ) (root : List String) (a : List (FoundPath F)) (edges : List (Edge F))
      → Sub (spur_edges j root a edges) edges
  unfolding spur_edges
  spur_edges-Sub j root a edges =
      ban_next-Sub j root a (filter (λ (e : Edge F). not (is_in_path e.destination_ip root)) edges)
        edges (filter-Sub (λ (e : Edge F). not (is_in_path e.destination_ip root)) edges)

  -- Every edge of the one graph is an edge of the other.
  abbrev pub Within : List (String × List (Edge F)) → List (String × List (Edge F)) → Type 0
  Within g' g = (a b : String) → HasEdge g' [] a b → HasEdge g [] a b

  -- The edges are edges of the node in the graph.
  abbrev pub From : List (String × List (Edge F)) → String → List (Edge F) → Type 0
  From g node es =
      (before behind : List (Edge F)) (e : Edge F)
      → es ≡ before ++ e ∷ behind
      → HasEdge g [] node e.destination_ip

  abbrev edges_or_none : Option (List (Edge F)) → List (Edge F)
  edges_or_none none = []
  edges_or_none (some es) = es

  edges_of-cases :
      (g : List (String × List (Edge F))) (a : String) → edges_of g a ≡ edges_or_none (lookup a g)
  edges_of-cases g a = elim (Option-cases (lookup a g)) [
    | inl e ↦ rw (e, edges_of) refl
    | inr (es, e) ↦ rw (e, edges_of) refl
  ]

  pub From-lookup :
      (g g0 : List (String × List (Edge F))) (node : String) (es : List (Edge F))
      → Within g g0
      → lookup node g ≡ some es
      → From g0 node es
  unfolding is_in_path
  From-lookup g g0 node es h e = λ before behind d at. h node d.destination_ip (record {
    edge = d;
    before = before;
    behind = behind;
    at = edges_of-cases g node ∙ ap edges_or_none e ∙ at;
    ends = refl;
    allowed = refl;
  })

  -- A graph in which a node has some of its edges.
  pub Within-insert :
      (g g0 : List (String × List (Edge F))) (node : String) (es : List (Edge F))
      → Within g g0
      → From g0 node es
      → Within (insert node es g) g0
  unfolding is_in_path
  Within-insert g g0 node es h from = λ a b edge.
      let looked = lookup-insert node a es g in
      let at = sym (edges_of-cases (insert node es g) a) ∙ edge.at in
      elim (Bool-cases (same node a)) [
        | inl i ↦
            let found : lookup a (insert node es g) ≡ some es = looked ∙ rw i refl in
            let here : es ≡ edge.before ++ edge.edge ∷ edge.behind =
              ap edges_or_none (sym found) ∙ at in
            subst (λ n. HasEdge g0 [] n b) (same-eq node a i)
              (subst (HasEdge g0 [] node) edge.ends (from edge.before edge.behind edge.edge here))
        | inr i ↦
            let found : lookup a (insert node es g) ≡ lookup a g = looked ∙ rw i refl in
            h a b (record {
              edge = edge.edge;
              before = edge.before;
              behind = edge.behind;
              at = edges_of-cases g a ∙ ap edges_or_none (sym found) ∙ at;
              ends = edge.ends;
              allowed = refl;
            })
      ]

  module _ (g : List (String × List (Edge F))) where
    pub IsWalk-free :
        (nodes : List String) (path : List String) → IsWalk g nodes path → IsWalk g [] path
    unfolding is_in_path
    IsWalk-free nodes [] w = tt
    IsWalk-free nodes (a ∷ []) w = tt
    IsWalk-free nodes (a ∷ b ∷ path) w =
        let e = w.0 in
        (
          record {
            edge = e.edge;
            before = e.before;
            behind = e.behind;
            at = e.at;
            ends = e.ends;
            allowed = refl;
          },
          IsWalk-free nodes (b ∷ path) w.1,
        )

    pub IsWalk-Within :
        (g' : List (String × List (Edge F))) (path : List String)
        → Within g' g
        → IsWalk g' [] path
        → IsWalk g [] path
    IsWalk-Within g' [] h w = tt
    IsWalk-Within g' (a ∷ []) h w = tt
    IsWalk-Within g' (a ∷ b ∷ path) h w = (h a b w.0, IsWalk-Within g' (b ∷ path) h w.1)

    -- A walk goes on from one of its nodes by another walk.
    pub graft :
        (j : ℕ) (a node : String) (tail rest : List String)
        → IsWalk g [] (a ∷ tail)
        → get_elem? (a ∷ tail) j ≡ some node
        → IsWalk g [] (node ∷ rest)
        → (tail' : List String) × (take j (a ∷ tail) ++ node ∷ rest ≡ a ∷ tail')
          × IsWalk g [] (a ∷ tail')
          × (last_of a tail' ≡ last_of node rest)
    graft zero a node tail rest w at v =
        let here : a ≡ node = ground (arith, at) in
        (
          rest,
          ap (λ n. n ∷ rest) (sym here),
          subst (λ n. IsWalk g [] (n ∷ rest)) (sym here) v,
          ap (λ n. last_of n rest) here,
        )
    graft (suc j) a node [] rest w at v = absurd cc
    graft (suc j) a node (b ∷ tail) rest w at v =
        let (tail', e, w', l) = graft j b node tail rest w.1 at v in
        (b ∷ tail', ap (λ p. a ∷ p) e, (w.0, w'), l)

    pub remove_after-IsWalk :
        (a : String) (tail : List String)
        → IsWalk g [] (a ∷ tail)
        → IsWalk g [] (a ∷ remove_after a tail) × (last_of a (remove_after a tail) ≡ last_of a tail)
    unfolding remove_after
    remove_after-IsWalk a [] w = (tt, refl)
    remove_after-IsWalk a (b ∷ tail) w =
        let (v, l) = remove_after-IsWalk b tail w.1 in
        elim (Bool-cases (same b a)) [
          | inr e ↦ rw e ((w.0, v), l)
          | inl e ↦
              let here = same-eq b a e in
              rw e (
                subst
                  (λ n.
                    IsWalk g [] (n ∷ remove_after b tail)
                    × (last_of n (remove_after b tail) ≡ last_of b tail))
                  here (v, l))
        ]
