-- ===== src/Graph/Links.antt =====
-- Invariants of the graph over AddNode and RemoveNode.
use sky_accel.Base.{
  ◌≡◌, ◌≢◌, inl, inr, refl, sym, ap, ◌∙◌, List, [], ◌∷◌, none, some, Bool, true, arith, not, ◌||◌,
  All, All-imp, All-both, Bool-cases, Option-cases,
}
use sky_accel.Base.Keys.{
  lookup, insert, delete, lookup-insert, lookup-delete, same_refl, same_ne, same, string_eq,
}
use sky_accel.Base.Maps.{filter-All, All-filter, All-insert, All-lookup}
use Prim.Native.String.{String, ◌++◌}
use sky_accel.Graph.{
  Edge, Link, NodeTelemetry, GraphManager, get_node, remove_node, set_edge, add_link, add_links,
  add_node,
}

neither : (a b id : String) → not (same a id || same b id) ≡ true → (a ≢ id) × (b ≢ id)
neither a b id e = (
  λ a_id. ground (arith, e, (string_eq.beq_iff a id).1 a_id),
  λ b_id. ground (arith, e, (string_eq.beq_iff b id).1 b_id),
)

module _ {F : Type 0} where
  -- An edge stands under its own name, and starts at a node that the graph has.
  pub record IsLink (nodes : List (String × NodeTelemetry F)) (r : String × Edge F) : Type 0 where
    pub key : r.0 ≡ (r.1.source_ip ++ "->") ++ r.1.destination_ip
    pub source : (n : NodeTelemetry F) × (lookup r.1.source_ip nodes ≡ some n)

  abbrev pub IsGraph : GraphManager F → Type 0
  IsGraph g = All (IsLink g.nodes) g.edges

  set_edge-IsGraph :
      (source out : String) (risk load latency : F) (n : NodeTelemetry F) (g : GraphManager F)
      → lookup source g.nodes ≡ some n
      → IsGraph g
      → IsGraph (set_edge source out risk load latency g)
  unfolding set_edge
  set_edge-IsGraph source out risk load latency n g at h =
      let line = (source ++ "->") ++ out in
      elim (Option-cases (lookup line g.edges)) [
        | inl e ↦
            rw (e, set_edge)
              (All-insert (IsLink g.nodes) line _ g.edges h
                (record { key = refl; source = (n, at) }))
        | inr (old, e) ↦
            let l = All-lookup (IsLink g.nodes) line old g.edges h e in
            rw (e, set_edge)
              (All-insert (IsLink g.nodes) line _ g.edges h
                (record { key = l.key; source = l.source }))
      ]

  set_edge_nodes :
      (source out : String) (risk load latency : F) (g : GraphManager F)
      → (set_edge source out risk load latency g).nodes ≡ g.nodes
  unfolding set_edge
  set_edge_nodes source out risk load latency g = refl

  module _ (edge_risk : F → F → F → F) (zero_ : F) (node : NodeTelemetry F) where
    add_link_nodes :
        (v : Link F) (g : GraphManager F) → (add_link edge_risk zero_ node v g).nodes ≡ g.nodes
    unfolding add_link set_edge
    add_link_nodes v g = elim (Bool-cases (same v.target_type "source")) [
      | inl e ↦ rw (e, add_link)
      | inr e ↦ elim (Option-cases (lookup v.target_ip g.nodes)) [
        | inl f ↦ rw (e, add_link) (rw f)
        | inr (n, f) ↦ rw (e, add_link) (rw f)
      ]
    ]

    add_link-IsGraph :
        (v : Link F) (n : NodeTelemetry F) (g : GraphManager F)
        → lookup node.public_ip g.nodes ≡ some n
        → IsGraph g
        → IsGraph (add_link edge_risk zero_ node v g)
    unfolding add_link
    add_link-IsGraph v n g at h = elim (Bool-cases (same v.target_type "source")) [
      | inl e ↦ rw (e, add_link) (set_edge-IsGraph node.public_ip _ _ _ _ n g at h)
      | inr e ↦ elim (Option-cases (lookup v.target_ip g.nodes)) [
        | inl f ↦ rw (e, add_link) (rw f h)
        | inr (t, f) ↦ rw (e, add_link) (rw f (set_edge-IsGraph node.public_ip _ _ _ _ n g at h))
      ]
    ]

    add_links-IsGraph :
        (vs : List (Link F)) (n : NodeTelemetry F) (g : GraphManager F)
        → lookup node.public_ip g.nodes ≡ some n
        → IsGraph g
        → IsGraph (add_links edge_risk zero_ node vs g)
    unfolding add_links
    add_links-IsGraph [] n g at h = h
    add_links-IsGraph (v ∷ vs) n g at h =
        add_links-IsGraph vs n (add_link edge_risk zero_ node v g)
          (ap (lookup node.public_ip) (add_link_nodes v g) ∙ at) (add_link-IsGraph v n g at h)

    IsLink-insert :
        (g : GraphManager F) (r : String × Edge F)
        → IsLink g.nodes r
        → IsLink (insert node.public_ip node g.nodes) r
    IsLink-insert g r l =
        let at = lookup-insert node.public_ip r.1.source_ip node g.nodes in
        record {
          key = l.key;
          source = elim (Bool-cases (same node.public_ip r.1.source_ip)) [
            | inl here ↦ (node, at ∙ rw here)
            | inr other ↦ (l.source.0, at ∙ rw other l.source.1)
          ];
        }

    -- AddNode keeps the graph: every edge stands under its own name and starts at a node of the graph.
    pub add_node-IsGraph :
        (g : GraphManager F) → IsGraph g → IsGraph (add_node edge_risk zero_ node g)
    unfolding add_node
    add_node-IsGraph g h =
        add_links-IsGraph node.links_congestion node
          (record g { nodes = insert node.public_ip node g.nodes })
          (rw (lookup-insert node.public_ip node.public_ip node g.nodes, same_refl node.public_ip)
            refl)
          (All-imp g.edges (IsLink-insert g) h)

  IsLink-delete :
      (id : String) (g : GraphManager F) (r : String × Edge F)
      → (r.1.source_ip ≢ id) × (r.1.destination_ip ≢ id)
      → IsLink g.nodes r
      → IsLink (delete id g.nodes) r
  IsLink-delete id g r (from, _) l =
      let (n, at) = l.source in
      record {
        key = l.key;
        source = (
          n,
          lookup-delete id r.1.source_ip g.nodes
              ∙ rw (same_ne id r.1.source_ip (λ e. from (sym e))) at,
        );
      }

  -- Behind RemoveNode the graph has neither the node nor an edge that starts or ends at it, and it is
  -- still a graph: every edge stands under its own name and starts at a node of the graph.
  pub remove_node-IsGraph :
      (id : String) (g : GraphManager F)
      → IsGraph g
      → IsGraph (remove_node id g)
        × (get_node id (remove_node id g) ≡ none)
        × All (λ r. (r.1.source_ip ≢ id) × (r.1.destination_ip ≢ id)) (remove_node id g).edges
  unfolding remove_node get_node
  remove_node-IsGraph id g h =
      let keeps : String × Edge F → Bool =
        λ r. not (same r.1.source_ip id || same r.1.destination_ip id) in
      let apart =
        filter-All (λ r. (r.1.source_ip ≢ id) × (r.1.destination_ip ≢ id)) keeps
          (λ r e. neither r.1.source_ip r.1.destination_ip id e) g.edges in
      (
        All-both _ (IsLink-delete id g) apart (All-filter (IsLink g.nodes) keeps g.edges h),
        rw (lookup-delete id id g.nodes, same_refl id) refl,
        apart,
      )
