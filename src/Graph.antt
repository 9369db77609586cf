-- ===== src/Graph.antt =====
-- control-plane/routing/graph/update-graph.go: the graph of nodes and links that the routing works on. `F`
-- is float64 and `edge_risk` is EdgeRisk, with the weights of floating point that it computes.
pub mod Links
use sky_accel.Base.{
  ℕ, List, [], ◌∷◌, Option, none, some, Bool, true, false, not, ◌||◌, if◌then◌else◌, map,
}
use sky_accel.Base.Keys.{lookup, insert, delete, same, string_eq}
use sky_accel.Base.Maps.{filter}
use Prim.Native.String.{String, ◌++◌}

pub record Edge (F : Type 0) : Type 0 where
  pub source_ip : String
  pub destination_ip : String
  pub edge_weight : F
  pub load : F
  pub latency : F

-- LinkCongestion with its Target; `target_port` is the text that strconv.Itoa gives.
pub record Link (F : Type 0) : Type 0 where
  pub target_type : String
  pub target_ip : String
  pub target_port : String
  pub packet_loss : F
  pub average_latency : F

pub record NodeTelemetry (F : Type 0) : Type 0 where
  pub public_ip : String
  pub cpu_pressure : F
  pub links_congestion : List (Link F)

pub record GraphManager (F : Type 0) : Type 0 where
  pub edges : List (String × Edge F)
  pub nodes : List (String × NodeTelemetry F)

module _ {F : Type 0} where
  unfoldable pub get_node : String → GraphManager F → Option (NodeTelemetry F)
  get_node id g = lookup id g.nodes

  unfoldable pub get_edges : GraphManager F → List (Edge F)
  get_edges g = map (λ r. r.1) g.edges

  unfoldable pub get_edge : String → GraphManager F → Option (Edge F)
  get_edge id g = lookup id g.edges

  -- RemoveNode
  unfoldable pub remove_node : String → GraphManager F → GraphManager F
  remove_node id g = record {
    nodes = delete id g.nodes;
    edges = filter (λ r. not (same r.1.source_ip id || same r.1.destination_ip id)) g.edges;
  }

  -- The edge of a link: an old one keeps all but its weight.
  unfoldable pub set_edge : String → String → F → F → F → GraphManager F → GraphManager F
  set_edge source out risk load latency g =
      let line = (source ++ "->") ++ out in
      record g {
        edges =
            insert line
              (elim (lookup line g.edges) [
                | some old ↦ record old { edge_weight = risk }
                | none ↦ record {
                  source_ip = source;
                  destination_ip = out;
                  edge_weight = risk;
                  load = load;
                  latency = latency;
                }
              ])
              g.edges;
      }

  -- One turn of the loop of AddNode: a link to a node that is not known is left out.
  unfoldable pub add_link :
      (F → F → F → F) → F → NodeTelemetry F → Link F → GraphManager F → GraphManager F
  unfolding set_edge
  add_link edge_risk zero_ node v g =
      if same v.target_type "source"
      then (let out = (v.target_ip ++ ":") ++ v.target_port in
          set_edge node.public_ip out (edge_risk zero_ v.packet_loss v.average_latency) zero_
            v.average_latency g)
      else elim (lookup v.target_ip g.nodes) [
        | none ↦ g
        | some out_node ↦
            set_edge node.public_ip v.target_ip
              (edge_risk out_node.cpu_pressure v.packet_loss v.average_latency)
              out_node.cpu_pressure v.average_latency g
      ]

  unfoldable pub add_links :
      (F → F → F → F) → F → NodeTelemetry F → List (Link F) → GraphManager F → GraphManager F
  add_links edge_risk zero_ node [] g = g
  add_links edge_risk zero_ node (v ∷ vs) g =
      add_links edge_risk zero_ node vs (add_link edge_risk zero_ node v g)

  -- AddNode
  unfoldable pub add_node : (F → F → F → F) → F → NodeTelemetry F → GraphManager F → GraphManager F
  unfolding add_links
  add_node edge_risk zero_ node g =
      add_links edge_risk zero_ node node.links_congestion
        (record g { nodes = insert node.public_ip node g.nodes })
