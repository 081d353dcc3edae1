-- ===== src/Graph/Canvas/Hover.antt =====
-- What the mouse changes in the picture.
use mcpxy.Prelude.{
  String, Bool, Option, none, some, List, [], ◌∷◌, ◌≡◌, ◌≤◌, refl, ap, arith, All, map, is_some,
  ltb, ◌==◌, ◌||◌, Bool-cases, inl, inr, if◌then◌else◌,
}
use mathlib.Core.Path.{ap₂}
use mcpxy.Graph.Canvas.{
  Floats, GraphNode, GraphEdge, Line, Group, paint_edge, paint_node, traffic_graph, entered, left,
  hover,
}

module _ (floats : Floats) where
  -- The nodes with a ring around them.
  abbrev pub ringed : List (Group floats) → List String
  ringed [] = []
  ringed (g ∷ groups) = if is_some g.ring then g.key ∷ ringed groups else ringed groups

  -- The lines that are more opaque than those of another drawing of the same edges.
  abbrev pub brighter : List (Line floats) → List (Line floats) → List String
  brighter (a ∷ as_) (b ∷ bs) =
      if ltb b.stroke_opacity a.stroke_opacity then a.key ∷ brighter as_ bs else brighter as_ bs
  brighter _ _ = []

  abbrev pub keys_if : (GraphEdge floats → Bool) → List (GraphEdge floats) → List String
  keys_if p [] = []
  keys_if p (e ∷ edges) = if p e then e.id ∷ keys_if p edges else keys_if p edges

  abbrev pub ids_if : (GraphNode floats → Bool) → List (GraphNode floats) → List String
  ids_if p [] = []
  ids_if p (n ∷ nodes) = if p n then n.id ∷ ids_if p nodes else ids_if p nodes

  ringed-paint_node :
      (id : String) (nodes : List (GraphNode floats))
      → ringed (map (paint_node floats (some id)) nodes) ≡ ids_if (λ n. id == n.id) nodes
  unfolding paint_node
  ringed-paint_node id [] = refl
  ringed-paint_node id (n ∷ nodes) = elim (Bool-cases (id == n.id)) [
    | inl e ↦ rw e (ap (λ ids. n.id ∷ ids) (ringed-paint_node id nodes))
    | inr e ↦ rw e (ringed-paint_node id nodes)
  ]

  brighter-paint_edge :
      (id : String) (edges : List (GraphEdge floats))
      → All (λ e. e.opacity ≤ 99) edges
      → brighter (map (paint_edge floats (some id)) edges) (map (paint_edge floats none) edges)
        ≡ keys_if (λ e. (id == e.from_id) || (id == e.to_id)) edges
  unfolding paint_edge
  brighter-paint_edge id [] h = refl
  brighter-paint_edge id (e ∷ edges) (h, hs) =
      elim (Bool-cases ((id == e.from_id) || (id == e.to_id))) [
        | inl f ↦ ground (arith, brighter-paint_edge id edges hs)
        | inr f ↦ ground (arith, brighter-paint_edge id edges hs)
      ]

  unfoldable pub without_ring : Group floats → Group floats
  without_ring g = record g { ring = none }

  unfoldable pub without_opacity : Line floats → Line floats
  without_opacity l = record l { stroke_opacity = 0 }

  ringed-none : (nodes : List (GraphNode floats)) → ringed (map (paint_node floats none) nodes) ≡ []
  unfolding paint_node
  ringed-none [] = refl
  ringed-none (n ∷ nodes) = ringed-none nodes

  rings_alone :
      (hovered : Option String) (nodes : List (GraphNode floats))
      → map without_ring (map (paint_node floats hovered) nodes)
        ≡ map without_ring (map (paint_node floats none) nodes)
  unfolding paint_node without_ring
  rings_alone hovered [] = refl
  rings_alone hovered (n ∷ nodes) = ap₂ ◌∷◌ refl (rings_alone hovered nodes)

  opacity_alone :
      (hovered : Option String) (edges : List (GraphEdge floats))
      → map without_opacity (map (paint_edge floats hovered) edges)
        ≡ map without_opacity (map (paint_edge floats none) edges)
  unfolding paint_edge without_opacity
  opacity_alone hovered [] = refl
  opacity_alone hovered (e ∷ edges) = ap₂ ◌∷◌ refl (opacity_alone hovered edges)

  -- Where no edge is fully opaque, the mouse over a node puts a ring around the nodes of that id
  -- and makes exactly the edges that begin or end there more opaque; no node has a ring without the
  -- mouse, and nothing but rings and opacities changes.
  pub traffic_graph_hovered :
      (id : String) (nodes : List (GraphNode floats)) (edges : List (GraphEdge floats))
      → All (λ e. e.opacity ≤ 99) edges
      → let over = traffic_graph floats nodes edges (hover none (entered id)) in
        let away = traffic_graph floats nodes edges (hover (some id) left) in
        (ringed over.groups ≡ ids_if (λ n. id == n.id) nodes)
        × (ringed away.groups ≡ [])
        × (brighter over.lines away.lines
            ≡ keys_if (λ e. (id == e.from_id) || (id == e.to_id)) edges)
        × (map without_ring over.groups ≡ map without_ring away.groups)
        × (map without_opacity over.lines ≡ map without_opacity away.lines)
  unfolding traffic_graph hover
  traffic_graph_hovered id nodes edges h = (
    ringed-paint_node id nodes,
    ringed-none nodes,
    brighter-paint_edge id edges h,
    rings_alone (some id) nodes,
    opacity_alone (some id) edges,
  )
