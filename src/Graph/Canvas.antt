-- ===== src/Graph/Canvas.antt =====
-- frontend/src/components/TrafficGraph.tsx: what is painted for nodes and edges. An opacity is in
-- hundredths; coordinates and radii are floating point, whose operations are a parameter.
pub mod Hover
use mcpxy.Prelude.{
  ℕ, String, Bool, true, false, not, Option, none, some, List, ◌+◌, ◌==◌, ◌&&◌, ◌||◌, map, min,
  truthy, if◌then◌else◌,
}

pub record Floats : Type 1 where
  pub Number : Type 0
  pub from_nat : ℕ → Number
  pub add : Number → Number → Number
  pub negate : Number → Number

-- The keys of COLORS.
pub data Color : Type 0 where
  ok err warn accent accent_dim edge_idle proxy_fill node_fill label_primary label_muted : Color

pub data Kind : Type 0 where
  proxy upstream : Kind

-- `hoveredId === id`
unfoldable pub is_hovered : Option String → String → Bool
is_hovered none id = false
is_hovered (some hovered) id = hovered == id

-- `onHoverNode` of a node: the mouse enters it or leaves it.
pub data Mouse : Type 0 where
  entered : (id : String) → Mouse
  left : Mouse

unfoldable pub hover : Option String → Mouse → Option String
hover hovered (entered id) = some id
hover hovered left = none

module _ (floats : Floats) where
  open floats use {Number, from_nat, add, negate}

  pub record GraphNode : Type 0 where
    pub id : String
    pub kind : Kind
    pub label : String
    pub x : Number
    pub y : Number
    pub radius : Number
    pub healthy : Bool
    pub sublabel : Option String

  pub record GraphEdge : Type 0 where
    pub id : String
    pub from_id : String
    pub to_id : String
    pub x1 : Number
    pub y1 : Number
    pub x2 : Number
    pub y2 : Number
    pub width : Number
    pub color : Color
    pub opacity : ℕ

  -- A `line`, a `circle` and a `text` with the attributes that are computed.
  pub record Line : Type 0 where
    pub key : String
    pub x1 : Number
    pub y1 : Number
    pub x2 : Number
    pub y2 : Number
    pub stroke : Color
    pub stroke_width : Number
    pub stroke_opacity : ℕ

  pub record Circle : Type 0 where
    pub r : Number
    pub fill : Option Color
    pub stroke : Color
    pub stroke_width : ℕ

  pub record Text : Type 0 where
    pub y : Number
    pub font_size : ℕ
    pub fill : Color
    pub content : String

  -- The group of one node; `glow` is the gradient behind the proxy.
  pub record Group : Type 0 where
    pub key : String
    pub x : Number
    pub y : Number
    pub glow : Bool
    pub ring : Option Circle
    pub disc : Circle
    pub label : Text
    pub sublabel : Option Text

  unfoldable pub paint_edge : Option String → GraphEdge → Line
  unfolding is_hovered
  paint_edge hovered e = record {
    key = e.id;
    x1 = e.x1;
    y1 = e.y1;
    x2 = e.x2;
    y2 = e.y2;
    stroke = e.color;
    stroke_width = e.width;
    stroke_opacity =
        if is_hovered hovered e.from_id || is_hovered hovered e.to_id
        then min 100 (e.opacity + 25)
        else e.opacity;
  }

  unfoldable pub is_proxy : Kind → Bool
  is_proxy proxy = true
  is_proxy upstream = false

  unfoldable pub stroke_of : GraphNode → Color
  unfolding is_proxy
  stroke_of n = if is_proxy n.kind then accent else if n.healthy then ok else err

  unfoldable pub label_of : GraphNode → Text
  unfolding is_proxy
  label_of n = record {
    y = if is_proxy n.kind then from_nat 5 else negate (add n.radius (from_nat 10));
    font_size = if is_proxy n.kind then 15 else 13;
    fill = label_primary;
    content = n.label;
  }

  -- `!isProxy && n.sublabel && …`
  unfoldable pub sublabel_of : GraphNode → Option Text
  unfolding is_proxy
  sublabel_of n = elim n.sublabel [
    | none ↦ none
    | some s ↦
        if not (is_proxy n.kind) && truthy s
        then some record {
          y = add n.radius (from_nat 16);
          font_size = 10;
          fill = label_muted;
          content = s;
        }
        else none
  ]

  unfoldable pub paint_node : Option String → GraphNode → Group
  unfolding is_hovered is_proxy stroke_of label_of sublabel_of
  paint_node hovered n = record {
    key = n.id;
    x = n.x;
    y = n.y;
    glow = is_proxy n.kind;
    ring =
        if is_hovered hovered n.id
        then some record {
          r = add n.radius (from_nat 6);
          fill = none;
          stroke = stroke_of n;
          stroke_width = 2;
        }
        else none;
    disc = record {
      r = n.radius;
      fill = some (if is_proxy n.kind then proxy_fill else node_fill);
      stroke = stroke_of n;
      stroke_width = if is_proxy n.kind then 3 else 2;
    };
    label = label_of n;
    sublabel = sublabel_of n;
  }

  -- The edges' layer and the nodes' layer, with the pulses between them.
  pub record Drawing : Type 0 where
    pub lines : List Line
    pub groups : List Group

  unfoldable pub traffic_graph : List GraphNode → List GraphEdge → Option String → Drawing
  traffic_graph nodes edges hovered = record {
    lines = map (paint_edge hovered) edges;
    groups = map (paint_node hovered) nodes;
  }
