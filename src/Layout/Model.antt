-- ===== src/Layout/Model.antt =====
-- The records of a layout, of modules/taxonomy/dto.py and layout.py, with the checks of the parameters. Floats
-- are a type with the operations that the code uses.
use hll.Prelude.{ℕ, String, Bool, not, ◌&&◌, Option, none, some, List, [], ◌∷◌, if◌then◌else◌}
use hll.Exec.{Result, ok, err}

pub record Floats : Type 1 where
  pub Float : Type 0
  pub add : Float → Float → Float
  pub sub : Float → Float → Float
  pub mul : Float → Float → Float
  pub div : Float → Float → Float
  pub lt : Float → Float → Bool
  pub le : Float → Float → Bool
  pub eq : Float → Float → Bool
  pub sqrt : Float → Float
  pub cos : Float → Float
  pub sin : Float → Float
  -- `round(x, 6)`, and `x ** (1 / 300)`
  pub round6 : Float → Float
  pub root300 : Float → Float
  pub is_finite : Float → Bool
  pub of_nat : ℕ → Float
  pub literal : String → Float

pub data Scope : Type 0 where
  inner outer : Scope

pub data Error : Type 0 where
  value_error : String → Error

module _ (Float : Type 0) where
  pub record TaxonomyCardScopeLayoutParams : Type 0 where
    pub seed_base_radius : Float
    pub seed_radius_step : Float
    pub simulation_ticks : ℕ
    pub alpha_min : Float
    pub velocity_retention : Float
    pub link_base_distance : Float
    pub link_distance_strength_factor : Float
    pub link_base_strength : Float
    pub link_strength_factor : Float
    pub charge_strength : Float
    pub collision_radius : Float
    pub collision_strength : Float
    pub center_gravity_strength : Float
    pub radial_boundary_radius : Float
    pub radial_boundary_strength : Float

  pub record SimulationNode : Type 0 where
    pub id : ℕ
    pub scope : Scope
    pub x : Float
    pub y : Float
    pub vx : Float
    pub vy : Float

  pub record LayoutNode : Type 0 where
    pub id : ℕ
    pub scope : Scope
    pub x : Float
    pub y : Float

  pub record LayoutEdge : Type 0 where
    pub source_node_id : ℕ
    pub target_node_id : ℕ
    pub strength : Float

  pub record WorldBounds : Type 0 where
    pub min_x : Float
    pub min_y : Float
    pub max_x : Float
    pub max_y : Float

  pub record CardScopeLayout : Type 0 where
    pub layout_version : String
    pub generated_at : ℕ
    pub world_bounds : WorldBounds
    pub nodes : List LayoutNode
    pub edges : List LayoutEdge

  pub record LayoutSlice : Type 0 where
    pub layout_version : String
    pub requested_bounds : WorldBounds
    pub nodes : List LayoutNode
    pub edges : List LayoutEdge

abbrev pub taxonomy_card_scope_layout_version : String
taxonomy_card_scope_layout_version = "taxonomy-card-scope-layout-v2"

module _ (fs : Floats) where
  open fs use {Float, lt, le, is_finite, literal}

  abbrev pub zero_float : Float
  zero_float = literal "0.0"

  abbrev pub one_float : Float
  one_float = literal "1.0"

  -- The fields in the order of their checks.
  abbrev pub number_ok : Float → Bool
  number_ok v = is_finite v

  abbrev pub non_negative_ok : Float → Bool
  non_negative_ok v = is_finite v && not (lt v zero_float)

  abbrev pub fraction_exclusive_ok : Float → Bool
  fraction_exclusive_ok v = is_finite v && (lt zero_float v && lt v one_float)

  abbrev pub fraction_inclusive_ok : Float → Bool
  fraction_inclusive_ok v = is_finite v && (le zero_float v && le v one_float)

  abbrev pub checks : TaxonomyCardScopeLayoutParams Float → List (String × Bool)
  checks p =
      ("alpha_min", fraction_exclusive_ok p.alpha_min)
      ∷ ("velocity_retention", fraction_inclusive_ok p.velocity_retention)
      ∷ ("seed_base_radius", non_negative_ok p.seed_base_radius)
      ∷ ("seed_radius_step", non_negative_ok p.seed_radius_step)
      ∷ ("link_base_distance", non_negative_ok p.link_base_distance)
      ∷ ("link_distance_strength_factor", number_ok p.link_distance_strength_factor)
      ∷ ("link_base_strength", number_ok p.link_base_strength)
      ∷ ("link_strength_factor", number_ok p.link_strength_factor)
      ∷ ("charge_strength", number_ok p.charge_strength)
      ∷ ("collision_radius", non_negative_ok p.collision_radius)
      ∷ ("collision_strength", non_negative_ok p.collision_strength)
      ∷ ("center_gravity_strength", non_negative_ok p.center_gravity_strength)
      ∷ ("radial_boundary_radius", non_negative_ok p.radial_boundary_radius)
      ∷ ("radial_boundary_strength", non_negative_ok p.radial_boundary_strength)
      ∷ []

  abbrev pub first_failure : List (String × Bool) → Option String
  first_failure [] = none
  first_failure ((name, passed) ∷ more) = if passed then first_failure more else some name

  -- `__post_init__`; the ticks are a natural number.
  unfoldable pub make_params :
      TaxonomyCardScopeLayoutParams Float → Result Error (TaxonomyCardScopeLayoutParams Float)
  make_params p = elim (first_failure (checks p)) [
    | none ↦ ok p
    | some name ↦ err (value_error name)
  ]
