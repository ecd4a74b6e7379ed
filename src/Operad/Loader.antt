-- ===== src/Operad/Loader.antt =====
-- internal/operad/loader.go: the registry from a decoded ontology, with the refusals of the loader.
use moos_kernel.Prelude.{
  ℕ, suc, String, Bool, true, false, not, ◌&&◌, ◌||◌, Option, none, some, List, [], ◌∷◌, ◌++◌, map,
  ◌==◌, nat_eq, ltb, if◌then◌else◌, length, Result, ok, err, ◌>>=◌, ◌>>◌, reject_if, Map, get, put,
  is_some, is_empty, contains, set_add, sort_strings,
}
use moos_kernel.Graph.{
  TypeId, RewriteType, add, link, mutate, unlink, other, Value, null, bool, str, array, Items, nil,
  cons,
}
use moos_kernel.Operad.{
  PortSpec, PropertySpec, NodeTypeSpec, AdditionalPortPair, RewriteCategorySpec, PortsDrift,
  Registry,
}
use moos_kernel.Operad.Colors.{legacy_port_colors}
pub mod Colors
pub mod Source
pub mod Ports
pub mod Keys
pub mod Ontology
pub mod Ends
pub mod Colored
pub mod Admitted
pub mod Served

-- The errors of the loader, by the check that fails.
pub data LoadError : Type 0 where
  unreadable unparsable unscannable : String → LoadError
  duplicate_key : String → String → LoadError
  empty_types mixed_types : String → String → LoadError
  unknown_color listed_twice undeclared_row null_row : String → LoadError
  undeclared_column invalid_cell : String → String → LoadError
  null_color empty_color : String → LoadError
  undeclared_color : String → String → LoadError

pub record RawPorts : Type 0 where
  pub out : Option (List String)
  pub inward : Option (List String)
  pub self : List String

-- `rawPropertySpec` has the fields of `PropertySpec`, and `rawAdditionalPortPair` those of
-- `AdditionalPortPair`.
pub record RawNodeType : Type 0 where
  pub id : TypeId
  pub stratum : String
  pub urn_pattern : String
  pub ports : Option RawPorts
  pub properties : Map PropertySpec

pub record RawRewriteCategory : Type 0 where
  pub id : String
  pub name : String
  pub allowed_rewrites : List String
  pub src_types : List String
  pub tgt_types : List String
  pub src_port : String
  pub tgt_port : String
  pub additional_port_pairs : List AdditionalPortPair
  pub authority : String
  pub mutate_scope : Value
  pub sync_mode : String

-- A nil list or map is `none`, and so is a color that is null.
pub record RawPortColorCompat : Type 0 where
  pub port_colors : Option (List String)
  pub matrix : Option (Map (Option (Map Value)))
  pub port_color_map : Map (Option String)

pub record OntologyJson : Type 0 where
  pub version : String
  pub s2_infrastructure : List RawNodeType
  pub s1_grammar : List RawNodeType
  pub interaction_nodes : List RawNodeType
  pub rewrite_categories : List RawRewriteCategory
  pub port_color_compatibility : RawPortColorCompat

-- `parseNodeTypeSpec`; the copy of the properties holds what they hold.
unfoldable pub parse_node_type_spec : RawNodeType → NodeTypeSpec
parse_node_type_spec raw = record {
  id = raw.id;
  stratum = raw.stratum;
  urn_pattern = raw.urn_pattern;
  ports = elim raw.ports [
    | none ↦ record { out = none; inward = none; self = [] }
    | some p ↦ record { out = p.out; inward = p.inward; self = p.self }
  ];
  properties = raw.properties;
}

-- `graph.RewriteType(rt)`
unfoldable pub rewrite_type_of : String → RewriteType
rewrite_type_of rt =
    if rt == "ADD"
    then add
    else if rt == "LINK"
    then link
    else if rt == "MUTATE"
    then mutate
    else if rt == "UNLINK"
    then unlink
    else other rt

abbrev pub has_star : List String → Bool
has_star types = contains "*" types

unfoldable pub validate_type_list : String → String → List String → Result LoadError (Unit {0})
validate_type_list wf key types = do
  reject_if (is_empty types) (empty_types wf key)
  reject_if (has_star types && ltb 1 (length types)) (mixed_types wf key)

-- The strings among the elements of a JSON array.
unfoldable pub string_items : Items → List String
string_items nil = []
string_items (cons (str s) items) = s ∷ string_items items
string_items (cons _ items) = string_items items

abbrev pub scope_of : Value → List String
scope_of (array items) = string_items items
scope_of _ = []

unfoldable pub check_additional : String → List AdditionalPortPair → Result LoadError (Unit {0})
unfolding validate_type_list
check_additional wf [] = ok tt
check_additional wf (app ∷ apps) = do
  validate_type_list wf "src_types" app.src_types
  validate_type_list wf "tgt_types" app.tgt_types
  check_additional wf apps

abbrev pub check_primary : RawRewriteCategory → Result LoadError (Unit {0})
check_primary wf =
    if not (wf.src_port == "") || not (wf.tgt_port == "")
    then validate_type_list wf.id "src_types" wf.src_types
      >> validate_type_list wf.id "tgt_types" wf.tgt_types
    else ok tt

unfoldable pub category_spec : RawRewriteCategory → RewriteCategorySpec
unfolding rewrite_type_of string_items
category_spec wf = record {
  id = wf.id;
  name = wf.name;
  allowed_rewrites = map rewrite_type_of wf.allowed_rewrites;
  src_types = wf.src_types;
  tgt_types = wf.tgt_types;
  src_port = wf.src_port;
  tgt_port = wf.tgt_port;
  additional_port_pairs = wf.additional_port_pairs;
  authority = wf.authority;
  mutate_scope = scope_of wf.mutate_scope;
  sync_mode = wf.sync_mode;
}

unfoldable pub load_categories :
    List RawRewriteCategory → Map RewriteCategorySpec → Result LoadError (Map RewriteCategorySpec)
unfolding check_additional category_spec
load_categories [] loaded = ok loaded
load_categories (wf ∷ wfs) loaded = do
  check_primary wf
  check_additional wf.id wf.additional_port_pairs
  load_categories wfs (put wf.id (category_spec wf) loaded)
