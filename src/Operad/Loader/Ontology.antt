-- ===== src/Operad/Loader/Ontology.antt =====
-- internal/operad/loader.go, `LoadRegistry`. Its warnings write to the process log only.
use moos_kernel.Prelude.{
  String, false, none, some, List, [], ◌∷◌, ◌++◌, map, ◌==◌, if◌then◌else◌, Result, ok, err, ◌>>=◌,
  Map, put,
}
use moos_kernel.Graph.{TypeId}
use moos_kernel.Operad.{NodeTypeSpec, RewriteCategorySpec, Registry}
use moos_kernel.Operad.Colors.{legacy_port_colors}
use moos_kernel.Operad.Loader.{
  LoadError, unreadable, unparsable, RawNodeType, OntologyJson, parse_node_type_spec,
  load_categories,
}
use moos_kernel.Operad.Loader.Colors.{declared_port_colors, parse_color_matrix, own_colors}
use moos_kernel.Operad.Loader.Source.{resolve_port_color_source}
use moos_kernel.Operad.Loader.Ports.{resolve_type_ports}
use moos_kernel.Operad.Loader.Keys.{Scanner, check_color_section_keys}

-- `EmptyRegistry`
unfoldable pub empty_registry : Registry
unfolding legacy_port_colors
empty_registry = record {
  version = "";
  node_types = [];
  rewrite_categories = [];
  port_color_matrix = [];
  port_colors = some legacy_port_colors;
  port_color_source = "ontology+kernel-legacy";
  ports_generated = false;
  ports_drift = [];
}

abbrev pub all_types : OntologyJson → List RawNodeType
all_types raw = raw.s2_infrastructure ++ raw.s1_grammar ++ raw.interaction_nodes

unfoldable pub load_types : List RawNodeType → Map NodeTypeSpec → Map NodeTypeSpec
unfolding parse_node_type_spec
load_types [] types = types
load_types (nt ∷ nts) types = load_types nts (put nt.id (parse_node_type_spec nt) types)

abbrev pub type_order : OntologyJson → List TypeId
type_order raw = map (λ nt. nt.id) (all_types raw)

abbrev pub load_matrix : OntologyJson → List String → Result LoadError (Map (Map String))
load_matrix raw declared = elim raw.port_color_compatibility.matrix [
  | none ↦ ok []
  | some matrix ↦ parse_color_matrix matrix declared
]

-- The registry before its port colors are resolved.
abbrev pub uncolored_registry : OntologyJson → Map RewriteCategorySpec → Map (Map String) → Registry
uncolored_registry raw categories matrix = record empty_registry {
  version = raw.version;
  node_types = load_types (all_types raw) [];
  rewrite_categories = categories;
  port_color_matrix = matrix;
}

-- The steps of `LoadRegistry` in turn, each after what the steps before it loaded.
abbrev pub after_colors : OntologyJson → Registry → Result LoadError Registry
after_colors raw reg = ok (resolve_type_ports reg (type_order raw) raw.rewrite_categories)

abbrev pub after_own :
    OntologyJson
    → Map RewriteCategorySpec
    → List String
    → Map (Map String)
    → Map String
    → Result LoadError Registry
after_own raw categories declared matrix own =
    resolve_port_color_source (uncolored_registry raw categories matrix) own declared
    >>= after_colors raw

abbrev pub after_matrix :
    OntologyJson
    → Map RewriteCategorySpec
    → List String
    → Map (Map String)
    → Result LoadError Registry
after_matrix raw categories declared matrix =
    own_colors declared raw.port_color_compatibility.port_color_map []
    >>= after_own raw categories declared matrix

abbrev pub after_declared :
    OntologyJson → Map RewriteCategorySpec → List String → Result LoadError Registry
after_declared raw categories declared =
    load_matrix raw declared >>= after_matrix raw categories declared

abbrev pub after_categories : OntologyJson → Map RewriteCategorySpec → Result LoadError Registry
after_categories raw categories =
    declared_port_colors raw.port_color_compatibility.port_colors >>= after_declared raw categories

-- `LoadRegistry` from the decoded ontology on.
unfoldable pub load_ontology : OntologyJson → Result LoadError Registry
unfolding load_types load_categories declared_port_colors parse_color_matrix own_colors
    resolve_port_color_source resolve_type_ports
load_ontology raw = load_categories raw.rewrite_categories [] >>= after_categories raw

-- What the loader takes from its host: the file, the JSON decoder and its scanner.
pub record Source : Type 0 where
  pub read_file : String → Result String String
  pub unmarshal : String → Result String OntologyJson
  pub scanner : Scanner

abbrev pub as_load : {A : Type 0} → (String → LoadError) → Result String A → Result LoadError A
as_load e (ok a) = ok a
as_load e (err s) = err (e s)

-- `LoadRegistry`
unfoldable pub load_registry : Source → String → Result LoadError Registry
unfolding load_ontology check_color_section_keys
load_registry source path =
    let loaded = as_load unreadable (source.read_file path) >>= λ text.
    as_load unparsable (source.unmarshal text) >>= λ raw.
    check_color_section_keys source.scanner text >>= λ _. load_ontology raw in
    if path == "" then ok empty_registry else loaded
