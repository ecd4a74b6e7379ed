-- ===== src/Tests/Loading.antt =====
-- The ontology loader at a concrete ontology.
use moos_kernel.Prelude.{
  ◌≡◌, ◌⊎◌, refl, inl, inr, String, true, false, Option, none, some, List, [], ◌∷◌, ok, get, put,
  contains,
}
use moos_kernel.Graph.{null}
use moos_kernel.Operad.{
  PortSpec, NodeTypeSpec, AdditionalPortPair, RewriteCategorySpec, Registry, contains_string,
}
use moos_kernel.Operad.Validate.{resolve_port_colors}
use moos_kernel.Operad.Loader.{RawNodeType, RawRewriteCategory, OntologyJson, category_spec}
use moos_kernel.Operad.Loader.Colors.{known_port_color}
use moos_kernel.Operad.Loader.Source.{declared_pairs}
use moos_kernel.Operad.Loader.Ports.{resolve_type_ports}
use moos_kernel.Operad.Loader.Ontology.{load_ontology}
use moos_kernel.Operad.Loader.Colored.{load_ontology_colors}
use moos_kernel.Operad.Loader.Served.{Serves, resolve_type_ports-Serves}

abbrev task : RawNodeType
task = record {
  id = "task";
  stratum = "S2";
  urn_pattern = "";
  ports = some (record { out = some ("member-of" ∷ "part-of" ∷ []); inward = none; self = [] });
  properties = [];
}

abbrev member_pair : AdditionalPortPair
member_pair = record {
  src_port = "member-of";
  tgt_port = "has-member";
  src_types = "task" ∷ [];
  tgt_types = "team" ∷ [];
  added_in_version = "";
  promotes_fragment = "";
  description = "";
}

abbrev part : RawRewriteCategory
part = record {
  id = "WF05";
  name = "part";
  allowed_rewrites = "LINK" ∷ "UNLINK" ∷ [];
  src_types = "*" ∷ [];
  tgt_types = "*" ∷ [];
  src_port = "part-of";
  tgt_port = "has-part";
  additional_port_pairs = member_pair ∷ [];
  authority = "";
  mutate_scope = null;
  sync_mode = "";
}

abbrev ontology : OntologyJson
ontology = record {
  version = "4";
  s2_infrastructure = task ∷ [];
  s1_grammar = [];
  interaction_nodes = [];
  rewrite_categories = part ∷ [];
  port_color_compatibility = record {
    port_colors = some ("compute" ∷ "topology" ∷ []);
    matrix = none;
    port_color_map =
        ("part-of", some "compute")
        ∷ ("has-part", some "compute")
        ∷ ("member-of", some "topology")
        ∷ ("has-member", some "topology")
        ∷ [];
  };
}

abbrev loaded : Registry
loaded = record {
  version = "4";
  node_types =
      (
        "task",
        record {
          id = "task";
          stratum = "S2";
          urn_pattern = "";
          ports = record {
            out = some ("part-of" ∷ "member-of" ∷ []);
            inward = some ("has-part" ∷ []);
            self = [];
          };
          properties = [];
        },
      )
      ∷ [];
  rewrite_categories = ("WF05", category_spec part) ∷ [];
  port_color_matrix = [];
  port_colors = some (
      ("part-of", "compute")
      ∷ ("has-part", "compute")
      ∷ ("member-of", "topology")
      ∷ ("has-member", "topology")
      ∷ []);
  port_color_source = "ontology";
  ports_generated = true;
  ports_drift = [];
}

loads : load_ontology ontology ≡ ok loaded
unfolding load_ontology contains moos_kernel.Prelude.set_add moos_kernel.Prelude.sort_strings put
    get moos_kernel.Operad.Loader.Source.lay_over contains_string
    moos_kernel.Operad.Loader.Ontology.empty_registry
loads = refl

found : get "WF05" loaded.rewrite_categories ≡ some (category_spec part)
unfolding get
found = refl

load_ontology_colors_example :
    (c : String) × (d : String) × (resolve_port_colors loaded "member-of" "has-member"
      ≡ some (c, d))
    × (known_port_color c ≡ true)
    × (known_port_color d ≡ true)
load_ontology_colors_example =
    load_ontology_colors ontology loaded "WF05" (category_spec part) "member-of" "has-member" loads
      refl found (unfold declared_pairs category_spec in inr (inl refl))

abbrev port : String
port = "part-of"

abbrev a_task : NodeTypeSpec
a_task = record {
  id = "task";
  stratum = "S2";
  urn_pattern = "";
  ports = record { out = some ("member-of" ∷ "part-of" ∷ []); inward = none; self = [] };
  properties = [];
}

-- The registry before its ports are resolved.
abbrev authored : Registry
authored = record loaded { node_types = ("task", a_task) ∷ []; ports_generated = false }

authored_task : get "task" authored.node_types ≡ some a_task
unfolding get
authored_task = refl

resolve_type_ports-Serves_example :
    (ps : PortSpec) × (get "task" (resolve_type_ports authored ("task" ∷ []) (part ∷ [])).node_types
      ≡ some (record a_task { ports = ps }))
    × Serves a_task.ports.out ps.out
    × Serves a_task.ports.inward ps.inward
    × (ps.self ≡ a_task.ports.self)
resolve_type_ports-Serves_example =
    resolve_type_ports-Serves authored ("task" ∷ []) (part ∷ []) "task" a_task authored_task
