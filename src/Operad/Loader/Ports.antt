-- ===== src/Operad/Loader/Ports.antt =====
-- internal/operad/loader.go: the ports of a type, generated from the declared pairs.
use Prim.Native.String.{slice, len}
use moos_kernel.Prelude.{
  ◌-◌, String, Bool, true, false, not, ◌&&◌, ◌||◌, Option, none, some, List, [], ◌∷◌, ◌++◌, ◌==◌,
  leb, if◌then◌else◌, Map, get, put, is_empty, sort_strings,
}
use moos_kernel.Graph.{TypeId}
use moos_kernel.Operad.{
  PortSpec, NodeTypeSpec, AdditionalPortPair, PortsDrift, Registry, contains_string,
}
use moos_kernel.Operad.Loader.{RawRewriteCategory}

pub record RawPortPair : Type 0 where
  pub src : String
  pub tgt : String
  pub src_types : List String
  pub tgt_types : List String

unfoldable pub additional_pairs : List AdditionalPortPair → List RawPortPair
additional_pairs [] = []
additional_pairs (ap ∷ aps) =
    record {
      src = ap.src_port;
      tgt = ap.tgt_port;
      src_types = ap.src_types;
      tgt_types = ap.tgt_types;
    }
    ∷ additional_pairs aps

abbrev pub primary_pair : RawRewriteCategory → List RawPortPair
primary_pair wf =
    if not (wf.src_port == "") || not (wf.tgt_port == "")
    then record {
      src = wf.src_port;
      tgt = wf.tgt_port;
      src_types = wf.src_types;
      tgt_types = wf.tgt_types;
    }
      ∷ []
    else []

-- `rawDeclaredPairs`
unfoldable pub raw_declared_pairs : List RawRewriteCategory → List RawPortPair
unfolding additional_pairs
raw_declared_pairs [] = []
raw_declared_pairs (wf ∷ wfs) =
    primary_pair wf ++ additional_pairs wf.additional_port_pairs ++ raw_declared_pairs wfs

-- `isPlaceholderPort`
unfoldable pub is_placeholder_port : String → Bool
is_placeholder_port port =
    leb 2 (len port) && slice port 0 1 == "{" && slice port (len port - 1) (len port) == "}"

abbrev pub skipped : RawPortPair → Bool
skipped pr = is_placeholder_port pr.src || is_placeholder_port pr.tgt

unfoldable pub admitted_in : List String → TypeId → Bool
admitted_in [] id = false
admitted_in (t ∷ list) id = t == "*" || t == id || admitted_in list id

-- `admitsType`
unfoldable pub admits_type : List String → TypeId → Bool
unfolding admitted_in
admits_type list id = is_empty list || admitted_in list id

-- The ports of a list that may be nil.
abbrev pub ports_of : Option (List String) → List String
ports_of none = []
ports_of (some ports) = ports

-- `append` where the port is named, admitted and new.
unfoldable pub add_port : Bool → String → Option (List String) → Option (List String)
add_port admitted port ports =
    if not (port == "") && admitted && not (contains_string (ports_of ports) port)
    then some (ports_of ports ++ port ∷ [])
    else ports

unfoldable pub pair_ports : RawPortPair → TypeId → PortSpec → PortSpec
unfolding add_port admits_type
pair_ports pr id ps = record ps {
  out = add_port (admits_type pr.src_types id) pr.src ps.out;
  inward = add_port (admits_type pr.tgt_types id) pr.tgt ps.inward;
}

abbrev pub no_ports : PortSpec
no_ports = record { out = none; inward = none; self = [] }

-- `gen[id]`, the zero value where the key is missing.
abbrev pub ports_at : TypeId → Map PortSpec → PortSpec
ports_at id gen = elim (get id gen) [ none ↦ no_ports | some ps ↦ ps ]

unfoldable pub add_pair : RawPortPair → List TypeId → Map PortSpec → Map PortSpec
unfolding pair_ports
add_pair pr [] gen = gen
add_pair pr (id ∷ ids) gen = add_pair pr ids (put id (pair_ports pr id (ports_at id gen)) gen)

unfoldable pub add_pairs : List RawPortPair → List TypeId → Map PortSpec → Map PortSpec
unfolding add_pair
add_pairs [] ids gen = gen
add_pairs (pr ∷ prs) ids gen =
    if skipped pr then add_pairs prs ids gen else add_pairs prs ids (add_pair pr ids gen)

unfoldable pub start_ports : List TypeId → Map PortSpec → Map PortSpec
start_ports [] gen = gen
start_ports (id ∷ ids) gen = start_ports ids (put id no_ports gen)

-- `generateTypePorts`
unfoldable pub generate_type_ports : List TypeId → List RawRewriteCategory → Map PortSpec
unfolding add_pairs start_ports raw_declared_pairs
generate_type_ports ids wfs = add_pairs (raw_declared_pairs wfs) ids (start_ports ids [])

unfoldable pub diff_from : List String → List String → List String → List String
diff_from b [] out = out
diff_from b (x ∷ a) out =
    if not (contains_string b x) && not (contains_string out x)
    then diff_from b a (out ++ x ∷ [])
    else diff_from b a out

-- `setDiff`
unfoldable pub set_diff : List String → List String → List String
unfolding diff_from
set_diff a b = sort_strings (diff_from b a [])

-- What the authored list lacks and what it has beside the generated one; nothing where it is nil.
abbrev pub list_drift : Option (List String) → List String → List String × List String
list_drift none generated = ([], [])
list_drift (some authored) generated = (set_diff generated authored, set_diff authored generated)

unfoldable pub type_drift : PortSpec → PortSpec → PortsDrift
unfolding set_diff
type_drift authored generated =
    let out = list_drift authored.out (ports_of generated.out) in
    let inward = list_drift authored.inward (ports_of generated.inward) in
    record {
      missing_out = out.0;
      missing_in = inward.0;
      unpaired_out = out.1;
      unpaired_in = inward.1;
    }

abbrev pub no_drift : PortsDrift → Bool
no_drift d =
    is_empty d.missing_out
    && is_empty d.missing_in
    && is_empty d.unpaired_out
    && is_empty d.unpaired_in

-- `portsDrift`
unfoldable pub ports_drift_of : Map NodeTypeSpec → Map PortSpec → Map PortsDrift
unfolding type_drift
ports_drift_of [] gen = []
ports_drift_of ((id, spec) ∷ specs) gen =
    let rest = ports_drift_of specs gen in
    let d = type_drift spec.ports (ports_at id gen) in if no_drift d then rest else (id, d) ∷ rest

-- An authored list, which generates nothing, stays empty and does not become nil.
abbrev pub served : Option (List String) → Option (List String) → Option (List String)
served (some authored) none = some []
served authored generated = generated

unfoldable pub serve_generated : Map NodeTypeSpec → Map PortSpec → Map NodeTypeSpec
serve_generated [] gen = []
serve_generated ((id, spec) ∷ specs) gen =
    let ps = ports_at id gen in
    (
      id,
      record spec {
        ports = record spec.ports {
          out = served spec.ports.out ps.out;
          inward = served spec.ports.inward ps.inward;
        };
      },
    )
    ∷ serve_generated specs gen

abbrev pub has_pair : List RawPortPair → Bool
has_pair [] = false
has_pair (pr ∷ prs) = if skipped pr then has_pair prs else true

-- `resolveTypePorts`
unfoldable pub resolve_type_ports : Registry → List TypeId → List RawRewriteCategory → Registry
unfolding generate_type_ports ports_drift_of serve_generated raw_declared_pairs is_placeholder_port
resolve_type_ports reg type_order wfs =
    let gen = generate_type_ports type_order wfs in
    let drift = ports_drift_of reg.node_types gen in
    if not (has_pair (raw_declared_pairs wfs))
    then reg
    else if is_empty drift
    then record reg { node_types = serve_generated reg.node_types gen; ports_generated = true }
    else record reg { ports_drift = drift }
