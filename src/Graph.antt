-- ===== src/Graph.antt =====
-- internal/graph: the types of nodes, relations, rewrites and the folded state.
--
-- A URN, a TypeID and a RewriteCategory are Go strings. An int64 is its bit pattern, a number below
-- 2 ^ 64; a time is the number of its nanoseconds from the zero time.
use moos_kernel.Prelude.{ℕ, zero, String, Bool, Option, none, some, List, [], ◌∷◌, Map, ◌==◌}
pub mod Numbers
pub mod Index
pub mod State
pub mod Consistent
pub mod Copies

abbrev pub Urn : Type 0
Urn = String

abbrev pub TypeId : Type 0
TypeId = String

abbrev pub RewriteCategory : Type 0
RewriteCategory = String

abbrev pub Time : Type 0
Time = ℕ

abbrev pub Int64 : Type 0
Int64 = ℕ

-- The four operations; `other` is any other string that an envelope may carry.
pub data RewriteType : Type 0 where
  add link mutate unlink : RewriteType
  other : String → RewriteType

-- What an `any` holds after JSON decoding or from the kernel's own code. A float64 is its IEEE bits.
mutual
  pub data Value : Type 0 where
    null : Value
    bool : Bool → Value
    str : String → Value
    int int64 float64 : ℕ → Value
    array : Items → Value
    object : Fields → Value

  pub data Items : Type 0 where
    nil : Items
    cons : Value → Items → Items

  pub data Fields : Type 0 where
    end : Fields
    field : String → Value → Fields → Fields

pub record Property : Type 0 where
  pub value : Value
  pub mutability : String
  pub authority_scope : String
  pub stratum_origin : ℕ
  pub validation_type : String

unfoldable pub immutable : Property → Bool
immutable p = p.mutability == "immutable"

pub record Node : Type 0 where
  pub urn : Urn
  pub type_id : TypeId
  pub properties : Map Property
  pub created_at : Time
  pub version : Int64

pub record Relation : Type 0 where
  pub urn : Urn
  pub rewrite_category : RewriteCategory
  pub src_urn : Urn
  pub src_port : String
  pub tgt_urn : Urn
  pub tgt_port : String
  pub contract_urn : Urn
  pub created_at : Time

pub record Envelope : Type 0 where
  pub rewrite_type : RewriteType
  pub actor : Urn
  pub session_urn : Urn
  pub node_urn : Urn
  pub type_id : TypeId
  pub properties : Map Property
  pub relation_urn : Urn
  pub src_urn : Urn
  pub src_port : String
  pub tgt_urn : Urn
  pub tgt_port : String
  pub rewrite_category : RewriteCategory
  pub contract_urn : Urn
  pub target_urn : Urn
  pub field : String
  pub new_value : Value
  pub expected_version : Int64
  pub property_spec : Option Property

-- The zero value of the Go struct, from which a literal with named fields is built.
abbrev pub no_envelope : Envelope
no_envelope = record {
  rewrite_type = other "";
  actor = "";
  session_urn = "";
  node_urn = "";
  type_id = "";
  properties = [];
  relation_urn = "";
  src_urn = "";
  src_port = "";
  tgt_urn = "";
  tgt_port = "";
  rewrite_category = "";
  contract_urn = "";
  target_urn = "";
  field = "";
  new_value = null;
  expected_version = 0;
  property_spec = none;
}

pub record EvalResult : Type 0 where
  pub affected_node_urn : Urn
  pub affected_relation_urn : Urn

pub record PersistedRewrite : Type 0 where
  pub envelope : Envelope
  pub applied_at : Time
  pub timestamp : Time
  pub log_seq : Int64

-- The secondary indexes: a set of URNs for each key.
abbrev pub Index : Type 0
Index = Map (List Urn)

-- `none` is a nil index.
pub record GraphState : Type 0 where
  pub nodes : Map Node
  pub relations : Map Relation
  pub nodes_by_type : Option Index
  pub relations_by_src : Option Index
  pub relations_by_tgt : Option Index
