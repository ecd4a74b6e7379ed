-- ===== src/Operad.antt =====
-- internal/operad/registry.go: the grammar that rewrites are validated against.
use moos_kernel.Prelude.{
  ℕ, String, Bool, true, false, Option, none, some, List, [], ◌∷◌, Map, ◌==◌, ◌||◌, if◌then◌else◌,
}
use moos_kernel.Graph.{
  TypeId, RewriteCategory, RewriteType, add, link, mutate, unlink, other, Value,
}
pub mod Colors
pub mod Validate
pub mod Members
pub mod Pairs
pub mod Link
pub mod Mutate
pub mod Causal
pub mod Strata
pub mod Occupancy
pub mod Session
pub mod Loader

-- A list that Go may hold as nil is `none` then.
pub record PortSpec : Type 0 where
  pub out : Option (List String)
  pub inward : Option (List String)
  pub self : List String

pub record PropertySpec : Type 0 where
  pub mutability : String
  pub authority_scope : String
  pub type : String
  pub values : List Value
  pub note : String

pub record NodeTypeSpec : Type 0 where
  pub id : TypeId
  pub stratum : String
  pub urn_pattern : String
  pub ports : PortSpec
  pub properties : Map PropertySpec

pub record AdditionalPortPair : Type 0 where
  pub src_port : String
  pub tgt_port : String
  pub src_types : List TypeId
  pub tgt_types : List TypeId
  pub added_in_version : String
  pub promotes_fragment : String
  pub description : String

pub record RewriteCategorySpec : Type 0 where
  pub id : RewriteCategory
  pub name : String
  pub allowed_rewrites : List RewriteType
  pub src_types : List TypeId
  pub tgt_types : List TypeId
  pub src_port : String
  pub tgt_port : String
  pub additional_port_pairs : List AdditionalPortPair
  pub authority : String
  pub mutate_scope : List String
  pub sync_mode : String

pub record PortsDrift : Type 0 where
  pub missing_out : List String
  pub missing_in : List String
  pub unpaired_out : List String
  pub unpaired_in : List String

-- A color is a string; `port_colors` is `none` where the Go map is nil.
pub record Registry : Type 0 where
  pub version : String
  pub node_types : Map NodeTypeSpec
  pub rewrite_categories : Map RewriteCategorySpec
  pub port_color_matrix : Map (Map String)
  pub port_colors : Option (Map String)
  pub port_color_source : String
  pub ports_generated : Bool
  pub ports_drift : Map PortsDrift

-- The errors of the validators, by the check that fails.
pub data OperadError : Type 0 where
  unknown_type unknown_category not_allowed no_contract : String → OperadError
  missing_immutable undeclared_field not_mutable out_of_scope immutable_field : String → OperadError
  undeclared_pair uncolored color_mismatch : String → String → OperadError
  not_owner : String → String → OperadError
  strata_direction src_type_refused tgt_type_refused : String → String → OperadError
  self_cause causal_cycle : String → String → OperadError
  unfinished_search : OperadError

-- `==` on rewrite types
unfoldable pub same_type : RewriteType → RewriteType → Bool
same_type add add = true
same_type link link = true
same_type mutate mutate = true
same_type unlink unlink = true
same_type (other a) (other b) = a == b
same_type _ _ = false

-- `containsRewrite`
unfoldable pub contains_rewrite : List RewriteType → RewriteType → Bool
contains_rewrite [] rt = false
contains_rewrite (r ∷ rs) rt = same_type r rt || contains_rewrite rs rt

-- `containsString`
unfoldable pub contains_string : List String → String → Bool
contains_string [] s = false
contains_string (v ∷ vs) s = v == s || contains_string vs s

-- `typeAllowed`
unfoldable pub type_allowed : List TypeId → TypeId → Bool
type_allowed [] ty = false
type_allowed (v ∷ vs) ty = v == "*" || v == ty || type_allowed vs ty
