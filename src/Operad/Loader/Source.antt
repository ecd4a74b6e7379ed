-- ===== src/Operad/Loader/Source.antt =====
-- internal/operad/loader.go: the source of the port colors.
use moos_kernel.Prelude.{
  ℕ, suc, String, Bool, not, ◌&&◌, ◌||◌, none, some, List, [], ◌∷◌, ◌==◌, nat_eq, if◌then◌else◌,
  length, Result, ok, ◌>>◌, reject_if, Map, get, put, is_some, is_empty, contains, set_add,
  sort_strings,
}
use moos_kernel.Operad.{AdditionalPortPair, RewriteCategorySpec, Registry}
use moos_kernel.Operad.Colors.{legacy_port_colors}
use moos_kernel.Operad.Loader.{LoadError, undeclared_color}

-- `declaredPairs`
unfoldable pub additional_ends : List AdditionalPortPair → List (String × String)
additional_ends [] = []
additional_ends (ap ∷ aps) = (ap.src_port, ap.tgt_port) ∷ additional_ends aps

unfoldable pub declared_pairs : RewriteCategorySpec → List (String × String)
unfolding additional_ends
declared_pairs spec =
    let additional = additional_ends spec.additional_port_pairs in
    if not (spec.src_port == "") || not (spec.tgt_port == "")
    then (spec.src_port, spec.tgt_port) ∷ additional
    else additional

unfoldable pub see_pairs : List (String × String) → List String → List String
see_pairs [] seen = seen
see_pairs ((src, tgt) ∷ pairs) seen = see_pairs pairs (set_add tgt (set_add src seen))

unfoldable pub see_categories : Map RewriteCategorySpec → List String → List String
unfolding see_pairs declared_pairs
see_categories [] seen = seen
see_categories ((wf, spec) ∷ specs) seen =
    see_categories specs (see_pairs (declared_pairs spec) seen)

-- `declaredPortEnds`
unfoldable pub declared_port_ends : Map RewriteCategorySpec → List String
unfolding see_categories
declared_port_ends specs = sort_strings (see_categories specs [])

unfoldable pub count_covered : Map String → List String → ℕ
count_covered own [] = 0
count_covered own (port ∷ ends) =
    let rest = count_covered own ends in if is_some (get port own) then suc rest else rest

-- A map laid over another.
unfoldable pub lay_over : Map String → Map String → Map String
lay_over [] colors = colors
lay_over ((port, c) ∷ own) colors = lay_over own (put port c colors)

unfoldable pub check_ends : List String → Map String → List String → Result LoadError (Unit {0})
check_ends declared colors [] = ok tt
check_ends declared colors (port ∷ ends) = elim (get port colors) [
  | none ↦ check_ends declared colors ends
  | some c ↦ do
    reject_if (not (contains c declared)) (undeclared_color c port)
    check_ends declared colors ends
]

-- The colors and the name of their source, by whether the ontology colors every declared end.
abbrev pub colors_of : Bool → Map String → Map String
colors_of self_colored own =
    if self_colored then lay_over own [] else lay_over own legacy_port_colors

abbrev pub sourced : Registry → Bool → Map String → Registry
sourced reg self_colored own = record reg {
  port_colors = some (colors_of self_colored own);
  port_color_source = if self_colored then "ontology" else "ontology+kernel-legacy";
}

-- `resolvePortColorSource`
unfoldable pub resolve_port_color_source :
    Registry → Map String → List String → Result LoadError Registry
unfolding declared_port_ends count_covered check_ends
resolve_port_color_source reg own declared =
    let ends = declared_port_ends reg.rewrite_categories in
    let self_colored = not (is_empty ends) && nat_eq (count_covered own ends) (length ends) in
    do check_ends declared (colors_of self_colored own) ends; ok (sourced reg self_colored own)
