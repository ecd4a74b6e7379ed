-- ===== src/Operad/Loader/Colored.antt =====
-- The colors of a loaded registry: `resolvePortColorSource` and what it starts from.
use moos_kernel.Prelude.{
  ◌≡◌, refl, sym, ◌∙◌, ap, String, Bool, true, false, not, ◌&&◌, some, List, [], ◌==◌, eq_of_test,
  test_of_eq, nat_eq, arith, inl, inr, length, Bool-cases, Option-cases, ok, ◌>>◌, >>=-eq-ok, Map,
  get, is_some, is_empty, contains, contains-sort_strings,
}
use moos_kernel.Operad.{RewriteCategorySpec, Registry}
use moos_kernel.Operad.Validate.{port_color, color_table, resolve_port_colors}
use moos_kernel.Reactive.Engine.Scans.{In}
use moos_kernel.Operad.Loader.{RawRewriteCategory, OntologyJson, load_categories}
use moos_kernel.Operad.Loader.Colors.{known_port_color, declared_port_colors, own_colors}
use moos_kernel.Operad.Loader.Source.{
  declared_pairs, see_categories, declared_port_ends, count_covered, lay_over, check_ends,
  resolve_port_color_source, colors_of, sourced,
}
use moos_kernel.Operad.Loader.Ports.{resolve_type_ports}
use moos_kernel.Operad.Loader.Ontology.{
  type_order, load_matrix, uncolored_registry, after_colors, after_own, after_matrix,
  after_declared, after_categories, load_ontology,
}
use moos_kernel.Operad.Loader.Ends.{
  AllKnown, declared_port_colors-AllKnown, see_categories-Seen, count_covered-all, lay_over-keeps,
  check_ends-declared,
}

picked :
    (reg reg' : Registry) (own : Map String) (declared ends : List String) (self_colored : Bool)
    → (check_ends declared (colors_of self_colored own) ends >> ok (sourced reg self_colored own))
      ≡ ok reg'
    → reg'.port_color_source ≡ "ontology"
    → (self_colored ≡ true)
      × (reg' ≡ sourced reg true own)
      × (check_ends declared (lay_over own []) ends ≡ ok tt)
picked reg reg' own declared ends true h source =
    let (u, checked, made) =
      >>=-eq-ok (check_ends declared (lay_over own []) ends) (λ _. ok (sourced reg true own)) reg'
        h in
    (refl, ground arith, checked)
picked reg reg' own declared ends false h source =
    let (u, checked, made) =
      >>=-eq-ok (check_ends declared (colors_of false own) ends) (λ _. ok (sourced reg false own))
        reg' h in
    let legacy : sourced reg false own ≡ reg' = ground arith in
    let clash : ◌≡◌ {A = String} "ontology+kernel-legacy" "ontology" =
      ap (λ (r : Registry). r.port_color_source) legacy ∙ source in
    let same : ("ontology+kernel-legacy" == "ontology") ≡ true =
      test_of_eq "ontology+kernel-legacy" "ontology" clash in
    let other : ("ontology+kernel-legacy" == "ontology") ≡ false = refl in
    absurd (ground (arith, same, other))

-- What `resolvePortColorSource` leaves where it takes the ontology as the single source.
resolve_port_color_source-eq-ok :
    (reg reg' : Registry) (own : Map String) (declared : List String)
    → resolve_port_color_source reg own declared ≡ ok reg'
    → reg'.port_color_source ≡ "ontology"
    → (reg'.rewrite_categories ≡ reg.rewrite_categories)
      × (reg'.port_colors ≡ some (lay_over own []))
      × (count_covered own (declared_port_ends reg.rewrite_categories)
          ≡ length (declared_port_ends reg.rewrite_categories))
      × (check_ends declared (lay_over own []) (declared_port_ends reg.rewrite_categories) ≡ ok tt)
unfolding resolve_port_color_source
resolve_port_color_source-eq-ok reg reg' own declared h source =
    let ends = declared_port_ends reg.rewrite_categories in
    let self_colored = not (is_empty ends) && nat_eq (count_covered own ends) (length ends) in
    let (yes_all, made, checked) = picked reg reg' own declared ends self_colored h source in
    (
      ap (λ (r : Registry). r.rewrite_categories) made,
      ap (λ (r : Registry). r.port_colors) made,
      ground arith,
      checked,
    )

resolve_type_ports-colors :
    (reg : Registry) (order : List String) (wfs : List RawRewriteCategory)
    → ((resolve_type_ports reg order wfs).rewrite_categories ≡ reg.rewrite_categories)
      × ((resolve_type_ports reg order wfs).port_colors ≡ reg.port_colors)
      × ((resolve_type_ports reg order wfs).port_color_source ≡ reg.port_color_source)
unfolding resolve_type_ports
resolve_type_ports-colors reg order wfs = ground arith

-- A color that the kernel knows is not empty.
port_color-known :
    (colors : Map String) (port c : String)
    → get port colors ≡ some c
    → known_port_color c ≡ true
    → port_color colors port ≡ some c
unfolding port_color contains
port_color-known colors port c h known = elim (Bool-cases (c == "")) [
  | inl empty ↦
      let same : known_port_color c ≡ false = rw (eq_of_test c "" empty) refl in
      absurd (ground (arith, same))
  | inr named ↦ ground arith
]

-- The color of a declared end in a self-colored registry.
module _ (own : Map String) (declared ends : List String)
    (covered : count_covered own ends ≡ length ends)
    (checked : check_ends declared (lay_over own []) ends ≡ ok tt) (known : AllKnown declared) where
  end_color :
      (port : String)
      → contains port ends ≡ true
      → (c : String) × (port_color (lay_over own []) port ≡ some c) × (known_port_color c ≡ true)
  end_color port i =
      let here : is_some (get port (lay_over own [])) ≡ true =
        lay_over-keeps own [] port (inl (count_covered-all own ends port covered i)) in
      elim (Option-cases (get port (lay_over own []))) [
        | inl none_there ↦ absurd (ground arith)
        | inr (c, there) ↦
            let is_known =
              known c
                (check_ends-declared declared (lay_over own []) ends port c checked i there) in
            (c, port_color-known (lay_over own []) port c there is_known, is_known)
      ]

-- What a loaded ontology was loaded through.
load_ontology-eq-ok :
    (raw : OntologyJson) (reg : Registry)
    → load_ontology raw ≡ ok reg
    → (categories : Map RewriteCategorySpec) × (declared : List String) × (matrix : Map
        (Map String))
      × (own : Map String) × (base : Registry) × (declared_port_colors
            raw.port_color_compatibility.port_colors
          ≡ ok declared)
      × (resolve_port_color_source (uncolored_registry raw categories matrix) own declared
          ≡ ok base)
      × (resolve_type_ports base (type_order raw) raw.rewrite_categories ≡ reg)
unfolding load_ontology
load_ontology-eq-ok raw reg h =
    let (categories, _, h1) =
      >>=-eq-ok (load_categories raw.rewrite_categories []) (after_categories raw) reg h in
    let colors = raw.port_color_compatibility in
    let (declared, declares, h2) =
      >>=-eq-ok (declared_port_colors colors.port_colors) (after_declared raw categories) reg h1 in
    let (matrix, _, h3) =
      >>=-eq-ok (load_matrix raw declared) (after_matrix raw categories declared) reg h2 in
    let (own, _, h4) =
      >>=-eq-ok (own_colors declared colors.port_color_map [])
        (after_own raw categories declared matrix) reg h3 in
    let start = uncolored_registry raw categories matrix in
    let (base, resolved, h5) =
      >>=-eq-ok (resolve_port_color_source start own declared) (after_colors raw) reg h4 in
    (categories, declared, matrix, own, base, declares, resolved, ground arith)

-- Where a loaded ontology is the single source of port colors, the color gate finds a color of the
-- kernel for both ends of every pair that a category declares: no LINK on a declared pair is refused
-- for want of a color.
pub load_ontology_colors :
    (raw : OntologyJson) (reg : Registry) (wf : String) (spec : RewriteCategorySpec)
    (src tgt : String)
    → load_ontology raw ≡ ok reg
    → reg.port_color_source ≡ "ontology"
    → get wf reg.rewrite_categories ≡ some spec
    → In (src, tgt) (declared_pairs spec)
    → (c : String) × (d : String) × (resolve_port_colors reg src tgt ≡ some (c, d))
      × (known_port_color c ≡ true)
      × (known_port_color d ≡ true)
load_ontology_colors raw reg wf spec src tgt h source found i =
    let (categories, declared, matrix, own, base, declares, resolved, last) =
      load_ontology-eq-ok raw reg h in
    let (same_categories, same_colors, same_source) =
      resolve_type_ports-colors base (type_order raw) raw.rewrite_categories in
    let (kept, single, covered, checked) =
      resolve_port_color_source-eq-ok (uncolored_registry raw categories matrix) base own declared
        resolved (sym same_source ∙ ap (λ (r : Registry). r.port_color_source) last ∙ source) in
    let table : reg.port_colors ≡ some (lay_over own []) =
      ap (λ (r : Registry). r.port_colors) (sym last) ∙ same_colors ∙ single in
    let listed : reg.rewrite_categories ≡ categories =
      ap (λ (r : Registry). r.rewrite_categories) (sym last) ∙ same_categories ∙ kept in
    let (seen_src, seen_tgt) =
      see_categories-Seen categories [] wf spec src tgt
        (ap (λ (m : Map RewriteCategorySpec). get wf m) (sym listed) ∙ found) i in
    let known =
      declared_port_colors-AllKnown raw.port_color_compatibility.port_colors declared declares in
    let ends = declared_port_ends categories in
    let color = λ (port : String) (seen : contains port (see_categories categories []) ≡ true).
      end_color own declared ends covered checked known port (
        unfold declared_port_ends in
        contains-sort_strings port (see_categories categories []) ∙ seen) in
    let (c, at_src, known_src) = color src seen_src in
    let (d, at_tgt, known_tgt) = color tgt seen_tgt in
    (
      c,
      d,
      unfold resolve_port_colors color_table in ground (arith, table, at_src, at_tgt),
      known_src,
      known_tgt,
    )
