-- ===== src/Operad/Link.antt =====
-- `ValidateLINK` against a description of the LINKs that the grammar admits.
use mathlib.Core.List.{Memᴰ}
use moos_kernel.Prelude.{
  String, ◌≡◌, ◌≢◌, sym, ◌∙◌, inl, inr, ◌↔◌, Bool, true, false, not, ◌&&◌, some, ◌==◌, ok,
  reject_if-passes, ap, get, arith, eq_iff, Bool-cases, Option-cases,
}
use moos_kernel.Graph.{link, Envelope}
use moos_kernel.Operad.{
  RewriteCategorySpec, Registry, not_allowed, no_contract, undeclared_pair, contains_rewrite,
}
use moos_kernel.Operad.Validate.{
  link_pair_declared, pairs_declared, port_color, color_table, resolve_port_colors, color_gate,
  validate_link_spec, validate_link,
}
use moos_kernel.Operad.Members.{contains_link_iff}
use moos_kernel.Operad.Pairs.{Declares, HasPairs, HasColor, declared_iff, pairs_iff, color_iff}

-- A category with pairs wants a declared pair of one color; one without pairs only refuses two
-- colors that differ.
pub data Fits (r : Registry) (env : Envelope) (wf : RewriteCategorySpec) : Type 0 where
  strict :
      (c : String)
      → HasPairs wf
      → Declares wf env.src_port env.tgt_port
      → HasColor r env.src_port c
      → HasColor r env.tgt_port c
      → Fits r env wf
  permissive :
      ¬ HasPairs wf
      → ((c d : String) → HasColor r env.src_port c → HasColor r env.tgt_port d → c ≡ d)
      → Fits r env wf

pub record LinkAllowed (r : Registry) (env : Envelope) (wf : RewriteCategorySpec) : Type 0 where
  pub category : get env.rewrite_category r.rewrite_categories ≡ some wf
  pub allowed : Memᴰ link wf.allowed_rewrites
  pub contract : env.rewrite_category ≡ "WF15" → env.contract_urn ≢ ""
  pub fits : Fits r env wf

-- What the color gate wants of the two ports; `b` says whether the category declares a pair.
abbrev Gate : Registry → Envelope → Bool → Type 0
Gate r env b =
    ((c d : String) → HasColor r env.src_port c → HasColor r env.tgt_port d → c ≡ d)
    × (b ≡ true → (c : String) × HasColor r env.src_port c × HasColor r env.tgt_port c)

module _ (r : Registry) (env : Envelope) (b : Bool) where
  Gate-sound :
      color_gate b env (resolve_port_colors r env.src_port env.tgt_port) ≡ ok tt → Gate r env b
  unfolding color_gate resolve_port_colors
  Gate-sound h = elim (Option-cases (port_color (color_table r) env.src_port)) [
    | inl no_src ↦ (
      λ c d p q. absurd (ground (arith, (color_iff r env.src_port c).1 p)),
      λ e. absurd (ground arith),
    )
    | inr (c, at_src) ↦ elim (Option-cases (port_color (color_table r) env.tgt_port)) [
      | inl no_tgt ↦ (
        λ c' d p q. absurd (ground (arith, (color_iff r env.tgt_port d).1 q)),
        λ e. absurd (ground arith),
      )
      | inr (d, at_tgt) ↦
          let same : c ≡ d = ground (arith, eq_iff c d) in
          (
            λ c' d' p q. ground (
              arith,
              eq_iff c d,
              (color_iff r env.src_port c').1 p,
              (color_iff r env.tgt_port d').1 q,
            ),
            λ e. (
              c,
              (color_iff r env.src_port c).0 at_src,
              (color_iff r env.tgt_port c).0 (at_tgt ∙ ap some (sym same)),
            ),
          )
    ]
  ]

  Gate-complete :
      Gate r env b → color_gate b env (resolve_port_colors r env.src_port env.tgt_port) ≡ ok tt
  unfolding color_gate resolve_port_colors
  Gate-complete (equal, colored) = elim (Option-cases (port_color (color_table r) env.src_port)) [
    | inl no_src ↦ elim (Bool-cases b) [
      | inl e ↦
          let (c, p, q) = colored e in absurd (ground (arith, (color_iff r env.src_port c).1 p))
      | inr e ↦ ground arith
    ]
    | inr (c, at_src) ↦ elim (Option-cases (port_color (color_table r) env.tgt_port)) [
      | inl no_tgt ↦ elim (Bool-cases b) [
        | inl e ↦
            let (d, p, q) = colored e in absurd (ground (arith, (color_iff r env.tgt_port d).1 q))
        | inr e ↦ ground arith
      ]
      | inr (d, at_tgt) ↦
          let same =
            equal c d ((color_iff r env.src_port c).0 at_src)
              ((color_iff r env.tgt_port d).0 at_tgt) in
          ground (arith, eq_iff c d)
    ]
  ]

module _ (r : Registry) (env : Envelope) where
  Fits-of_Gate :
      (wf : RewriteCategorySpec)
      → (pairs_declared wf && not (link_pair_declared wf env.src_port env.tgt_port)) ≡ false
      → Gate r env (pairs_declared wf)
      → Fits r env wf
  Fits-of_Gate wf pair (equal, colored) = elim (Bool-cases (pairs_declared wf)) [
    | inl some_pair ↦
        let (c, at_src, at_tgt) = colored some_pair in
        strict c ((pairs_iff wf).0 some_pair)
          ((declared_iff wf env.src_port env.tgt_port).0 (ground arith)) at_src at_tgt
    | inr no_pair ↦ permissive (λ p. ground (arith, (pairs_iff wf).1 p)) equal
  ]

  spec_sound :
      (wf : RewriteCategorySpec)
      → get env.rewrite_category r.rewrite_categories ≡ some wf
      → validate_link_spec r env wf ≡ ok tt
      → LinkAllowed r env wf
  unfolding validate_link_spec
  spec_sound wf found h =
      let (allows, h1) =
        reject_if-passes (not (contains_rewrite wf.allowed_rewrites link))
          (not_allowed env.rewrite_category) _ tt h in
      let (contract, h2) =
        reject_if-passes (env.rewrite_category == "WF15" && env.contract_urn == "")
          (no_contract env.rewrite_category) _ tt h1 in
      let (pair, gate) =
        reject_if-passes
          (pairs_declared wf && not (link_pair_declared wf env.src_port env.tgt_port))
          (undeclared_pair env.src_port env.tgt_port) _ tt h2 in
      record {
        category = found;
        allowed = (contains_link_iff wf.allowed_rewrites).0 (ground arith);
        contract =
            λ e q. ground (arith, eq_iff env.rewrite_category "WF15", eq_iff env.contract_urn "");
        fits = Fits-of_Gate wf pair (Gate-sound r env (pairs_declared wf) gate);
      }

  Fits-gate :
      (wf : RewriteCategorySpec)
      → Fits r env wf
      → (pairs_declared wf && not (link_pair_declared wf env.src_port env.tgt_port) ≡ false)
        × (color_gate (pairs_declared wf) env (resolve_port_colors r env.src_port env.tgt_port)
            ≡ ok tt)
  Fits-gate wf (strict c pairs declared at_src at_tgt) = (
    ground (arith, (declared_iff wf env.src_port env.tgt_port).1 declared),
    Gate-complete r env (pairs_declared wf)
        ((λ d e p q. ground (arith, at_src.0, at_tgt.0, p.0, q.0)), (λ _. (c, at_src, at_tgt))),
  )
  Fits-gate wf (permissive none_declared equal) =
      let off : pairs_declared wf ≡ false = elim (Bool-cases (pairs_declared wf)) [
        | inl p ↦ absurd (none_declared ((pairs_iff wf).0 p))
        | inr p ↦ p
      ] in
      (ground arith, Gate-complete r env (pairs_declared wf) (equal, λ p. absurd (ground arith)))

  spec_complete :
      (wf : RewriteCategorySpec) → LinkAllowed r env wf → validate_link_spec r env wf ≡ ok tt
  unfolding validate_link_spec
  spec_complete wf a =
      let (pair, gate) = Fits-gate wf a.fits in
      ground (
        arith,
        (contains_link_iff wf.allowed_rewrites).1 a.allowed,
        a.contract,
        eq_iff env.rewrite_category "WF15",
        eq_iff env.contract_urn "",
      )

  -- `ValidateLINK` accepts a LINK exactly where its category is known and allows LINK, a WF15
  -- relation names its contract, and the ports fit: in a category that declares a pair they are a
  -- declared pair and have one color that is not empty (an uncolored port is refused), and in one
  -- that declares none they do not have two different colors.
  pub validate_link_iff :
      (validate_link r env ≡ ok tt) ↔ ((wf : RewriteCategorySpec) × LinkAllowed r env wf)
  unfolding validate_link
  validate_link_iff = (
    λ h. elim (Option-cases (get env.rewrite_category r.rewrite_categories)) [
      | inl missing ↦ absurd (ground arith)
      | inr (wf, found) ↦ (wf, spec_sound wf found (ground arith))
    ],
    λ (wf, a). rw (a.category, validate_link) (spec_complete wf a),
  )
