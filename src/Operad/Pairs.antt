-- ===== src/Operad/Pairs.antt =====
-- What a category of internal/operad/validate.go declares of ports, and the colors of ports.
use mathlib.Core.List.{Memᴰ}
use mathlib.Core.List.Memᴰ
use moos_kernel.Prelude.{
  String, ◌≡◌, ◌≢◌, refl, inl, inr, ◌↔◌, true, ◌&&◌, some, List, [], ◌∷◌, ◌==◌, get, arith, eq_iff,
  Bool-cases, Option-cases,
}
use moos_kernel.Operad.{AdditionalPortPair, RewriteCategorySpec, Registry}
use moos_kernel.Operad.Validate.{
  additional_declared, link_pair_declared, pairs_declared, port_color, color_table,
}

-- The category declares the pair of ports.
pub data Declares (wf : RewriteCategorySpec) (src tgt : String) : Type 0 where
  primary : wf.src_port ≡ src → wf.tgt_port ≡ tgt → Declares wf src tgt
  additional :
      (p : AdditionalPortPair)
      → Memᴰ p wf.additional_port_pairs
      → p.src_port ≡ src
      → p.tgt_port ≡ tgt
      → Declares wf src tgt

-- The category declares some pair.
pub data HasPairs (wf : RewriteCategorySpec) : Type 0 where
  primary_src : wf.src_port ≢ "" → HasPairs wf
  primary_tgt : wf.tgt_port ≢ "" → HasPairs wf
  more : wf.additional_port_pairs ≢ [] → HasPairs wf

-- The port has a color that is not empty.
abbrev pub HasColor : Registry → String → String → Type 0
HasColor r port c = (get port (color_table r) ≡ some c) × (c ≢ "")

abbrev InPairs : List AdditionalPortPair → String → String → Type 0
InPairs ps src tgt = (p : AdditionalPortPair) × Memᴰ p ps × (p.src_port ≡ src) × (p.tgt_port ≡ tgt)

additional_iff :
    (ps : List AdditionalPortPair) (src tgt : String)
    → (additional_declared ps src tgt ≡ true) ↔ InPairs ps src tgt
unfolding additional_declared
additional_iff [] src tgt = (λ h. absurd (ground arith), λ (p, m, _, _). absurd (Memᴰ.not-nil m))
additional_iff (p ∷ ps) src tgt = (
  λ h. elim (Bool-cases (p.src_port == src && p.tgt_port == tgt)) [
    | inl e ↦ (
      p,
      Memᴰ.head refl,
      ground (arith, eq_iff p.src_port src),
      ground (arith, eq_iff p.tgt_port tgt),
    )
    | inr e ↦ let (q, m, s, t) = (additional_iff ps src tgt).0 (rw e at h) in (q, Memᴰ.tail m, s, t)
  ],
  λ (q, m, s, t). elim (Memᴰ.cases_cons m) [
    | inl e ↦ ground (arith, eq_iff p.src_port src, eq_iff p.tgt_port tgt)
    | inr rest ↦ ground (arith, (additional_iff ps src tgt).1 (q, rest, s, t))
  ],
)

pub declared_iff :
    (wf : RewriteCategorySpec) (src tgt : String)
    → (link_pair_declared wf src tgt ≡ true) ↔ Declares wf src tgt
unfolding link_pair_declared
declared_iff wf src tgt = (
  λ h. elim (Bool-cases (wf.src_port == src && wf.tgt_port == tgt)) [
    | inl e ↦
        primary (ground (arith, eq_iff wf.src_port src)) (ground (arith, eq_iff wf.tgt_port tgt))
    | inr e ↦
        let (p, m, s, t) = (additional_iff wf.additional_port_pairs src tgt).0 (rw e at h) in
        additional p m s t
  ],
  back,
)
  where
    back : Declares wf src tgt → link_pair_declared wf src tgt ≡ true
    back (primary s t) = ground (arith, eq_iff wf.src_port src, eq_iff wf.tgt_port tgt)
    back (additional p m s t) =
        ground (arith, (additional_iff wf.additional_port_pairs src tgt).1 (p, m, s, t))

pub pairs_iff : (wf : RewriteCategorySpec) → (pairs_declared wf ≡ true) ↔ HasPairs wf
unfolding pairs_declared
pairs_iff wf = (
  λ h. elim (Bool-cases (wf.src_port == "")) [
    | inr e ↦ primary_src (λ q. ground (arith, eq_iff wf.src_port ""))
    | inl e ↦ elim (Bool-cases (wf.tgt_port == "")) [
      | inr e' ↦ primary_tgt (λ q. ground (arith, eq_iff wf.tgt_port ""))
      | inl e' ↦ more (λ q. ground arith)
    ]
  ],
  back,
)
  where
    back : HasPairs wf → pairs_declared wf ≡ true
    back (primary_src n) = ground (arith, eq_iff wf.src_port "")
    back (primary_tgt n) = ground (arith, eq_iff wf.tgt_port "")
    back (more n) = ground arith

pub color_iff :
    (r : Registry) (port c : String)
    → (port_color (color_table r) port ≡ some c) ↔ HasColor r port c
unfolding port_color
color_iff r port c = (
  λ h. elim (Option-cases (get port (color_table r))) [
    | inl missing ↦ absurd (ground arith)
    | inr (d, found) ↦ (ground (arith, eq_iff d ""), λ e. ground (arith, eq_iff d ""))
  ],
  λ (found, named). ground (arith, eq_iff c ""),
)
