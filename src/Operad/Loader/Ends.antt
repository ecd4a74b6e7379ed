-- ===== src/Operad/Loader/Ends.antt =====
-- The declared ends and their colors: the lemmas on `declaredPortColors`, `declaredPortEnds` and
-- `resolvePortColorSource`.
use moos_kernel.Prelude.{
  ◌≤◌, ◌≡◌, ap, String, true, not, none, some, List, [], ◌∷◌, ◌==◌, eq_iff, eq_refl, arith, ◌⊎◌,
  inl, inr, length, Bool-cases, ok, reject_if-passes, Map, get, put, get-put, Option, is_some,
  contains, set_add, contains-set_add,
}
use moos_kernel.Operad.{RewriteCategorySpec}
use moos_kernel.Reactive.Engine.Scans.{In}
use moos_kernel.Operad.Loader.Colors.{known_port_color, declare_colors, declared_port_colors}
use moos_kernel.Operad.Loader.Source.{
  declared_pairs, see_pairs, see_categories, count_covered, lay_over, check_ends,
}

-- Each declared color is one that the kernel knows.
abbrev pub AllKnown : List String → Type 0
AllKnown declared = (c : String) → contains c declared ≡ true → known_port_color c ≡ true

declare_colors-AllKnown :
    (raw declared final : List String)
    → declare_colors raw declared ≡ ok final
    → AllKnown declared
    → AllKnown final
unfolding declare_colors
declare_colors-AllKnown [] declared final h known = ground arith
declare_colors-AllKnown (c ∷ raw) declared final h known =
    let (is_known, h1) = reject_if-passes (not (known_port_color c)) _ _ final h in
    let (fresh, h2) = reject_if-passes (contains c declared) _ _ final h1 in
    declare_colors-AllKnown raw (set_add c declared) final h2
      (λ d i. ground (arith, contains-set_add c d declared, eq_iff c d, known d))

pub declared_port_colors-AllKnown :
    (raw : Option (List String)) (declared : List String)
    → declared_port_colors raw ≡ ok declared
    → AllKnown declared
unfolding declared_port_colors
declared_port_colors-AllKnown none declared h = ground arith
declared_port_colors-AllKnown (some raw) declared h =
    declare_colors-AllKnown raw [] declared h (λ c i. absurd (unfold contains in ground arith))

-- A pair that is seen.
abbrev pub Seen : String → String → List String → Type 0
Seen src tgt seen = (contains src seen ≡ true) × (contains tgt seen ≡ true)

see_pairs-keeps :
    (pairs : List (String × String)) (seen : List String) (p : String)
    → contains p seen ≡ true
    → contains p (see_pairs pairs seen) ≡ true
unfolding see_pairs
see_pairs-keeps [] seen p h = h
see_pairs-keeps ((src, tgt) ∷ pairs) seen p h =
    see_pairs-keeps pairs (set_add tgt (set_add src seen)) p
      (ground (arith, contains-set_add tgt p (set_add src seen), contains-set_add src p seen))

see_pairs-Seen :
    (pairs : List (String × String)) (seen : List String) (src tgt : String)
    → In (src, tgt) pairs
    → Seen src tgt (see_pairs pairs seen)
unfolding see_pairs
see_pairs-Seen [] seen src tgt i = absurd i
see_pairs-Seen ((s, t) ∷ pairs) seen src tgt (inl here) =
    let same_src : src ≡ s = ap (λ (p : String × String). p.0) here in
    let same_tgt : tgt ≡ t = ap (λ (p : String × String). p.1) here in
    let added = set_add t (set_add s seen) in
    rw (same_src, same_tgt)
      (
        see_pairs-keeps pairs added s (
            ground
              (arith, contains-set_add t s (set_add s seen), contains-set_add s s seen, eq_refl s)),
        see_pairs-keeps pairs added t
            (ground (arith, contains-set_add t t (set_add s seen), eq_refl t)),
      )
see_pairs-Seen ((s, t) ∷ pairs) seen src tgt (inr i) =
    see_pairs-Seen pairs (set_add t (set_add s seen)) src tgt i

see_categories-keeps :
    (specs : Map RewriteCategorySpec) (seen : List String) (p : String)
    → contains p seen ≡ true
    → contains p (see_categories specs seen) ≡ true
unfolding see_categories
see_categories-keeps [] seen p h = h
see_categories-keeps ((wf, spec) ∷ specs) seen p h =
    see_categories-keeps specs (see_pairs (declared_pairs spec) seen) p
      (see_pairs-keeps (declared_pairs spec) seen p h)

pub see_categories-Seen :
    (specs : Map RewriteCategorySpec) (seen : List String) (wf : String)
    (spec : RewriteCategorySpec) (src tgt : String)
    → get wf specs ≡ some spec
    → In (src, tgt) (declared_pairs spec)
    → Seen src tgt (see_categories specs seen)
unfolding see_categories get
see_categories-Seen [] seen wf spec src tgt h i = absurd (ground arith)
see_categories-Seen ((k, first) ∷ specs) seen wf spec src tgt h i = elim (Bool-cases (k == wf)) [
  | inl here ↦
      let same : first ≡ spec = ground arith in
      let (s, t) = see_pairs-Seen (declared_pairs spec) seen src tgt i in
      rw same (
        see_categories-keeps specs (see_pairs (declared_pairs spec) seen) src s,
        see_categories-keeps specs (see_pairs (declared_pairs spec) seen) tgt t,
      )
  | inr later ↦
      see_categories-Seen specs (see_pairs (declared_pairs first) seen) wf spec src tgt
        (ground arith) i
]

count_covered-bounded :
    (own : Map String) (ends : List String) → count_covered own ends ≤ length ends
unfolding count_covered
count_covered-bounded own [] = omega arith
count_covered-bounded own (port ∷ ends) = ground (arith, count_covered-bounded own ends)

-- Where as many ends are covered as there are, each is.
pub count_covered-all :
    (own : Map String) (ends : List String) (port : String)
    → count_covered own ends ≡ length ends
    → contains port ends ≡ true
    → is_some (get port own) ≡ true
unfolding count_covered contains
count_covered-all own [] port h i = absurd (ground arith)
count_covered-all own (e ∷ ends) port h i = elim (Bool-cases (is_some (get e own))) [
  | inl covered ↦
      ground (arith, eq_iff e port, count_covered-all own ends port, count_covered-bounded own ends)
  | inr bare ↦ absurd (ground (arith, count_covered-bounded own ends))
]

pub lay_over-keeps :
    (own colors : Map String) (port : String)
    → (is_some (get port own) ≡ true) ⊎ (is_some (get port colors) ≡ true)
    → is_some (get port (lay_over own colors)) ≡ true
unfolding lay_over get
lay_over-keeps [] colors port (inl h) = absurd (ground arith)
lay_over-keeps [] colors port (inr h) = h
lay_over-keeps ((p, c) ∷ own) colors port h =
    lay_over-keeps own (put p c colors) port (elim (Bool-cases (p == port)) [
      | inl here ↦ inr (ground (arith, get-put p port c colors))
      | inr other ↦ elim h [
        | inl own_color ↦ inl (ground arith)
        | inr old ↦ inr (ground (arith, get-put p port c colors))
      ]
    ])

pub check_ends-declared :
    (declared : List String) (colors : Map String) (ends : List String) (port c : String)
    → check_ends declared colors ends ≡ ok tt
    → contains port ends ≡ true
    → get port colors ≡ some c
    → contains c declared ≡ true
unfolding check_ends contains
check_ends-declared declared colors [] port c h i g = absurd (ground arith)
check_ends-declared declared colors (e ∷ ends) port c h i g = elim (Bool-cases (e == port)) [
  | inl here ↦ ground (arith, eq_iff e port)
  | inr later ↦ ground (arith, check_ends-declared declared colors ends port c)
]
