-- ===== src/Operad/Loader/Served.antt =====
-- The ports that a registry serves: `resolveTypePorts` and the drift from the authored ports.
use moos_kernel.Prelude.{
  ◌≡◌, refl, sym, ◌∙◌, ap, String, true, false, Option, none, some, List, [], ◌∷◌, ◌++◌, ◌==◌,
  eq_iff, eq_of_iff, eq_of_test, arith, inl, inr, Bool-cases, Map, get, is_empty, insert_string,
  sort_strings,
}
use moos_kernel.Graph.{TypeId}
use moos_kernel.Operad.{PortSpec, NodeTypeSpec, Registry, contains_string}
use moos_kernel.Operad.Loader.{RawRewriteCategory}
use moos_kernel.Operad.Loader.Ports.{
  ports_of, ports_at, raw_declared_pairs, generate_type_ports, diff_from, set_diff, list_drift,
  type_drift, no_drift, ports_drift_of, served, serve_generated, has_pair, resolve_type_ports,
}

is_empty-insert_string : (s : String) (ss : List String) → is_empty (insert_string s ss) ≡ false
unfolding insert_string
is_empty-insert_string s [] = refl
is_empty-insert_string s (t ∷ ts) = ground arith

is_empty-sort_strings : (ss : List String) → is_empty (sort_strings ss) ≡ is_empty ss
unfolding sort_strings
is_empty-sort_strings [] = refl
is_empty-sort_strings (s ∷ ss) = is_empty-insert_string s (sort_strings ss)

is_empty-append : (xs : List String) (x : String) → is_empty (xs ++ x ∷ []) ≡ false
is_empty-append [] x = refl
is_empty-append (y ∷ xs) x = refl

diff_from-grows :
    (b a out : List String) → is_empty (diff_from b a out) ≡ true → is_empty out ≡ true
unfolding diff_from
diff_from-grows b [] out h = h
diff_from-grows b (x ∷ a) out h =
    ground
      (arith, diff_from-grows b a out, diff_from-grows b a (out ++ x ∷ []), is_empty-append out x)

-- An empty difference: each member of the one list is in the other.
diff_from-within :
    (b a : List String) (p : String)
    → is_empty (diff_from b a []) ≡ true
    → contains_string a p ≡ true
    → contains_string b p ≡ true
unfolding diff_from contains_string
diff_from-within b [] p h i = absurd (ground arith)
diff_from-within b (x ∷ a) p h i = elim (Bool-cases (contains_string b x)) [
  | inl there ↦ ground (arith, eq_iff x p, diff_from-within b a p)
  | inr missing ↦ absurd (ground (arith, diff_from-grows b a (x ∷ [])))
]

-- Two lists with the same members.
abbrev pub SameMembers : List String → List String → Type 0
SameMembers xs ys = (p : String) → contains_string xs p ≡ contains_string ys p

set_diff-SameMembers :
    (xs ys : List String)
    → is_empty (set_diff xs ys) ≡ true
    → is_empty (set_diff ys xs) ≡ true
    → SameMembers xs ys
unfolding set_diff
set_diff-SameMembers xs ys h k p =
    eq_of_iff (contains_string xs p) (contains_string ys p)
      (diff_from-within ys xs p (sym (is_empty-sort_strings (diff_from ys xs [])) ∙ h))
      (diff_from-within xs ys p (sym (is_empty-sort_strings (diff_from xs ys [])) ∙ k))

-- A list is served with the members that were authored for it, if any were.
abbrev pub Serves : Option (List String) → Option (List String) → Type 0
Serves none list = Unit
Serves (some authored) list =
    (ports : List String) × (list ≡ some ports) × SameMembers ports authored

served-Serves :
    (authored generated : Option (List String))
    → is_empty (list_drift authored (ports_of generated)).0 ≡ true
    → is_empty (list_drift authored (ports_of generated)).1 ≡ true
    → Serves authored (served authored generated)
served-Serves none generated h k = tt
served-Serves (some ports) none h k = ([], refl, set_diff-SameMembers [] ports h k)
served-Serves (some ports) (some made) h k = (made, refl, set_diff-SameMembers made ports h k)

Serves-refl : (authored : Option (List String)) → Serves authored authored
Serves-refl none = tt
Serves-refl (some ports) = (ports, refl, λ p. refl)

no_drift-Serves :
    (authored generated : PortSpec)
    → no_drift (type_drift authored generated) ≡ true
    → Serves authored.out (served authored.out generated.out)
      × Serves authored.inward (served authored.inward generated.inward)
unfolding type_drift
no_drift-Serves authored generated h = (
  served-Serves authored.out generated.out (ground arith) (ground arith),
  served-Serves authored.inward generated.inward (ground arith) (ground arith),
)

ports_drift_of-none :
    (specs : Map NodeTypeSpec) (gen : Map PortSpec) (id : TypeId) (spec : NodeTypeSpec)
    → is_empty (ports_drift_of specs gen) ≡ true
    → get id specs ≡ some spec
    → no_drift (type_drift spec.ports (ports_at id gen)) ≡ true
unfolding ports_drift_of get
ports_drift_of-none [] gen id spec h found = absurd (ground arith)
ports_drift_of-none ((k, first) ∷ specs) gen id spec h found =
    elim (Bool-cases (no_drift (type_drift first.ports (ports_at k gen)))) [
      | inl even ↦ elim (Bool-cases (k == id)) [
        | inl here ↦
            let same : first ≡ spec = ground arith in rw (← same, ← eq_of_test k id here) even
        | inr later ↦ ports_drift_of-none specs gen id spec (ground arith) (ground arith)
      ]
      | inr drifts ↦ absurd (ground arith)
    ]

-- The type as `resolveTypePorts` serves it where the authored ports are replaced.
abbrev serve_type : NodeTypeSpec → PortSpec → NodeTypeSpec
serve_type spec ps = record spec {
  ports = record spec.ports {
    out = served spec.ports.out ps.out;
    inward = served spec.ports.inward ps.inward;
  };
}

get-serve_generated :
    (specs : Map NodeTypeSpec) (gen : Map PortSpec) (id : TypeId) (spec : NodeTypeSpec)
    → get id specs ≡ some spec
    → get id (serve_generated specs gen) ≡ some (serve_type spec (ports_at id gen))
unfolding serve_generated get
get-serve_generated [] gen id spec found = absurd (ground arith)
get-serve_generated ((k, first) ∷ specs) gen id spec found = elim (Bool-cases (k == id)) [
  | inl here ↦
      let same : first ≡ spec = ground arith in
      let e : k ≡ id = eq_of_test k id here in rw here (ap some (rw (same, e) refl))
  | inr later ↦ rw later (get-serve_generated specs gen id spec (ground arith))
]

-- Whether the ports are generated or not, a type keeps its other fields, and each of its two lists of
-- ports that was authored is served with the members that it was authored with.
pub resolve_type_ports-Serves :
    (reg : Registry) (order : List TypeId) (wfs : List RawRewriteCategory) (id : TypeId)
    (spec : NodeTypeSpec)
    → get id reg.node_types ≡ some spec
    → (ps : PortSpec) × (get id (resolve_type_ports reg order wfs).node_types
        ≡ some (record spec { ports = ps }))
      × Serves spec.ports.out ps.out
      × Serves spec.ports.inward ps.inward
      × (ps.self ≡ spec.ports.self)
unfolding resolve_type_ports type_drift
resolve_type_ports-Serves reg order wfs id spec found =
    let gen = generate_type_ports order wfs in
    let as_authored : Serves spec.ports.out spec.ports.out = Serves-refl spec.ports.out in
    let into_authored : Serves spec.ports.inward spec.ports.inward =
      Serves-refl spec.ports.inward in
    elim (Bool-cases (has_pair (raw_declared_pairs wfs))) [
      | inr bare ↦ rw bare (spec.ports, found, as_authored, into_authored, refl)
      | inl paired ↦ elim (Bool-cases (is_empty (ports_drift_of reg.node_types gen))) [
        | inr drifts ↦ rw (paired, drifts) (spec.ports, found, as_authored, into_authored, refl)
        | inl even ↦
            let (out, into) =
              no_drift-Serves spec.ports (ports_at id gen)
                (ports_drift_of-none reg.node_types gen id spec even found) in
            rw (paired, even)
              (
                (serve_type spec (ports_at id gen)).ports,
                get-serve_generated reg.node_types gen id spec found,
                out,
                into,
                refl,
              )
      ]
    ]
