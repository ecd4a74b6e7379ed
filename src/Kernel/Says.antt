-- ===== src/Kernel/Says.antt =====
-- A text property of a node under the rewrites: internal/fold/evaluate.go, `applyMutate`.
use moos_kernel.Prelude.{
  String, ◌≡◌, sym, subst, inl, inr, some, ◌==◌, get, put, get-put, eq_iff, eq_refl, arith,
  Bool-cases,
}
use moos_kernel.Graph.{Urn, Time, mutate, str, Property, Node, Envelope, EvalResult, GraphState}
use moos_kernel.Fold.{
  add_node, new_node, add_relation, with_value, next_version, write_property, remove_relation,
}
use moos_kernel.Fold.Effect.{Effect, adds, links, extends, mutates, unlinks}
use moos_kernel.Reactive.{prop_str}

-- The node `u` is there, and its property `field` is the text `text`.
abbrev pub Says : GraphState → Urn → String → String → Type 0
Says s u field text = (n : Node) × (get u s.nodes ≡ some n) × (prop_str n field ≡ text)

module _ (s : GraphState) (env : Envelope) (text : String) (value : env.new_value ≡ str text) where
  Says-write_property :
      (n : Node) (meta : Property)
      → Says (write_property s env n meta) env.target_urn env.field text
  unfolding write_property with_value prop_str
  Says-write_property n meta =
      let written : Node = record n {
        version = next_version n.version;
        properties = put env.field (record meta { value = env.new_value }) n.properties;
      } in
      let found = get-put env.target_urn env.target_urn written s.nodes in
      let inside =
        get-put env.field env.field (record meta { value = env.new_value }) n.properties in
      (written, ground (arith, eq_refl env.target_urn), ground (arith, eq_refl env.field))

  pub Effect-Says :
      (t : Time) (s' : GraphState) (r : EvalResult)
      → env.rewrite_type ≡ mutate
      → Effect s env t s' r
      → Says s' env.target_urn env.field text
  Effect-Says t s' r kind (adds k a n ty f e x) = absurd (ground arith)
  Effect-Says t s' r kind (links src tgt k a n sn tn sf tf f wf e x) = absurd (ground arith)
  Effect-Says t s' r kind (unlinks old k a n f e x) = absurd (ground arith)
  Effect-Says t s' r kind (extends n spec k a tg f at g p e x) =
      subst (λ (v : GraphState). Says v env.target_urn env.field text) (sym e)
        (Says-write_property n spec)
  Effect-Says t s' r kind (mutates n prop k a tg f at g i v e x) =
      subst (λ (w : GraphState). Says w env.target_urn env.field text) (sym e)
        (Says-write_property n prop)

-- The field that an effect on `u` leaves alone, or writes as `text`.
abbrev pub Spares : Urn → String → String → Envelope → Type 0
Spares u field text env =
    env.rewrite_type ≡ mutate → env.target_urn ≡ u → env.field ≡ field → env.new_value ≡ str text

Says-write :
    (s : GraphState) (env : Envelope) (u : Urn) (field text : String) (m : Node) (meta : Property)
    → (env.target_urn ≡ u → env.field ≡ field → env.new_value ≡ str text)
    → get env.target_urn s.nodes ≡ some m
    → Says s u field text
    → Says (write_property s env m meta) u field text
unfolding write_property with_value prop_str
Says-write s env u field text m meta spare there (n, at, says) =
    elim (Bool-cases (env.target_urn == u)) [
      | inr other ↦ (n, ground (arith, get-put env.target_urn u written s.nodes), says)
      | inl same ↦ (
        written,
        ground (arith, get-put env.target_urn u written s.nodes),
        elim (Bool-cases (env.field == field)) [
          | inl hit ↦ ground (
            arith,
            eq_iff env.target_urn u,
            eq_iff env.field field,
            get-put env.field field (with_value meta env.new_value) m.properties,
          )
          | inr miss ↦ ground (
            arith,
            eq_iff env.target_urn u,
            get-put env.field field (with_value meta env.new_value) m.properties,
          )
        ],
      )
    ]
  where
    written : Node
    written = record m {
      version = next_version m.version;
      properties = put env.field (with_value meta env.new_value) m.properties;
    }

pub Effect-keeps :
    (s : GraphState) (env : Envelope) (t : Time) (s' : GraphState) (r : EvalResult) (u : Urn)
    (field text : String)
    → Spares u field text env
    → Effect s env t s' r
    → Says s u field text
    → Says s' u field text
unfolding add_node add_relation remove_relation
Effect-keeps s env t s' r u field text spare (adds k a n ty f e x) (m, at, says) = (
  m,
  ground (arith, eq_iff env.node_urn u, get-put env.node_urn u (new_node env t) s.nodes),
  says,
)
Effect-keeps s env t s' r u field text spare (links src tgt k a n sn tn sf tf f wf e x)
      (m, at, says) =
    (m, ground arith, says)
Effect-keeps s env t s' r u field text spare (unlinks old k a n f e x) (m, at, says) =
    (m, ground arith, says)
Effect-keeps s env t s' r u field text spare (extends n spec k a tg f at g p e x) says =
    subst (λ (v : GraphState). Says v u field text) (sym e)
      (Says-write s env u field text n spec (spare k) at says)
Effect-keeps s env t s' r u field text spare (mutates n prop k a tg f at g i v e x) says =
    subst (λ (w : GraphState). Says w u field text) (sym e)
      (Says-write s env u field text n prop (spare k) at says)
