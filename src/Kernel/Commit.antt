-- ===== src/Kernel/Commit.antt =====
-- internal/kernel/runtime.go: the steps that its writers share, from the fold to the broadcast.
use moos_kernel.Prelude.{
  suc, ◌+◌, ◌%◌, ◌^◌, Option, none, some, List, [], ◌∷◌, ◌++◌, ◌==◌, ltb, if◌then◌else◌, length,
  Map, get, Result, ok, err,
}
use moos_kernel.Graph.{
  Time, Int64, add, link, mutate, unlink, other, null, Property, Node, Envelope, EvalResult,
  PersistedRewrite, GraphState,
}
use moos_kernel.Fold.{evaluate_at}
use moos_kernel.Operad.{OperadError, Registry, PropertySpec}
use moos_kernel.Operad.Validate.{validate_add, validate_link, validate_unlink}
use moos_kernel.Kernel.{Host, Runtime, KernelError, operad, fold, persist}

-- `validate`: a MUTATE waits for its node.
unfoldable pub validate : Option Registry → Envelope → Result KernelError (Unit {0})
validate none env = ok tt
validate (some r) env = elim env.rewrite_type [
  | add ↦ as_kernel (validate_add r env)
  | link ↦ as_kernel (validate_link r env)
  | unlink ↦ as_kernel (validate_unlink r env)
  | mutate ↦ ok tt
  | other t ↦ ok tt
]
  where
    as_kernel : Result OperadError (Unit {0}) → Result KernelError (Unit {0})
    as_kernel (ok u) = ok tt
    as_kernel (err e) = err (operad e)

-- The property that an additive MUTATE takes from its declaration.
unfoldable pub declared_property : PropertySpec → Property
declared_property spec = record {
  value = null;
  mutability = spec.mutability;
  authority_scope = spec.authority_scope;
  stratum_origin = 2;
  validation_type = "";
}

-- `injectPropertySpec`
unfoldable pub inject_property_spec : Option Registry → Envelope → Node → Envelope
unfolding declared_property
inject_property_spec registry env node = elim env.property_spec [
  | some spec ↦ env
  | none ↦ elim registry [
    | none ↦ env
    | some r ↦ elim (get env.field node.properties) [
      | some p ↦ env
      | none ↦ elim (get node.type_id r.node_types) [
        | none ↦ env
        | some type_spec ↦ elim (get env.field type_spec.properties) [
          | none ↦ env
          | some spec ↦
              if spec.mutability == "mutable"
              then record env { property_spec = some (declared_property spec) }
              else env
        ]
      ]
    ]
  ]
]

-- `atomic.Int64.Add(1)`
abbrev pub next_seq : Int64 → Int64
next_seq n = (n + 1) % 2 ^ 64

abbrev pub persisted_rewrite : Envelope → Time → Int64 → PersistedRewrite
persisted_rewrite env now seq = record {
  envelope = env;
  applied_at = now;
  timestamp = now;
  log_seq = seq;
}

-- One subscriber: a full channel drops the rewrite.
abbrev pub offer : PersistedRewrite → List PersistedRewrite → List PersistedRewrite
offer pr queue = if ltb (length queue) 64 then queue ++ pr ∷ [] else queue

unfoldable pub deliver :
    PersistedRewrite → Map (List PersistedRewrite) → Map (List PersistedRewrite)
deliver pr [] = []
deliver pr ((id, queue) ∷ subs) = (id, offer pr queue) ∷ deliver pr subs

module _ {S : Type 0} (host : Host S) where
  -- `broadcast`
  unfoldable pub broadcast : Runtime S → PersistedRewrite → Runtime S
  unfolding deliver
  broadcast rt pr = record rt { subscribers = deliver pr rt.subscribers }

  -- From `store.Append` to the new state and log.
  unfoldable pub persist_one :
      Runtime S
      → GraphState
      → EvalResult
      → PersistedRewrite
      → Runtime S × Result KernelError (EvalResult × PersistedRewrite)
  persist_one rt next result pr =
      let (stored, failure) = host.store.append (pr ∷ []) rt.stored in
      elim failure [
        | some e ↦ (record rt { log_seq = pr.log_seq; stored = stored }, err (persist e))
        | none ↦ (
          record rt {
            log_seq = pr.log_seq;
            stored = stored;
            state = next;
            log = rt.log ++ pr ∷ [];
          },
          ok (result, pr),
        )
      ]

  -- From `time.Now` and `fold.EvaluateAt` to the new state and log.
  unfoldable pub commit :
      Runtime S → Envelope → Runtime S × Result KernelError (EvalResult × PersistedRewrite)
  unfolding persist_one
  commit rt env =
      let now = host.time_at rt.readings in
      let (next, outcome) = evaluate_at rt.state env now in
      elim outcome [
        | err e ↦ (record rt { readings = suc rt.readings }, err (fold e))
        | ok result ↦
            persist_one (record rt { readings = suc rt.readings }) next result
              (persisted_rewrite env now (next_seq rt.log_seq))
      ]
