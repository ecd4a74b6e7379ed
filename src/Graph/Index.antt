-- ===== src/Graph/Index.antt =====
-- internal/graph/state.go: the helpers that maintain the secondary indexes.
use moos_kernel.Prelude.{
  String, ◌≡◌, sym, ◌∙◌, inl, inr, Bool, true, false, not, ◌&&◌, ◌||◌, Option, none, some, List, [],
  arith, ◌==◌, eq_iff, if◌then◌else◌, Option-cases, get, put, delete, get-put, get-delete, contains,
  set_add, set_remove, is_empty, contains-set_add, contains-set_remove, Unique, Unique-set_add,
  Unique-set_remove, Distinct, Distinct-put, Distinct-delete,
}
use moos_kernel.Graph.{Urn, Index}

-- The set under a key; a missing key reads as an empty set.
unfoldable pub bucket : String → Index → List Urn
bucket k idx = elim (get k idx) [ none ↦ [] | some set ↦ set ]

-- Record `urn` under `key`.
unfoldable pub index_insert : Index → String → Urn → Index
index_insert idx key urn = put key (set_add urn (bucket key idx)) idx

-- Remove `urn` from under `key`; an empty set is deleted.
unfoldable pub index_erase : Index → String → Urn → Index
index_erase idx key urn = elim (get key idx) [
  | none ↦ idx
  | some set ↦
      let left = set_remove urn set in if is_empty left then delete key idx else put key left idx
]

-- `IndexAddNodeByType`
unfoldable pub index_add_node_by_type : Option Index → Urn → String → Option Index
index_add_node_by_type none urn type_id = none
index_add_node_by_type (some idx) urn type_id = some (index_insert idx type_id urn)

-- `IndexRemoveNodeByType`
unfoldable pub index_remove_node_by_type : Option Index → Urn → String → Option Index
index_remove_node_by_type none urn type_id = none
index_remove_node_by_type (some idx) urn type_id = some (index_erase idx type_id urn)

-- One half of `IndexAddRelationEndpoints`: the index of one end.
unfoldable pub index_add_endpoint : Option Index → Urn → Urn → Option Index
index_add_endpoint none rel end = none
index_add_endpoint (some idx) rel end =
    if end == "" then some idx else some (index_insert idx end rel)

unfoldable pub index_add_relation_endpoints :
    Option Index → Option Index → Urn → Urn → Urn → Option Index × Option Index
unfolding index_add_endpoint
index_add_relation_endpoints by_src by_tgt rel src tgt =
    (index_add_endpoint by_src rel src, index_add_endpoint by_tgt rel tgt)

-- One half of `IndexRemoveRelationEndpoints`.
unfoldable pub index_remove_endpoint : Option Index → Urn → Urn → Option Index
index_remove_endpoint none rel end = none
index_remove_endpoint (some idx) rel end =
    if end == "" then some idx else some (index_erase idx end rel)

unfoldable pub index_remove_relation_endpoints :
    Option Index → Option Index → Urn → Urn → Urn → Option Index × Option Index
unfolding index_remove_endpoint
index_remove_relation_endpoints by_src by_tgt rel src tgt =
    (index_remove_endpoint by_src rel src, index_remove_endpoint by_tgt rel tgt)

pub bucket-index_insert :
    (idx : Index) (key : String) (urn : Urn) (k : String)
    → bucket k (index_insert idx key urn)
      ≡ (if key == k then set_add urn (bucket k idx) else bucket k idx)
unfolding bucket index_insert
bucket-index_insert idx key urn k =
    ground (arith, eq_iff key k, get-put key k (set_add urn (bucket key idx)) idx)

pub bucket-index_erase :
    (idx : Index) (key : String) (urn : Urn) (k : String)
    → bucket k (index_erase idx key urn)
      ≡ (if key == k then set_remove urn (bucket k idx) else bucket k idx)
unfolding bucket index_erase set_remove
bucket-index_erase idx key urn k = elim (Option-cases (get key idx)) [
  | inl missing ↦ rw (missing, index_erase) (ground (arith, eq_iff key k))
  | inr (set, found) ↦
      rw (found, index_erase)
        (ground (
          arith,
          found,
          eq_iff key k,
          get-delete key k idx,
          get-put key k (set_remove urn set) idx,
        ))
]

Distinct-index_erase :
    (idx : Index) (key : String) (urn : Urn) → Distinct idx → Distinct (index_erase idx key urn)
unfolding index_erase
Distinct-index_erase idx key urn d = go (get key idx)
  where
    shrink :
        (left : List Urn) (b : Bool) → Distinct (if b then delete key idx else put key left idx)
    shrink left true = Distinct-delete key idx d
    shrink left false = Distinct-put key left idx d

    go :
        (o : Option (List Urn))
        → Distinct (elim o as (λ _. Index) [
          | none ↦ idx
          | some set ↦
              let left = set_remove urn set in
              if is_empty left then delete key idx else put key left idx
        ])
    go none = d
    go (some set) = shrink (set_remove urn set) (is_empty (set_remove urn set))

-- The index lists `u` under `k` exactly where `f k u` holds, with no repetition; a nil index lists
-- nothing and is read by nobody.
pub record Lists (idx : Index) (f : String → Urn → Bool) : Type 0 where
  pub members : (k u : String) → contains u (bucket k idx) ≡ f k u
  pub unique : (k : String) → Unique (bucket k idx)
  pub keys : Distinct idx

abbrev pub IndexOf : Option Index → (String → Urn → Bool) → Type 0
IndexOf none f = Unit
IndexOf (some idx) f = Lists idx f

pub Lists-index_insert :
    (idx : Index) (f g : String → Urn → Bool) (key : String) (urn : Urn)
    → ((k u : String) → g k u ≡ (key == k && urn == u || f k u))
    → Lists idx f
    → Lists (index_insert idx key urn) g
Lists-index_insert idx f g key urn ext l = record {
  members = λ k u. ground (
    arith,
    ext k u,
    l.members k u,
    bucket-index_insert idx key urn k,
    contains-set_add urn u (bucket k idx),
  );
  unique = λ k.
      ground
        (arith, l.unique k, bucket-index_insert idx key urn k, Unique-set_add urn (bucket k idx));
  keys = unfold index_insert in Distinct-put key (set_add urn (bucket key idx)) idx l.keys;
}

pub Lists-index_erase :
    (idx : Index) (f g : String → Urn → Bool) (key : String) (urn : Urn)
    → ((k u : String) → g k u ≡ (not (key == k && urn == u) && f k u))
    → Lists idx f
    → Lists (index_erase idx key urn) g
Lists-index_erase idx f g key urn ext l = record {
  members = λ k u. ground (
    arith,
    ext k u,
    l.members k u,
    bucket-index_erase idx key urn k,
    contains-set_remove urn u (bucket k idx),
  );
  unique = λ k.
      ground
        (arith, l.unique k, bucket-index_erase idx key urn k, Unique-set_remove urn (bucket k idx));
  keys = Distinct-index_erase idx key urn l.keys;
}

Lists-ext :
    (idx : Index) (f g : String → Urn → Bool)
    → ((k u : String) → g k u ≡ f k u)
    → Lists idx f
    → Lists idx g
Lists-ext idx f g ext l = record {
  members = λ k u. l.members k u ∙ sym (ext k u);
  unique = l.unique;
  keys = l.keys;
}

pub IndexOf-ext :
    (o : Option Index) (f g : String → Urn → Bool)
    → ((k u : String) → g k u ≡ f k u)
    → IndexOf o f
    → IndexOf o g
IndexOf-ext none f g ext h = tt
IndexOf-ext (some idx) f g ext h = Lists-ext idx f g ext h

pub IndexOf-add_node :
    (o : Option Index) (f g : String → Urn → Bool) (urn : Urn) (type_id : String)
    → ((k u : String) → g k u ≡ (type_id == k && urn == u || f k u))
    → IndexOf o f
    → IndexOf (index_add_node_by_type o urn type_id) g
unfolding index_add_node_by_type
IndexOf-add_node none f g urn type_id ext h = tt
IndexOf-add_node (some idx) f g urn type_id ext h = Lists-index_insert idx f g type_id urn ext h

pub IndexOf-add_endpoint :
    (o : Option Index) (f g : String → Urn → Bool) (rel end : Urn)
    → (end == "") ≡ false
    → ((k u : String) → g k u ≡ (end == k && rel == u || f k u))
    → IndexOf o f
    → IndexOf (index_add_endpoint o rel end) g
unfolding index_add_endpoint
IndexOf-add_endpoint none f g rel end ne ext h = tt
IndexOf-add_endpoint (some idx) f g rel end ne ext h =
    rw ne (Lists-index_insert idx f g end rel ext h)

pub IndexOf-remove_endpoint :
    (o : Option Index) (f g : String → Urn → Bool) (rel end : Urn)
    → (end == "") ≡ false
    → ((k u : String) → g k u ≡ (not (end == k && rel == u) && f k u))
    → IndexOf o f
    → IndexOf (index_remove_endpoint o rel end) g
unfolding index_remove_endpoint
IndexOf-remove_endpoint none f g rel end ne ext h = tt
IndexOf-remove_endpoint (some idx) f g rel end ne ext h =
    rw ne (Lists-index_erase idx f g end rel ext h)
