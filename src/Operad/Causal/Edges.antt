-- ===== src/Operad/Causal/Edges.antt =====
-- The inner loop: what it visits, queues and leaves over.
use moos_kernel.Prelude.{
  ℕ, suc, ◌+◌, ◌≤◌, ◌<◌, ◌≡◌, refl, ◌∙◌, inl, inr, ◌⊎◌, true, false, ◌||◌, Option, none, some, List,
  [], ◌∷◌, ◌++◌, ◌==◌, if◌then◌else◌, length, length-append, Map, get, contains, arith, eq_iff,
  eq_refl, Bool-cases,
}
use moos_kernel.Graph.{Urn, Relation}
use moos_kernel.Operad.Causal.{
  is_cause, Visit, skip, reached, follow, visit_edge, Walk, closes, goes_on, walk_edges,
}

-- The relations whose target is not visited yet.
abbrev pub unvisited : List Urn → Map Relation → ℕ
unvisited visited [] = 0
unvisited visited ((u, r) ∷ m) =
    if contains r.tgt_urn visited then unvisited visited m else suc (unvisited visited m)

unvisited-le :
    (t : Urn) (visited : List Urn) (m : Map Relation)
    → unvisited (t ∷ visited) m ≤ unvisited visited m
unfolding contains
unvisited-le t visited [] = omega arith
unvisited-le t visited ((u, r) ∷ m) = ground (arith, unvisited-le t visited m)

unvisited-lt :
    (visited : List Urn) (m : Map Relation) (u : Urn) (rel : Relation)
    → get u m ≡ some rel
    → contains rel.tgt_urn visited ≡ false
    → unvisited (rel.tgt_urn ∷ visited) m < unvisited visited m
unfolding contains get
unvisited-lt visited [] u rel h fresh = absurd (ground arith)
unvisited-lt visited ((j, r) ∷ m) u rel h fresh = elim (Bool-cases (j == u)) [
  | inl e ↦ ground (arith, unvisited-le rel.tgt_urn visited m, eq_refl rel.tgt_urn)
  | inr e ↦ ground (arith, unvisited-lt visited m u rel)
]

-- What is true after the loop over `us`.
pub record Walked (relations : Map Relation) (src : Urn)
    (us visited queue visited' queue' : List Urn) : Type 0 where
  pub keeps : (x : Urn) → contains x visited ≡ true → contains x visited' ≡ true
  pub keeps_queue : (x : Urn) → contains x queue ≡ true → contains x queue' ≡ true
  pub queued :
      (x : Urn)
      → contains x queue' ≡ true
      → (contains x queue ≡ true) ⊎ (contains x visited' ≡ true)
  pub fresh :
      (x : Urn)
      → contains x visited' ≡ true
      → (contains x visited ≡ true)
        ⊎ (contains x queue' ≡ true)
          × ((u : Urn) × (rel : Relation) × (contains u us ≡ true)
              × (get u relations ≡ some rel)
              × (is_cause rel ≡ true)
              × (rel.tgt_urn ≡ x))
  pub covers :
      (u : Urn) (rel : Relation)
      → contains u us ≡ true
      → get u relations ≡ some rel
      → is_cause rel ≡ true
      → (contains rel.tgt_urn visited' ≡ true) × ((rel.tgt_urn == src) ≡ false)
  pub spends :
      unvisited visited' relations + length queue' ≤ unvisited visited relations + length queue

contains-snoc : (x t : Urn) (xs : List Urn) → contains x (xs ++ t ∷ []) ≡ (contains x xs || t == x)
unfolding contains
contains-snoc x t [] = ground arith
contains-snoc x t (y ∷ xs) = ground (arith, contains-snoc x t xs)

-- Why the body visits, stops or skips.
abbrev Explains : Urn → List Urn → Option Relation → Visit → Type 0
Explains src visited o skip =
    (rel : Relation)
    → o ≡ some rel
    → is_cause rel ≡ true
    → (contains rel.tgt_urn visited ≡ true) × ((rel.tgt_urn == src) ≡ false)
Explains src visited o reached =
    (rel : Relation) × (o ≡ some rel) × (is_cause rel ≡ true) × (rel.tgt_urn ≡ src)
Explains src visited o (follow t) =
    (rel : Relation) × (o ≡ some rel)
    × (is_cause rel ≡ true)
    × (rel.tgt_urn ≡ t)
    × (contains rel.tgt_urn visited ≡ false)
    × ((rel.tgt_urn == src) ≡ false)

explains :
    (src : Urn) (visited : List Urn) (o : Option Relation)
    → Explains src visited o (visit_edge src visited o)
unfolding visit_edge
explains src visited none = λ rel e. absurd (ground arith)
explains src visited (some rel) = elim (Bool-cases (is_cause rel)) [
  | inr other ↦ rw (other, Explains) (λ r e c. absurd (ground arith))
  | inl cause ↦ elim (Bool-cases (rel.tgt_urn == src)) [
    | inl e ↦ rw (cause, e, Explains) (rel, refl, cause, (eq_iff rel.tgt_urn src).0 e)
    | inr e ↦ elim (Bool-cases (contains rel.tgt_urn visited)) [
      | inl old ↦ rw (cause, e, old, Explains) (λ r f c. ground arith)
      | inr new ↦ rw (cause, e, new, Explains) (rel, refl, cause, refl, new, e)
    ]
  ]
]

-- What the inner loop promises.
abbrev pub Promise : Map Relation → Urn → List Urn → List Urn → List Urn → Walk → Type 0
Promise relations src us visited queue closes =
    (u : Urn) × (rel : Relation) × (contains u us ≡ true)
    × (get u relations ≡ some rel)
    × (is_cause rel ≡ true)
    × (rel.tgt_urn ≡ src)
Promise relations src us visited queue (goes_on visited' queue') =
    Walked relations src us visited queue visited' queue'

module _ (relations : Map Relation) (src : Urn) where
  Promise-skip :
      (u : Urn) (us visited queue : List Urn) (w : Walk)
      → Explains src visited (get u relations) skip
      → Promise relations src us visited queue w
      → Promise relations src (u ∷ us) visited queue w
  Promise-skip u us visited queue closes why (v, rel, m, found, cause, e) =
      (v, rel, unfold contains in ground arith, found, cause, e)
  Promise-skip u us visited queue (goes_on visited' queue') why w = record {
    keeps = w.keeps;
    keeps_queue = w.keeps_queue;
    queued = w.queued;
    fresh = λ x h. elim (w.fresh x h) [
      | inl old ↦ inl old
      | inr (q, (v, rel, m, found, cause, e)) ↦
          inr (q, (v, rel, unfold contains in ground arith, found, cause, e))
    ];
    covers = λ v rel m found cause. elim (Bool-cases (u == v)) [
      | inl e ↦
          let (seen, ne) = why rel (rw ((eq_iff u v).0 e) found) cause in
          (w.keeps rel.tgt_urn seen, ne)
      | inr e ↦ w.covers v rel (unfold contains in ground arith) found cause
    ];
    spends = w.spends;
  }

  Promise-follow :
      (u t : Urn) (us visited queue : List Urn) (w : Walk)
      → Explains src visited (get u relations) (follow t)
      → Promise relations src us (t ∷ visited) (queue ++ t ∷ []) w
      → Promise relations src (u ∷ us) visited queue w
  Promise-follow u t us visited queue closes why (v, rel, m, found, cause, e) =
      (v, rel, unfold contains in ground arith, found, cause, e)
  Promise-follow u t us visited queue (goes_on visited' queue') (rel, found, cause, e, new, ne) w =
      let at_t : contains t visited' ≡ true =
        w.keeps t (unfold contains in ground (arith, eq_refl t)) in
      let q_t : contains t queue' ≡ true =
        w.keeps_queue t (ground (arith, contains-snoc t t queue, eq_refl t)) in
      record {
        keeps = λ x h. w.keeps x (unfold contains in ground arith);
        keeps_queue = λ x h. w.keeps_queue x (ground (arith, contains-snoc x t queue));
        queued = λ x h. elim (w.queued x h) [
          | inr old ↦ inr old
          | inl old ↦ ground (arith, contains-snoc x t queue, eq_iff t x, at_t)
        ];
        fresh = λ x h. elim (w.fresh x h) [
          | inr (q, (v, r, m, at, c, f)) ↦
              inr (q, (v, r, unfold contains in ground arith, at, c, f))
          | inl old ↦ elim (Bool-cases (t == x)) [
            | inr f ↦ inl (unfold contains in ground arith)
            | inl f ↦ inr (
              rw (← (eq_iff t x).0 f) q_t,
              (
                u,
                rel,
                unfold contains in ground (arith, eq_refl u),
                found,
                cause,
                e ∙ (eq_iff t x).0 f,
              ),
            )
          ]
        ];
        covers = λ v r m at c. elim (Bool-cases (u == v)) [
          | inl f ↦ ground (arith, eq_iff u v, at_t)
          | inr f ↦ w.covers v r (unfold contains in ground arith) at c
        ];
        spends =
            let lt : unvisited (t ∷ visited) relations < unvisited visited relations =
              rw e at (unvisited-lt visited relations u rel found new) in
            omega (arith, w.spends, length-append queue (t ∷ []));
      }

  -- The inner loop keeps its promise.
  pub walk_edges-Promise :
      (us visited queue : List Urn)
      → Promise relations src us visited queue (walk_edges relations src us visited queue)
  unfolding walk_edges
  walk_edges-Promise [] visited queue = record {
    keeps = λ x h. h;
    keeps_queue = λ x h. h;
    queued = λ x h. inl h;
    fresh = λ x h. inl h;
    covers = λ u rel m. absurd (unfold contains in ground arith);
    spends = omega arith;
  }
  walk_edges-Promise (u ∷ us) visited queue =
      go (walk_edges-Promise us) (visit_edge src visited (get u relations))
        (explains src visited (get u relations))
    where
      go :
          ((seen q : List Urn)
            → Promise relations src us seen q (walk_edges relations src us seen q))
          → (v : Visit) → Explains src visited (get u relations) v
          → Promise relations src (u ∷ us) visited queue (elim v as (λ _. Walk) [
            | skip ↦ walk_edges relations src us visited queue
            | reached ↦ closes
            | follow tgt ↦ walk_edges relations src us (tgt ∷ visited) (queue ++ tgt ∷ [])
          ])
      go ih skip why =
          Promise-skip u us visited queue (walk_edges relations src us visited queue) why
            (ih visited queue)
      go ih reached (rel, found, cause, e) =
          (u, rel, unfold contains in ground (arith, eq_refl u), found, cause, e)
      go ih (follow t) why =
          Promise-follow u t us visited queue
            (walk_edges relations src us (t ∷ visited) (queue ++ t ∷ [])) why
            (ih (t ∷ visited) (queue ++ t ∷ []))
