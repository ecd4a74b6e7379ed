-- ===== src/Operad/Causal/Search.antt =====
-- The breadth-first search: its invariant, why it ends, and what its answer means.
use moos_kernel.Prelude.{
  ℕ, zero, suc, ◌+◌, ◌≤◌, ◌≡◌, refl, subst, inl, inr, ◌⊎◌, Bool, true, false, Option, some, List,
  [], ◌∷◌, ◌==◌, length, Map, get, contains, arith, eq_iff, eq_refl, Bool-cases,
}
use moos_kernel.Graph.{Urn, Relation, Index, GraphState}
use moos_kernel.Graph.Index.{IndexOf}
use moos_kernel.Graph.Consistent.{IsConsistent, starts_at}
use moos_kernel.Operad.Causal.{
  is_cause, Walk, closes, goes_on, walk_edges, edges_from, search_cycle,
}
use moos_kernel.Operad.Causal.Edges.{unvisited, Walked, Promise, walk_edges-Promise}

-- Some relation of the state says that `a` causes `b`.
abbrev pub Causes : GraphState → Urn → Urn → Type 0
Causes s a b =
    (u : Urn) × (rel : Relation) × (get u s.relations ≡ some rel)
    × (is_cause rel ≡ true)
    × (rel.src_urn ≡ a)
    × (rel.tgt_urn ≡ b)

-- A chain of such relations, of any length.
pub data Reaches (s : GraphState) : Urn → Urn → Type 0 where
  here : (a : Urn) → Reaches s a a
  along : (a b c : Urn) → Reaches s a b → Causes s b c → Reaches s a c

pub Reaches-trans : (s : GraphState) (a b c : Urn) → Reaches s a b → Reaches s b c → Reaches s a c
Reaches-trans s a b _ p (here _) = p
Reaches-trans s a b d p (along _ c _ q e) = along a c d (Reaches-trans s a b c p q) e

contains-edges_from :
    (s : GraphState) (idx : Index)
    → IsConsistent s
    → s.relations_by_src ≡ some idx
    → (cur u : Urn) → contains u (edges_from s cur) ≡ starts_at s.relations cur u
unfolding edges_from
contains-edges_from s idx c live cur u =
    let h : IndexOf (some idx) (starts_at s.relations) =
      subst (λ (o : Option Index). IndexOf o (starts_at s.relations)) live c.by_src in
    rw live (h.members cur u)

-- The search stands at a set of nodes that `tgt` reaches; those not queued have been looked at.
record Searching (s : GraphState) (src tgt : Urn) (visited queue : List Urn) : Type 0 where
  started : contains tgt visited ≡ true
  sound : (x : Urn) → contains x visited ≡ true → Reaches s tgt x
  queued : (x : Urn) → contains x queue ≡ true → contains x visited ≡ true
  closed :
      (a : Urn)
      → contains a visited ≡ true
      → (contains a queue ≡ true)
        ⊎ ((b : Urn) → Causes s a b → (contains b visited ≡ true) × ((b == src) ≡ false))

Searching-start : (s : GraphState) (src tgt : Urn) → Searching s src tgt (tgt ∷ []) (tgt ∷ [])
unfolding contains
Searching-start s src tgt = record {
  started = ground (arith, eq_refl tgt);
  sound = λ x h.
      let e : tgt ≡ x = ground (arith, eq_iff tgt x) in
      subst (λ (y : Urn). Reaches s tgt y) e (here tgt);
  queued = λ x h. h;
  closed = λ a h. inl h;
}

module _ (s : GraphState) (idx : Index) (c : IsConsistent s)
    (live : s.relations_by_src ≡ some idx) where
  starts :
      (cur u : Urn) (rel : Relation)
      → get u s.relations ≡ some rel
      → contains u (edges_from s cur) ≡ true
      → rel.src_urn ≡ cur
  starts cur u rel found m =
      ground (arith, contains-edges_from s idx c live cur u, eq_iff rel.src_urn cur)

  Searching-next :
      (src tgt cur : Urn) (visited queue visited' queue' : List Urn)
      → Searching s src tgt visited (cur ∷ queue)
      → Walked s.relations src (edges_from s cur) visited queue visited' queue'
      → Searching s src tgt visited' queue'
  Searching-next src tgt cur visited queue visited' queue' at w = record {
    started = w.keeps tgt at.started;
    sound = λ x h. elim (w.fresh x h) [
      | inl old ↦ at.sound x old
      | inr (q, (u, rel, m, found, cause, e)) ↦
          along tgt cur x
            (at.sound cur (at.queued cur (unfold contains in ground (arith, eq_refl cur))))
            (u, rel, found, cause, starts cur u rel found m, e)
    ];
    queued = λ x h. elim (w.queued x h) [
      | inr new ↦ new
      | inl old ↦ w.keeps x (at.queued x (unfold contains in ground arith))
    ];
    closed = λ a h. elim (w.fresh a h) [
      | inr (q, rest) ↦ inl q
      | inl old ↦ elim (at.closed a old) [
        | inr done ↦ inr (λ b e. let (seen, ne) = done b e in (w.keeps b seen, ne))
        | inl q ↦ elim (Bool-cases (cur == a)) [
          | inr ne ↦ inl (w.keeps_queue a (unfold contains in ground arith))
          | inl e ↦ inr (λ b (u, rel, found, cause, from, to). rw (← to) (
              w.covers u rel
                (ground (arith, contains-edges_from s idx c live cur u, eq_iff cur a, eq_refl a))
                found cause))
        ]
      ]
    ];
  }

  -- No more to look at: what `tgt` reaches has been visited and is not `src`.
  Searching-end :
      (src tgt x : Urn) (visited : List Urn)
      → Searching s src tgt visited []
      → (tgt == src) ≡ false
      → Reaches s tgt x
      → (contains x visited ≡ true) × ((x == src) ≡ false)
  Searching-end src tgt _ visited at ne (here _) = (at.started, ne)
  Searching-end src tgt x visited at ne (along _ b _ p e) =
      elim (at.closed b (Searching-end src tgt b visited at ne p).0) [
        | inl q ↦ absurd (unfold contains in ground arith)
        | inr done ↦ done x e
      ]

  -- The answer of the search, for enough fuel.
  abbrev pub Answers : Urn → Urn → Option Bool → Type 0
  Answers src tgt o =
      ((o ≡ some true) × Reaches s tgt src)
      ⊎ (o ≡ some false) × ((x : Urn) → Reaches s tgt x → (x == src) ≡ false)

  search_cycle-Answers :
      (fuel : ℕ) (src tgt : Urn) (visited queue : List Urn)
      → Searching s src tgt visited queue
      → (tgt == src) ≡ false
      → unvisited visited s.relations + length queue ≤ fuel
      → Answers src tgt (search_cycle fuel s src visited queue)
  unfolding search_cycle
  search_cycle-Answers fuel src tgt visited [] at ne le =
      inr (refl, λ x p. (Searching-end src tgt x visited at ne p).1)
  search_cycle-Answers zero src tgt visited (cur ∷ queue) at ne le = absurd (ground arith)
  search_cycle-Answers (suc fuel) src tgt visited (cur ∷ queue) at ne le =
      go (λ v q. search_cycle-Answers fuel src tgt v q)
        (walk_edges s.relations src (edges_from s cur) visited queue)
        (walk_edges-Promise s.relations src (edges_from s cur) visited queue)
    where
      go :
          ((v q : List Urn)
            → Searching s src tgt v q
            → (tgt == src) ≡ false
            → unvisited v s.relations + length q ≤ fuel
            → Answers src tgt (search_cycle fuel s src v q))
          → (w : Walk) → Promise s.relations src (edges_from s cur) visited queue w
          → Answers src tgt (elim w as (λ _. Option Bool) [
            | closes ↦ some true
            | goes_on visited' queue' ↦ search_cycle fuel s src visited' queue'
          ])
      go ih closes (u, rel, m, found, cause, e) = inl (
        refl,
        along tgt cur src
            (at.sound cur (at.queued cur (unfold contains in ground (arith, eq_refl cur))))
            (u, rel, found, cause, starts cur u rel found m, e),
      )
      go ih (goes_on visited' queue') w =
          ih visited' queue' (Searching-next src tgt cur visited queue visited' queue' at w) ne
            (omega (arith, w.spends, le))

unvisited-length : (visited : List Urn) (m : Map Relation) → unvisited visited m ≤ length m
unvisited-length visited [] = omega arith
unvisited-length visited ((u, r) ∷ m) = ground (arith, unvisited-length visited m)

-- From the target alone, with the fuel that the code's loop needs at most.
pub search_cycle-start :
    (s : GraphState) (idx : Index) (c : IsConsistent s) (live : s.relations_by_src ≡ some idx)
    (src tgt : Urn)
    → (tgt == src) ≡ false
    → Answers s idx c live src tgt
        (search_cycle (suc (length s.relations)) s src (tgt ∷ []) (tgt ∷ []))
search_cycle-start s idx c live src tgt ne =
    search_cycle-Answers s idx c live (suc (length s.relations)) src tgt (tgt ∷ []) (tgt ∷ [])
      (Searching-start s src tgt) ne (omega (arith, unvisited-length (tgt ∷ []) s.relations))
