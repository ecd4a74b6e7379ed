-- ===== src/Operad/Loader/Admitted.antt =====
-- The ports that `generateTypePorts` gives a type.
use moos_kernel.Prelude.{
  ◌≡◌, ◌≢◌, ◌↔◌, refl, sym, ◌∙◌, ap, String, Bool, true, false, not, ◌&&◌, ◌||◌, Option, none, List,
  [], ◌∷◌, ◌++◌, ◌==◌, eq_iff, eq_of_test, if◌then◌else◌, arith, inl, inr, Bool-cases, Map, get,
  put, get-put, contains,
}
use moos_kernel.Graph.{TypeId}
use moos_kernel.Operad.{PortSpec, contains_string}
use moos_kernel.Reactive.Engine.Scans.{In}
use moos_kernel.Operad.Loader.{RawRewriteCategory}
use moos_kernel.Operad.Loader.Ports.{
  RawPortPair, skipped, admits_type, ports_of, add_port, pair_ports, no_ports, ports_at, add_pair,
  add_pairs, start_ports, raw_declared_pairs, generate_type_ports,
}

contains_string-append :
    (ports : List String) (port p : String)
    → contains_string (ports ++ port ∷ []) p ≡ (contains_string ports p || port == p)
unfolding contains_string
contains_string-append [] port p = ground arith
contains_string-append (q ∷ ports) port p = ground (arith, contains_string-append ports port p)

-- An end of a pair gives a type the port `p`.
abbrev gives : Bool → String → String → Bool
gives admitted port p = not (port == "") && admitted && port == p

contains_string-add_port :
    (admitted : Bool) (port p : String) (ports : Option (List String))
    → contains_string (ports_of (add_port admitted port ports)) p
      ≡ (contains_string (ports_of ports) p || gives admitted port p)
unfolding add_port
contains_string-add_port admitted port p ports =
    ground (arith, contains_string-append (ports_of ports) port p, eq_iff port p)

gives_iff :
    (admitted : Bool) (port p : String)
    → (gives admitted port p ≡ true) ↔ ((p ≢ "") × (port ≡ p) × (admitted ≡ true))
gives_iff admitted port p = (
  λ h. (
    λ empty. ground (arith, eq_iff port p, eq_iff port ""),
    ground (arith, eq_iff port p),
    ground arith,
  ),
  λ (named, same, yes_admitted). ground (arith, eq_iff port p, eq_iff port ""),
)

ports_at-put :
    (k id : TypeId) (ps : PortSpec) (gen : Map PortSpec)
    → ports_at id (put k ps gen) ≡ (if k == id then ps else ports_at id gen)
ports_at-put k id ps gen = ground (arith, get-put k id ps gen)

-- Some declared pair without a placeholder has the port at this end and admits the type there.
abbrev pub Admits :
    (RawPortPair → String)
    → (RawPortPair → List String)
    → List RawPortPair
    → TypeId
    → String
    → Type 0
Admits end types prs id p =
    (pr : RawPortPair) × In pr prs
    × (skipped pr ≡ false)
    × (end pr ≡ p)
    × (admits_type (types pr) id ≡ true)

-- One of the two lists of a type: the ports that go out, or those that come in.
module _ (list : PortSpec → Option (List String)) (end : RawPortPair → String)
    (types : RawPortPair → List String)
    (adds : (pr : RawPortPair) (id : TypeId) (ps : PortSpec)
      → list (pair_ports pr id ps) ≡ add_port (admits_type (types pr) id) (end pr) (list ps))
    (starts : list no_ports ≡ none) where
  abbrev has : TypeId → String → Map PortSpec → Bool
  has id p gen = contains_string (ports_of (list (ports_at id gen))) p

  abbrev gives_to : RawPortPair → TypeId → String → Bool
  gives_to pr id p = gives (admits_type (types pr) id) (end pr) p

  has-put_pair :
      (pr : RawPortPair) (k id : TypeId) (p : String) (gen : Map PortSpec)
      → has id p (put k (pair_ports pr k (ports_at k gen)) gen)
        ≡ (has id p gen || (k == id && gives_to pr id p))
  has-put_pair pr k id p gen =
      let ps = pair_ports pr k (ports_at k gen) in
      let member =
        λ (b : Bool). contains_string (ports_of (list (if b then ps else ports_at id gen))) p in
      let at : has id p (put k ps gen) ≡ member (k == id) =
        ap (λ (x : PortSpec). contains_string (ports_of (list x)) p) (ports_at-put k id ps gen) in
      let pair : member true ≡ (has k p gen || gives_to pr k p) =
        ap (λ (l : Option (List String)). contains_string (ports_of l) p)
          (adds pr k (ports_at k gen))
        ∙ contains_string-add_port (admits_type (types pr) k) (end pr) p (list (ports_at k gen)) in
      elim (Bool-cases (k == id)) [
        | inl same ↦
            let e : k ≡ id = eq_of_test k id same in
            let here : (has k p gen || gives_to pr k p)
                ≡ (has id p gen || (true && gives_to pr id p)) =
              rw e refl in
            at
            ∙ ap member same
            ∙ pair
            ∙ here
            ∙ ap (λ (b : Bool). has id p gen || (b && gives_to pr id p)) (sym same)
        | inr other ↦
            let there : has id p gen ≡ (has id p gen || (false && gives_to pr id p)) =
              ground arith in
            at
            ∙ ap member other
            ∙ there
            ∙ ap (λ (b : Bool). has id p gen || (b && gives_to pr id p)) (sym other)
      ]

  has-add_pair :
      (pr : RawPortPair) (ids : List TypeId) (id : TypeId) (p : String) (gen : Map PortSpec)
      → has id p (add_pair pr ids gen) ≡ (has id p gen || (contains id ids && gives_to pr id p))
  unfolding add_pair contains
  has-add_pair pr [] id p gen = ground arith
  has-add_pair pr (k ∷ ids) id p gen =
      let next = put k (pair_ports pr k (ports_at k gen)) gen in
      ground (arith, has-add_pair pr ids id p next, has-put_pair pr k id p gen)

  -- Some pair that is not skipped gives the type the port.
  abbrev pub given : List RawPortPair → TypeId → String → Bool
  given [] id p = false
  given (pr ∷ prs) id p = not (skipped pr) && gives_to pr id p || given prs id p

  has-add_pairs :
      (prs : List RawPortPair) (ids : List TypeId) (id : TypeId) (p : String) (gen : Map PortSpec)
      → contains id ids ≡ true
      → has id p (add_pairs prs ids gen) ≡ (has id p gen || given prs id p)
  unfolding add_pairs
  has-add_pairs [] ids id p gen i = ground arith
  has-add_pairs (pr ∷ prs) ids id p gen i = ground (
    arith,
    has-add_pairs prs ids id p gen,
    has-add_pairs prs ids id p (add_pair pr ids gen),
    has-add_pair pr ids id p gen,
  )

  has-put_none :
      (k id : TypeId) (p : String) (gen : Map PortSpec)
      → has id p gen ≡ false
      → has id p (put k no_ports gen) ≡ false
  unfolding contains_string
  has-put_none k id p gen h =
      let member = λ (b : Bool).
        contains_string (ports_of (list (if b then no_ports else ports_at id gen))) p in
      let at : has id p (put k no_ports gen) ≡ member (k == id) =
        ap (λ (x : PortSpec). contains_string (ports_of (list x)) p)
          (ports_at-put k id no_ports gen) in
      let fresh : member true ≡ false =
        ap (λ (l : Option (List String)). contains_string (ports_of l) p) starts in
      elim (Bool-cases (k == id)) [
        | inl same ↦ at ∙ ap member same ∙ fresh
        | inr other ↦ at ∙ ap member other ∙ h
      ]

  has-start_ports :
      (ids : List TypeId) (id : TypeId) (p : String) (gen : Map PortSpec)
      → has id p gen ≡ false
      → has id p (start_ports ids gen) ≡ false
  unfolding start_ports
  has-start_ports [] id p gen h = h
  has-start_ports (k ∷ ids) id p gen h =
      has-start_ports ids id p (put k no_ports gen) (has-put_none k id p gen h)

  given_iff :
      (prs : List RawPortPair) (id : TypeId) (p : String)
      → (given prs id p ≡ true) ↔ ((p ≢ "") × Admits end types prs id p)
  given_iff [] id p = (λ h. absurd (ground arith), λ (_, (_, i, _, _, _)). absurd i)
  given_iff (pr ∷ prs) id p =
      let (to, back) = given_iff prs id p in
      let (take, give) = gives_iff (admits_type (types pr) id) (end pr) p in
      (
        λ h. elim (Bool-cases (not (skipped pr) && gives_to pr id p)) [
          | inl now ↦
              let (named, same, admitted) = take (ground arith) in
              (named, (pr, inl refl, ground arith, same, admitted))
          | inr later ↦
              let (named, (other, i, kept, same, admitted)) = to (ground arith) in
              (named, (other, inr i, kept, same, admitted))
        ],
        λ (named, (other, i, kept, same, admitted)). elim i [
          | inl here ↦
              let now : gives_to pr id p ≡ true = give (
                named,
                ap end (sym here) ∙ same,
                ap (λ (x : RawPortPair). admits_type (types x) id) (sym here) ∙ admitted,
              ) in
              let open_pair : skipped pr ≡ false = ap skipped (sym here) ∙ kept in
              ground (arith, now, open_pair)
          | inr later ↦ ground (arith, back (named, (other, later, kept, same, admitted)))
        ],
      )

  -- A type that the ontology lists gets exactly the ports of the pairs that admit it.
  pub has-generate_type_ports :
      (ids : List TypeId) (wfs : List RawRewriteCategory) (id : TypeId) (p : String)
      → contains id ids ≡ true
      → (has id p (generate_type_ports ids wfs) ≡ true)
        ↔ ((p ≢ "") × Admits end types (raw_declared_pairs wfs) id p)
  unfolding generate_type_ports
  has-generate_type_ports ids wfs id p i =
      let prs = raw_declared_pairs wfs in
      let none_yet : has id p (start_ports ids []) ≡ false =
        has-start_ports ids id p [] (unfold get contains_string in rw starts refl) in
      let e : has id p (add_pairs prs ids (start_ports ids [])) ≡ given prs id p =
        ground (arith, has-add_pairs prs ids id p (start_ports ids []) i, none_yet) in
      rw e (given_iff prs id p)
