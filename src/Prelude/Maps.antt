-- ===== src/Prelude/Maps.antt =====
-- Go's `map[string]V` as an association list. The order of the list is the order in which a `range`
-- loop meets the entries; Go promises none, so a theorem is stated for every list.
use mathlib.Core.List.{append-nil, append_assoc}
use moos_kernel.Prelude.Tests.{
  sym, ◌∙◌, ◌⊎◌, String, ◌≡◌, refl, inl, inr, Bool, true, false, Option, none, some, List, [], ◌∷◌,
  ◌++◌, arith, ◌==◌, eq_iff, eq_refl, if◌then◌else◌, Bool-cases,
}

abbrev pub Map : Type 0 → Type 0
Map V = List (String × V)

-- What a test says of a value that may be missing.
abbrev pub holds : {V : Type 0} → (V → Bool) → Option V → Bool
holds p none = false
holds p (some v) = p v

abbrev pub is_some : {V : Type 0} → Option V → Bool
is_some none = false
is_some (some v) = true

module _ {V : Type 0} where
  -- `m[k]` with its `ok` flag
  unfoldable pub get : String → Map V → Option V
  get k [] = none
  get k ((j, v) ∷ m) = if j == k then some v else get k m

  -- `m[k] = v`
  unfoldable pub put : String → V → Map V → Map V
  put k v [] = (k, v) ∷ []
  put k v ((j, w) ∷ m) = if j == k then (j, v) ∷ m else (j, w) ∷ put k v m

  -- `delete(m, k)`
  unfoldable pub delete : String → Map V → Map V
  delete k [] = []
  delete k ((j, w) ∷ m) = let rest = delete k m in if j == k then rest else (j, w) ∷ rest

  -- No key stands twice, as in every Go map.
  abbrev pub Distinct : Map V → Type 0
  Distinct [] = Unit
  Distinct ((k, v) ∷ m) = (get k m ≡ none) × Distinct m

  pub get-put :
      (k j : String) (v : V) (m : Map V) → get j (put k v m) ≡ (if k == j then some v else get j m)
  unfolding get put
  get-put k j v [] = refl
  get-put k j v ((i, w) ∷ m) = ground (arith, eq_iff k j, eq_iff i k, eq_iff i j, get-put k j v m)

  pub get-put_self : (k : String) (v : V) (m : Map V) → get k (put k v m) ≡ some v
  get-put_self k v m = ground (arith, get-put k k v m, eq_refl k)

  pub get-delete :
      (k j : String) (m : Map V) → get j (delete k m) ≡ (if k == j then none else get j m)
  unfolding get delete
  get-delete k j [] = ground arith
  get-delete k j ((i, w) ∷ m) = ground (arith, eq_iff k j, eq_iff i k, eq_iff i j, get-delete k j m)

  pub Distinct-put : (k : String) (v : V) (m : Map V) → Distinct m → Distinct (put k v m)
  unfolding put get
  Distinct-put k v [] d = (refl, tt)
  Distinct-put k v ((i, w) ∷ m) d = elim (Bool-cases (i == k)) [
    | inl e ↦ ground arith
    | inr e ↦ ground (arith, get-put k i v m, eq_iff i k, eq_iff k i, Distinct-put k v m d.1)
  ]

  pub Distinct-delete : (k : String) (m : Map V) → Distinct m → Distinct (delete k m)
  unfolding delete
  Distinct-delete k [] d = tt
  Distinct-delete k ((i, w) ∷ m) d = ground (arith, get-delete k i m, Distinct-delete k m d.1)

  -- A key that was not there is put at the end.
  pub put_fresh : (k : String) (v : V) (m : Map V) → get k m ≡ none → put k v m ≡ m ++ (k, v) ∷ []
  unfolding put get
  put_fresh k v [] h = refl
  put_fresh k v ((i, w) ∷ m) h = ground (arith, put_fresh k v m)

-- `for k, v := range m { if p(v) { out = append(out, k) } }`
unfoldable pub keys_where : {V : Type 0} → (V → Bool) → Map V → List String
keys_where p [] = []
keys_where p ((k, v) ∷ m) = let rest = keys_where p m in if p v then k ∷ rest else rest

-- `c := make(map, len(m)); for k, v := range m { c[k] = copy(v) }`, from the copy so far.
unfoldable pub copy_into : {V : Type 0} → (V → V) → Map V → Map V → Map V
copy_into copy c [] = c
copy_into copy c ((k, v) ∷ m) = copy_into copy (put k (copy v) c) m

unfoldable pub copy_map : {V : Type 0} → (V → V) → Map V → Map V
unfolding copy_into
copy_map copy m = copy_into copy [] m

module _ {V : Type 0} (copy : V → V) where
  get-append :
      (k : String) (l m : Map V) → get k (l ++ m) ≡ (if is_some (get k l) then get k l else get k m)
  unfolding get
  get-append k [] m = refl
  get-append k ((j, v) ∷ l) m = ground (arith, get-append k l m)

  copy_into-eq-append :
      (c m : Map V)
      → Distinct m
      → ((k : String) → is_some (get k m) ≡ true → get k c ≡ none)
      → ((k : String) (v : V) → get k m ≡ some v → copy v ≡ v)
      → copy_into copy c m ≡ c ++ m
  unfolding copy_into
  copy_into-eq-append c [] d fresh same = sym (append-nil c)
  copy_into-eq-append c ((k, v) ∷ m) d fresh same =
      let here : get k ((k, v) ∷ m) ≡ some v = unfold get in rw eq_refl in
      let kept = λ (j : String) (w : V) (h : get j m ≡ some w).
        same j w (unfold get in ground (arith, eq_iff k j, d.0)) in
      rw (put_fresh k (copy v) c (fresh k (rw here)), same k v here)
        (copy_into-eq-append (c ++ (k, v) ∷ []) m d.1
            (λ j h. rw get-append (unfold get in ground (arith, eq_iff k j, d.0, fresh j))) kept
          ∙ append_assoc c ((k, v) ∷ []) m)

  -- Copying every entry gives the same map.
  pub copy_map_same :
      (m : Map V)
      → Distinct m
      → ((k : String) (v : V) → get k m ≡ some v → copy v ≡ v)
      → copy_map copy m ≡ m
  unfolding copy_map
  copy_map_same m d same = copy_into-eq-append [] m d (λ k h. unfold get in refl) same

  Distinct-copy_into : (c m : Map V) → Distinct c → Distinct (copy_into copy c m)
  unfolding copy_into
  Distinct-copy_into c [] d = d
  Distinct-copy_into c ((k, v) ∷ m) d =
      Distinct-copy_into (put k (copy v) c) m (Distinct-put k (copy v) c d)

  pub Distinct-copy_map : (m : Map V) → Distinct (copy_map copy m)
  unfolding copy_map
  Distinct-copy_map m = Distinct-copy_into [] m tt

module _ {V : Type 0} where
  pub get-put_cases :
      (k j : String) (v w : V) (m : Map V)
      → get j (put k v m) ≡ some w
      → ((k ≡ j) × (v ≡ w)) ⊎ (get j m ≡ some w)
  get-put_cases k j v w m h = elim (Bool-cases (k == j)) [
    | inl e ↦ ground (arith, get-put k j v m, eq_iff k j)
    | inr e ↦ ground (arith, get-put k j v m)
  ]

  pub get-delete-some :
      (k j : String) (w : V) (m : Map V) → get j (delete k m) ≡ some w → get j m ≡ some w
  get-delete-some k j w m h = ground (arith, get-delete k j m)
