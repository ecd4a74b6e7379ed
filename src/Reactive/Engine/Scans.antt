-- ===== src/Reactive/Engine/Scans.antt =====
-- Membership in what a scan of a map yields: the `range` loops of internal/reactive/engine.go.
use moos_kernel.Prelude.{
  String, ◌≡◌, refl, sym, ap, inl, inr, ◌⊎◌, Option, none, some, List, [], ◌∷◌, ◌++◌, ◌==◌, Map,
  get, Distinct, eq_iff, arith, Bool-cases,
}

abbrev pub In : {A : Type 0} → A → List A → Type 0
In a [] = ⊥
In a (x ∷ xs) = (a ≡ x) ⊎ In a xs

module _ {A : Type 0} (a : A) where
  pub In-append_left : (xs ys : List A) → In a xs → In a (xs ++ ys)
  In-append_left [] ys i = absurd i
  In-append_left (x ∷ xs) ys (inl e) = inl e
  In-append_left (x ∷ xs) ys (inr i) = inr (In-append_left xs ys i)

  pub In-append_right : (xs ys : List A) → In a ys → In a (xs ++ ys)
  In-append_right [] ys i = i
  In-append_right (x ∷ xs) ys i = inr (In-append_right xs ys i)

  pub In-append_cases : (xs ys : List A) → In a (xs ++ ys) → In a xs ⊎ In a ys
  In-append_cases [] ys i = inr i
  In-append_cases (x ∷ xs) ys (inl e) = inl (inl e)
  In-append_cases (x ∷ xs) ys (inr i) = elim (In-append_cases xs ys i) [
    | inl l ↦ inl (inr l)
    | inr r ↦ inr r
  ]

module _ {V : Type 0} where
  -- The entry `(k, v)` stands in the list of the map.
  abbrev pub Entry : String → V → Map V → Type 0
  Entry k v [] = ⊥
  Entry k v ((j, w) ∷ m) = ((j ≡ k) × (w ≡ v)) ⊎ Entry k v m

  pub Entry-of_get : (k : String) (v : V) (m : Map V) → get k m ≡ some v → Entry k v m
  unfolding get
  Entry-of_get k v [] h = absurd (ground arith)
  Entry-of_get k v ((j, w) ∷ m) h = elim (Bool-cases (j == k)) [
    | inl e ↦ inl ((eq_iff j k).0 e, ground arith)
    | inr e ↦ inr (Entry-of_get k v m (ground arith))
  ]

  pub get-of_Entry : (k : String) (v : V) (m : Map V) → Distinct m → Entry k v m → get k m ≡ some v
  unfolding get
  get-of_Entry k v [] d i = absurd i
  get-of_Entry k v ((j, w) ∷ m) d (inl (same, value)) = ground (arith, eq_iff j k)
  get-of_Entry k v ((j, w) ∷ m) d (inr i) =
      let later : get k m ≡ some v = get-of_Entry k v m d.1 i in
      elim (Bool-cases (j == k)) [
        | inl e ↦ absurd (ground (arith, eq_iff j k, d.0))
        | inr e ↦ ground arith
      ]

-- The step of a loop that appends at most one element.
module _ {A B : Type 0} (make : B → A) (rest : List A) where
  abbrev pub prepend : Option B → List A
  prepend o = elim o [ none ↦ rest | some b ↦ make b ∷ rest ]

  pub In-prepend_taken : (o : Option B) (b : B) → o ≡ some b → In (make b) (prepend o)
  In-prepend_taken none b h = absurd (ground arith)
  In-prepend_taken (some c) b h = let e : c ≡ b = ground arith in inl (ap make (sym e))

  pub In-prepend_kept : (o : Option B) (a : A) → In a rest → In a (prepend o)
  In-prepend_kept none a i = i
  In-prepend_kept (some b) a i = inr i

  pub In-prepend_cases :
      (o : Option B) (a : A)
      → In a (prepend o)
      → ((b : B) × (o ≡ some b) × (a ≡ make b)) ⊎ In a rest
  In-prepend_cases none a i = inr i
  In-prepend_cases (some b) a (inl e) = inl (b, refl, e)
  In-prepend_cases (some b) a (inr i) = inr i
