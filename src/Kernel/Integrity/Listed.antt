-- ===== src/Kernel/Integrity/Listed.antt =====
-- The groups of `computeLogIntegrity`: which entries they list.
use moos_kernel.Prelude.{
  ◌≡◌, ◌↔◌, sym, ◌∙◌, [], ◌∷◌, ◌++◌, nat_eq, arith, ◌⊎◌, inl, inr, Bool-cases,
}
use moos_kernel.Graph.{Int64}
use moos_kernel.Reactive.Engine.Scans.{In, In-append_left, In-append_right, In-append_cases}
use moos_kernel.Kernel.Integrity.{CollisionEntry}
use moos_kernel.Kernel.Integrity.Compute.{BySeq, add_entry}

-- The entry stands in the group of the number.
abbrev pub Listed : Int64 → CollisionEntry → BySeq → Type 0
Listed q e [] = ⊥
Listed q e ((s, es) ∷ groups) = ((s ≡ q) × In e es) ⊎ Listed q e groups

module _ (q s : Int64) (e x : CollisionEntry) where
  pub Listed-add_entry :
      (groups : BySeq)
      → Listed q e (add_entry s x groups) ↔ (((s ≡ q) × (e ≡ x)) ⊎ Listed q e groups)
  unfolding add_entry
  Listed-add_entry [] = (
    λ (l : Listed q e ((s, x ∷ []) ∷ [])). elim l [
      | inl (same, inl new) ↦ inl (same, new)
      | inl (same, inr i) ↦ absurd i
      | inr i ↦ absurd i
    ],
    λ (l : ((s ≡ q) × (e ≡ x)) ⊎ ⊥). elim l [
      | inl (same, new) ↦ inl (same, inl new)
      | inr i ↦ absurd i
    ],
  )
  Listed-add_entry ((t, es) ∷ groups) = elim (Bool-cases (nat_eq t s)) [
    | inl same ↦
        let e1 : t ≡ s = ground arith in
        rw same (
          λ (l : Listed q e ((t, es ++ x ∷ []) ∷ groups)). elim l [
            | inl (here, i) ↦ elim (In-append_cases e es (x ∷ []) i) [
              | inl old ↦ inr (inl (here, old))
              | inr (inl new) ↦ inl (sym e1 ∙ here, new)
              | inr (inr i) ↦ absurd i
            ]
            | inr i ↦ inr (inr i)
          ],
          λ (l : ((s ≡ q) × (e ≡ x)) ⊎ Listed q e ((t, es) ∷ groups)). elim l [
            | inl (here, new) ↦ inl (e1 ∙ here, In-append_right e es (x ∷ []) (inl new))
            | inr (inl (here, old)) ↦ inl (here, In-append_left e es (x ∷ []) old)
            | inr (inr i) ↦ inr i
          ],
        )
    | inr other ↦
        let (to, back) = Listed-add_entry groups in
        rw other (
          λ (l : Listed q e ((t, es) ∷ add_entry s x groups)). elim l [
            | inl here ↦ inr (inl here)
            | inr i ↦ elim (to i) [ inl new ↦ inl new | inr old ↦ inr (inr old) ]
          ],
          λ (l : ((s ≡ q) × (e ≡ x)) ⊎ Listed q e ((t, es) ∷ groups)). elim l [
            | inl new ↦ inr (back (inl new))
            | inr (inl here) ↦ inl here
            | inr (inr i) ↦ inr (back (inr i))
          ],
        )
  ]
