-- ===== src/Operad/Members.antt =====
-- Membership as `containsRewrite` and `containsString` of internal/operad/validate.go test it.
use mathlib.Core.List.{Memᴰ}
use mathlib.Core.List.Memᴰ
use moos_kernel.Prelude.{
  String, ◌≡◌, refl, sym, inl, inr, ◌↔◌, true, List, [], ◌∷◌, ◌==◌, arith, eq_iff, Bool-cases,
}
use moos_kernel.Graph.{RewriteType, add, link, mutate, unlink, other}
use moos_kernel.Operad.{same_type, contains_rewrite, contains_string}

same_type_link : (t : RewriteType) → (same_type t link ≡ true) ↔ (link ≡ t)
unfolding same_type
same_type_link link = (λ _. refl, λ _. refl)
same_type_link add = (λ h. absurd (ground arith), λ h. absurd (ground arith))
same_type_link mutate = (λ h. absurd (ground arith), λ h. absurd (ground arith))
same_type_link unlink = (λ h. absurd (ground arith), λ h. absurd (ground arith))
same_type_link (other x) = (λ h. absurd (ground arith), λ h. absurd (ground arith))

same_type_mutate : (t : RewriteType) → (same_type t mutate ≡ true) ↔ (mutate ≡ t)
unfolding same_type
same_type_mutate mutate = (λ _. refl, λ _. refl)
same_type_mutate add = (λ h. absurd (ground arith), λ h. absurd (ground arith))
same_type_mutate link = (λ h. absurd (ground arith), λ h. absurd (ground arith))
same_type_mutate unlink = (λ h. absurd (ground arith), λ h. absurd (ground arith))
same_type_mutate (other x) = (λ h. absurd (ground arith), λ h. absurd (ground arith))

-- Of a rewrite type on which `same_type` decides equality.
module _ (rt : RewriteType) (same : (t : RewriteType) → (same_type t rt ≡ true) ↔ (rt ≡ t)) where
  contains_rewrite_iff : (ts : List RewriteType) → (contains_rewrite ts rt ≡ true) ↔ Memᴰ rt ts
  unfolding contains_rewrite
  contains_rewrite_iff [] = (λ h. absurd (ground arith), λ m. absurd (Memᴰ.not-nil m))
  contains_rewrite_iff (t ∷ ts) = (
    λ h. elim (Bool-cases (same_type t rt)) [
      | inl e ↦ Memᴰ.head ((same t).0 e)
      | inr e ↦ Memᴰ.tail ((contains_rewrite_iff ts).0 (rw e at h))
    ],
    λ m. elim (Memᴰ.cases_cons m) [
      | inl e ↦ ground (arith, (same t).1 e)
      | inr rest ↦ ground (arith, (contains_rewrite_iff ts).1 rest)
    ],
  )

pub contains_link_iff : (ts : List RewriteType) → (contains_rewrite ts link ≡ true) ↔ Memᴰ link ts
contains_link_iff = contains_rewrite_iff link same_type_link

pub contains_mutate_iff :
    (ts : List RewriteType) → (contains_rewrite ts mutate ≡ true) ↔ Memᴰ mutate ts
contains_mutate_iff = contains_rewrite_iff mutate same_type_mutate

pub contains_string_iff :
    (vs : List String) (s : String) → (contains_string vs s ≡ true) ↔ Memᴰ s vs
unfolding contains_string
contains_string_iff [] s = (λ h. absurd (ground arith), λ m. absurd (Memᴰ.not-nil m))
contains_string_iff (v ∷ vs) s = (
  λ h. elim (Bool-cases (v == s)) [
    | inl e ↦ Memᴰ.head (sym ((eq_iff v s).0 e))
    | inr e ↦ Memᴰ.tail ((contains_string_iff vs s).0 (rw e at h))
  ],
  λ m. elim (Memᴰ.cases_cons m) [
    | inl e ↦ ground (arith, eq_iff v s)
    | inr rest ↦ ground (arith, (contains_string_iff vs s).1 rest)
  ],
)
