-- ===== src/Prelude/Sets.antt =====
-- Go's `map[string]struct{}` as a list of keys, and the keys that a scan of a map yields.
use Prim.Native.String.{compare}
use text.Mathlib.Text.{is_le}
use moos_kernel.Prelude.Tests.{
  String, ◌≡◌, refl, inl, inr, Bool, true, false, not, ◌&&◌, ◌||◌, none, List, [], ◌∷◌, arith, ◌==◌,
  eq_iff, if◌then◌else◌, Bool-cases,
}
use moos_kernel.Prelude.Maps.{Map, holds, get, Distinct, keys_where}

-- `_, ok := set[u]`
unfoldable pub contains : String → List String → Bool
contains u [] = false
contains u (v ∷ vs) = v == u || contains u vs

-- `set[u] = struct{}{}`
unfoldable pub set_add : String → List String → List String
set_add u [] = u ∷ []
set_add u (v ∷ vs) = if v == u then v ∷ vs else v ∷ set_add u vs

-- `delete(set, u)`
unfoldable pub set_remove : String → List String → List String
set_remove u [] = []
set_remove u (v ∷ vs) = let rest = set_remove u vs in if v == u then rest else v ∷ rest

-- `len(set) == 0`
abbrev pub is_empty : {A : Type 0} → List A → Bool
is_empty [] = true
is_empty (_ ∷ _) = false

abbrev pub Unique : List String → Type 0
Unique [] = Unit
Unique (v ∷ vs) = (contains v vs ≡ false) × Unique vs

pub contains-set_add :
    (u v : String) (s : List String) → contains v (set_add u s) ≡ (u == v || contains v s)
unfolding contains set_add
contains-set_add u v [] = refl
contains-set_add u v (w ∷ s) =
    ground (arith, eq_iff w u, eq_iff w v, eq_iff u v, contains-set_add u v s)

pub contains-set_remove :
    (u v : String) (s : List String) → contains v (set_remove u s) ≡ (not (u == v) && contains v s)
unfolding contains set_remove
contains-set_remove u v [] = ground arith
contains-set_remove u v (w ∷ s) =
    ground (arith, eq_iff w u, eq_iff w v, eq_iff u v, contains-set_remove u v s)

pub Unique-set_add : (u : String) (s : List String) → Unique s → Unique (set_add u s)
unfolding set_add contains
Unique-set_add u [] h = (refl, tt)
Unique-set_add u (w ∷ s) h = elim (Bool-cases (w == u)) [
  | inl e ↦ ground arith
  | inr e ↦ ground (arith, contains-set_add u w s, eq_iff w u, eq_iff u w, Unique-set_add u s h.1)
]

pub Unique-set_remove : (u : String) (s : List String) → Unique s → Unique (set_remove u s)
unfolding set_remove
Unique-set_remove u [] h = tt
Unique-set_remove u (w ∷ s) h = ground (arith, contains-set_remove u w s, Unique-set_remove u s h.1)

module _ {V : Type 0} (p : V → Bool) where
  keys_where_absent :
      (k : String) (m : Map V) → get k m ≡ none → contains k (keys_where p m) ≡ false
  unfolding keys_where contains get
  keys_where_absent k [] h = refl
  keys_where_absent k ((j, v) ∷ m) h = ground (arith, keys_where_absent k m)

  -- The scan yields exactly the keys whose value passes the test.
  pub contains-keys_where :
      (k : String) (m : Map V) → Distinct m → contains k (keys_where p m) ≡ holds p (get k m)
  unfolding keys_where contains get
  contains-keys_where k [] d = refl
  contains-keys_where k ((j, v) ∷ m) d =
      ground (arith, contains-keys_where k m, keys_where_absent k m, eq_iff j k)

  pub Unique-keys_where : (m : Map V) → Distinct m → Unique (keys_where p m)
  unfolding keys_where
  Unique-keys_where [] d = tt
  Unique-keys_where ((j, v) ∷ m) d =
      ground (arith, keys_where_absent j m d.0, Unique-keys_where m d.1)

-- `sort.Strings`
unfoldable pub insert_string : String → List String → List String
insert_string s [] = s ∷ []
insert_string s (t ∷ ts) = if is_le (compare s t) then s ∷ t ∷ ts else t ∷ insert_string s ts

unfoldable pub sort_strings : List String → List String
unfolding insert_string
sort_strings [] = []
sort_strings (s ∷ ss) = insert_string s (sort_strings ss)

insert_string-keeps :
    (k s : String) (ss : List String) → contains k (insert_string s ss) ≡ (s == k || contains k ss)
unfolding insert_string contains
insert_string-keeps k s [] = refl
insert_string-keeps k s (t ∷ ts) = ground (arith, insert_string-keeps k s ts)

-- Sorting keeps the members.
pub contains-sort_strings :
    (k : String) (ss : List String) → contains k (sort_strings ss) ≡ contains k ss
unfolding sort_strings contains
contains-sort_strings k [] = refl
contains-sort_strings k (s ∷ ss) =
    rw (insert_string-keeps k s (sort_strings ss), contains-sort_strings k ss) refl
