-- ===== src/Platform/Sorting.antt =====
-- `sort.Strings`, for what the program uses of it: the sorted list, by the order of the bytes.
use mathlib.Core.List.{Perm, Permᴰ}
use mathlib.Core.List.Perm
use mathlib.Core.Logic.{∥∥₁_elim}
use go_containerregistry.Prelude.{
  ◌≡◌, refl, sym, ap₂, subst, ◌∙◌, ◌↔◌, Bool, true, false, ◌||◌, List, [], ◌∷◌, Str, ltb,
  if◌then◌else◌, Bool-cases, inl, inr, arith,
}

unfoldable pub str_le : Str → Str → Bool
str_le [] t = true
str_le (a ∷ s) [] = false
str_le (a ∷ s) (b ∷ t) =
    let rest = str_le s t in if ltb a b then true else if ltb b a then false else rest

unfoldable pub insert : Str → List Str → List Str
insert x [] = x ∷ []
insert x (y ∷ ys) = let rest = insert x ys in if str_le x y then x ∷ y ∷ ys else y ∷ rest

unfoldable pub sort : List Str → List Str
sort [] = []
sort (x ∷ xs) = insert x (sort xs)

pub str_le-total : (s t : Str) → (str_le s t || str_le t s) ≡ true
unfolding str_le
str_le-total [] t = refl
str_le-total (a ∷ s) [] = refl
str_le-total (a ∷ s) (b ∷ t) = ground (arith, str_le-total s t)

str_le_antisymm : (s t : Str) → str_le s t ≡ true → str_le t s ≡ true → s ≡ t
unfolding str_le
str_le_antisymm [] [] h k = refl
str_le_antisymm [] (b ∷ t) h k = cc
str_le_antisymm (a ∷ s) [] h k = cc
str_le_antisymm (a ∷ s) (b ∷ t) h k = ground (arith, str_le_antisymm s t)

pub str_le_trans : (s t u : Str) → str_le s t ≡ true → str_le t u ≡ true → str_le s u ≡ true
unfolding str_le
str_le_trans [] t u h k = refl
str_le_trans (a ∷ s) [] u h k = cc
str_le_trans (a ∷ s) (b ∷ t) [] h k = cc
str_le_trans (a ∷ s) (b ∷ t) (c ∷ u) h k = ground (arith, str_le_trans s t u)

-- The order in which two strings are inserted does not matter.
insert_comm : (x y : Str) (l : List Str) → insert x (insert y l) ≡ insert y (insert x l)
unfolding insert
insert_comm x y [] = ground (arith, str_le-total x y, str_le_antisymm x y)
insert_comm x y (z ∷ l) = ground (
  arith,
  str_le-total x y,
  str_le_antisymm x y,
  str_le_trans x y z,
  str_le_trans y x z,
  insert_comm x y l,
)

insert-perm : (x : Str) (l : List Str) → Perm (insert x l) (x ∷ l)
unfolding insert
insert-perm x [] = Perm.refl (x ∷ [])
insert-perm x (y ∷ l) = elim (Bool-cases (str_le x y)) [
  | inl e ↦ rw e (Perm.refl (x ∷ y ∷ l))
  | inr e ↦ rw e (Perm.trans (Perm.cons y (insert-perm x l)) (Perm.swap x y l))
]

pub sort-perm : (l : List Str) → Perm (sort l) l
unfolding sort
sort-perm [] = Perm.refl []
sort-perm (x ∷ l) = Perm.trans (insert-perm x (sort l)) (Perm.cons x (sort-perm l))

sort-eq_of_permᴰ : (a b : List Str) → Permᴰ a b → sort a ≡ sort b
unfolding sort
sort-eq_of_permᴰ _ _ Permᴰ.nil = refl
sort-eq_of_permᴰ _ _ (Permᴰ.cons e h) = ap₂ insert e (sort-eq_of_permᴰ _ _ h)
sort-eq_of_permᴰ _ _ (Permᴰ.swap {a} {b} {l} e f) =
    insert_comm a b (sort l) ∙ ap₂ (λ u v. insert u (insert v (sort l))) f e
sort-eq_of_permᴰ _ _ (Permᴰ.trans h k) = sort-eq_of_permᴰ _ _ h ∙ sort-eq_of_permᴰ _ _ k

-- Lists with the same strings, as often, are sorted to the same list.
pub sort-eq_iff_perm : (a b : List Str) → (sort a ≡ sort b) ↔ Perm a b
sort-eq_iff_perm a b = (
  λ e. Perm.trans (Perm.symm (sort-perm a)) (subst (λ l. Perm l b) (sym e) (sort-perm b)),
  λ h. ∥∥₁_elim h (hlevel) (sort-eq_of_permᴰ a b),
)
