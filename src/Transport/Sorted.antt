-- ===== src/Transport/Sorted.antt =====
-- The order in which redactURL of pkg/v1/remote/transport/error.go writes the entries of a query.
use go_containerregistry.Prelude.{
  ℕ, zero, suc, ◌≡◌, inl, inr, refl, ap, ◌∙◌, true, false, Bool-cases, List, [], ◌∷◌, All, some,
  Str, get_elem?, length, some_injective, subst,
}
use go_containerregistry.Platform.Sorting.{str_le, str_le-total, str_le_trans}
use go_containerregistry.Transport.Errors.{Entry, insert_entry, sort_entries}

-- The entry stands in the list.
abbrev pub IsIn : Entry → List Entry → Type 0
IsIn e es = (i : ℕ) × (get_elem? es i ≡ some e)

-- The entries stand in the order of their keys.
abbrev pub AreSorted : List Entry → Type 0
AreSorted [] = Unit
AreSorted (e ∷ es) = All (λ f. str_le e.0 f.0 ≡ true) es × AreSorted es

insert_entry-IsIn : (e : Entry) (es : List Entry) → IsIn e (insert_entry e es)
unfolding insert_entry
insert_entry-IsIn e [] = (0, refl)
insert_entry-IsIn e (f ∷ fs) = elim (Bool-cases (str_le e.0 f.0)) [
  | inl q ↦ (0, rw q)
  | inr q ↦ (let (i, at) = insert_entry-IsIn e fs in (suc i, rw q at))
]

IsIn-insert_entry : (d e : Entry) (es : List Entry) → IsIn d es → IsIn d (insert_entry e es)
unfolding insert_entry
IsIn-insert_entry d e [] (i, h) = cc
IsIn-insert_entry d e (f ∷ fs) (zero, h) = elim (Bool-cases (str_le e.0 f.0)) [
  | inl q ↦ (1, rw q h)
  | inr q ↦ (0, rw q h)
]
IsIn-insert_entry d e (f ∷ fs) (suc i, h) = elim (Bool-cases (str_le e.0 f.0)) [
  | inl q ↦ (suc (suc i), rw q h)
  | inr q ↦ (let (j, at) = IsIn-insert_entry d e fs (i, h) in (suc j, rw q at))
]

pub sort_entries-IsIn : (d : Entry) (es : List Entry) → IsIn d es → IsIn d (sort_entries es)
unfolding sort_entries
sort_entries-IsIn d [] (i, h) = cc
sort_entries-IsIn d (e ∷ es) (zero, h) =
    subst (λ x. IsIn x (insert_entry e (sort_entries es))) (some_injective h)
      (insert_entry-IsIn e (sort_entries es))
sort_entries-IsIn d (e ∷ es) (suc i, h) =
    IsIn-insert_entry d e (sort_entries es) (sort_entries-IsIn d es (i, h))

insert_entry-length : (e : Entry) (es : List Entry) → length (insert_entry e es) ≡ suc (length es)
unfolding insert_entry
insert_entry-length e [] = refl
insert_entry-length e (f ∷ fs) = elim (Bool-cases (str_le e.0 f.0)) [
  | inl q ↦ rw q
  | inr q ↦ rw q (ap suc (insert_entry-length e fs))
]

pub sort_entries-length : (es : List Entry) → length (sort_entries es) ≡ length es
unfolding sort_entries
sort_entries-length [] = refl
sort_entries-length (e ∷ es) =
    insert_entry-length e (sort_entries es) ∙ ap suc (sort_entries-length es)

All-insert_entry :
    (k : Str) (e : Entry) (es : List Entry)
    → str_le k e.0 ≡ true
    → All (λ f. str_le k f.0 ≡ true) es
    → All (λ f. str_le k f.0 ≡ true) (insert_entry e es)
unfolding insert_entry
All-insert_entry k e [] h all = (h, tt)
All-insert_entry k e (f ∷ fs) h all = elim (Bool-cases (str_le e.0 f.0)) [
  | inl q ↦ rw q (h, all)
  | inr q ↦ rw q (all.0, All-insert_entry k e fs h all.1)
]

All-le :
    (j k : Str) (es : List Entry)
    → str_le j k ≡ true
    → All (λ f. str_le k f.0 ≡ true) es
    → All (λ f. str_le j f.0 ≡ true) es
All-le j k [] h all = tt
All-le j k (f ∷ fs) h all = (str_le_trans j k f.0 h all.0, All-le j k fs h all.1)

le_other : (j k : Str) → str_le j k ≡ false → str_le k j ≡ true
le_other j k h = (let q = str_le-total j k in rw h at q)

insert_entry-AreSorted :
    (e : Entry) (es : List Entry) → AreSorted es → AreSorted (insert_entry e es)
unfolding insert_entry
insert_entry-AreSorted e [] h = (tt, tt)
insert_entry-AreSorted e (f ∷ fs) h = elim (Bool-cases (str_le e.0 f.0)) [
  | inl q ↦ rw q ((q, All-le e.0 f.0 fs q h.0), h)
  | inr q ↦
      rw q (All-insert_entry f.0 e fs (le_other e.0 f.0 q) h.0, insert_entry-AreSorted e fs h.1)
]

pub sort_entries-AreSorted : (es : List Entry) → AreSorted (sort_entries es)
unfolding sort_entries
sort_entries-AreSorted [] = tt
sort_entries-AreSorted (e ∷ es) =
    insert_entry-AreSorted e (sort_entries es) (sort_entries-AreSorted es)
