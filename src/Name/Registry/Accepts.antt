-- ===== src/Name/Registry/Accepts.antt =====
-- What `NewRegistry` accepts, and what it makes of it.
use go_containerregistry.Prelude.{
  ℕ, ◌≡◌, refl, Bool, true, false, ◌&&◌, List, [], ◌∷◌, Str, contains, is_empty, str_eq, all, ◌==◌,
  ==_iff, Bool-cases, inl, inr, if◌then◌else◌, ok, arith,
}
use go_containerregistry.Name.Options.{
  NameOption, make_options, default_registry_name, default_registry_alias,
}
use go_containerregistry.Name.Registry.{Registry, is_host_byte, is_authority, new_registry}

all-lacks : (p : ℕ → Bool) (s : Str) (c : ℕ) → p c ≡ false → all p s ≡ true → contains s c ≡ false
unfolding contains
all-lacks p [] c n h = refl
all-lacks p (x ∷ s) c n h = elim (Bool-cases (x == c)) [
  | inl e ↦ absurd (differ x (rw ((==_iff x c).0 e) n) h)
  | inr e ↦ rw e (all-lacks p s c n (rest x h))
]
  where
    differ : (x : ℕ) → p x ≡ false → (p x && all p s) ≡ true → ⊥
    differ x e k = ground arith

    rest : (x : ℕ) → (p x && all p s) ≡ true → all p s ≡ true
    rest x k = ground arith

is_authority-bytes : (name : Str) → is_authority name ≡ true → all is_host_byte name ≡ true
unfolding is_authority
is_authority-bytes name h = ground arith

-- An authority has no byte that a host cannot have.
pub is_authority-lacks :
    (name : Str) (c : ℕ)
    → is_host_byte c ≡ false
    → is_authority name ≡ true
    → contains name c ≡ false
is_authority-lacks name c n h = all-lacks is_host_byte name c n (is_authority-bytes name h)

-- The registry that a name, empty or not, stands for.
abbrev pub resolved : Str → Str → Str
resolved name default =
    let name1 = if is_empty name then default else name in
    if str_eq name1 default_registry_alias then default_registry_name else name1

pub record Accepted (name : Str) (opts : List NameOption) (r : Registry) : Type 0 where
  pub authority : is_authority name ≡ true
  pub explicit : (make_options opts).strict && is_empty name ≡ false
  pub value : r ≡ record {
    insecure = (make_options opts).insecure;
    registry = resolved name (make_options opts).default_registry;
  }

pub new_registry-eq-ok :
    (name : Str) (opts : List NameOption) (r : Registry)
    → new_registry name opts ≡ ok r
    → Accepted name opts r
unfolding new_registry
new_registry-eq-ok name opts r h = ground arith

pub new_registry_self :
    (name : Str) (opts : List NameOption)
    → is_authority name ≡ true
    → is_empty name ≡ false
    → str_eq name default_registry_alias ≡ false
    → new_registry name opts
      ≡ ok (record { insecure = (make_options opts).insecure; registry = name })
unfolding new_registry
new_registry_self name opts a e n = rw (a, e, n) (ground arith)
