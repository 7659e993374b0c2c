-- ===== src/Hash/RoundTrip.antt =====
-- `NewHash` accepts exactly the texts of well-formed hashes.
use go_containerregistry.Prelude.{
  ℕ, zero, suc, ◌&&◌, ◌*◌, ◌/◌, ◌%◌, ◌<◌, ◌≡◌, refl, sym, ap, ap₂, ◌∙◌, ◌↔◌, Bool, true, false,
  List, [], ◌∷◌, ◌++◌, Str, contains, is_empty, split, split-append, join, join-split, length,
  str_eq, str_eq_iff, str_eq_refl, Result, ok, err, ◌>>=◌, arith,
}
use go_containerregistry.Name.Check.Accepts.{IsOver, IsOver-lacks}
use go_containerregistry.Hash.{
  Hash, HashError, hash_string, hex_chars, sha256_name, trim_left, hasher_size, parse_parts, parse,
  new_hash, hex_digit, hex_encode, sha256,
}

pub record IsHash (h : Hash) : Type 0 where
  pub algorithm : h.algorithm ≡ sha256_name
  pub over : IsOver hex_chars h.hex
  pub size : length h.hex ≡ 64

trim_left-empty : (s chars : Str) → is_empty (trim_left s chars) ≡ true → IsOver chars s
unfolding trim_left
trim_left-empty [] chars h = tt
trim_left-empty (c ∷ s) chars h = ground (arith, trim_left-empty s chars)

trim_left-IsOver : (s chars : Str) → IsOver chars s → trim_left s chars ≡ []
unfolding trim_left
trim_left-IsOver [] chars h = refl
trim_left-IsOver (c ∷ s) chars h = ground (arith, trim_left-IsOver s chars h.1)

parse_two :
    (s algorithm hex : Str) (h : Hash)
    → parse_parts s (algorithm ∷ hex ∷ []) ≡ ok h
    → (h.algorithm ≡ algorithm)
      × (h.hex ≡ hex)
      × (is_empty (trim_left hex hex_chars) ≡ true)
      × (str_eq algorithm sha256_name ≡ true)
      × (length hex ≡ 64)
unfolding parse_parts hasher_size
parse_two s algorithm hex h e = ground arith

join-two : (a b : Str) (sep : ℕ) → join (a ∷ b ∷ []) sep ≡ a ++ sep ∷ b
unfolding join
join-two a b sep = refl

IsHash-of_parts :
    (s : Str) (ps : List Str) (h : Hash)
    → split s b':' ≡ ps
    → parse_parts s ps ≡ ok h
    → (s ≡ hash_string h) × IsHash h
unfolding parse_parts hash_string
IsHash-of_parts s [] h e p = cc
IsHash-of_parts s (a ∷ []) h e p = cc
IsHash-of_parts s (algorithm ∷ hex ∷ []) h e p =
    let parts = parse_two s algorithm hex h p in
    (
      sym (join-split s b':')
          ∙ ap (λ ps. join ps b':') e
          ∙ join-two algorithm hex b':'
          ∙ ap₂ (λ a x. a ++ b':' ∷ x) (sym parts.0) (sym parts.1),
      record {
        algorithm = parts.0 ∙ (str_eq_iff algorithm sha256_name).0 parts.3;
        over = rw parts.1 (trim_left-empty hex hex_chars parts.2);
        size = rw parts.1 parts.4;
      },
    )
IsHash-of_parts s (a ∷ b ∷ c ∷ ps) h e p = cc

pub parse-eq-ok : (s : Str) (h : Hash) → parse s ≡ ok h → (s ≡ hash_string h) × IsHash h
unfolding parse
parse-eq-ok s h e = IsHash-of_parts s (split s b':') h refl e

colon_no_hex : contains hex_chars b':' ≡ false
unfolding contains
colon_no_hex = refl

parse_parts-two :
    (s algorithm hex : Str)
    → algorithm ≡ sha256_name
    → trim_left hex hex_chars ≡ []
    → length hex ≡ 64
    → parse_parts s (algorithm ∷ hex ∷ []) ≡ ok (record { algorithm = algorithm; hex = hex })
unfolding parse_parts hasher_size
parse_parts-two s algorithm hex a t n = rw (t, a, n, str_eq_refl)

split_sha256 : split sha256_name b':' ≡ sha256_name ∷ []
unfolding split
split_sha256 = refl

pub parse-hash_string : (h : Hash) → IsHash h → parse (hash_string h) ≡ ok h
unfolding parse hash_string
parse-hash_string h v =
    rw
      (
        split-append h.algorithm h.hex b':' (IsOver-lacks hex_chars h.hex b':' colon_no_hex v.over),
        v.algorithm,
        split_sha256,
      )
      (parse_parts-two _ sha256_name h.hex refl (trim_left-IsOver h.hex hex_chars v.over) v.size)

new_hash_lem : (s : Str) → new_hash s ≡ parse s
unfolding new_hash
new_hash_lem s = ok_bind (parse s)
  where
    ok_bind : (r : Result HashError Hash) → (do h ← r; ok h) ≡ r
    ok_bind (ok h) = refl
    ok_bind (err e) = refl

-- `NewHash` returns a hash exactly for its text, where the hash is sha256 with 64 lower-case hex
-- digits; so what it returns is printed as the input.
pub new_hash_iff : (s : Str) (h : Hash) → (new_hash s ≡ ok h) ↔ ((s ≡ hash_string h) × IsHash h)
new_hash_iff s h = (
  λ e. parse-eq-ok s h (sym (new_hash_lem s) ∙ e),
  λ v. new_hash_lem s ∙ ap parse v.0 ∙ parse-hash_string h v.1,
)

module _ (p : ℕ → Bool) where
  -- the test at every number under a bound
  tested : ℕ → Bool
  tested zero = true
  tested (suc n) = tested n && p n

  tested-at : (n : ℕ) → tested n ≡ true → (x : ℕ) → x < n → p x ≡ true
  unfolding tested
  tested-at zero h x lt = absurd (omega arith)
  tested-at (suc n) h x lt = ground (arith, λ (k : tested n ≡ true). tested-at n k x)

hex_table : tested (λ n. contains hex_chars (hex_digit n)) 16 ≡ true
unfolding tested contains hex_encode
hex_table = refl

hex_digit-hex : (n : ℕ) → n < 16 → contains hex_chars (hex_digit n) ≡ true
hex_digit-hex n h = tested-at (λ n. contains hex_chars (hex_digit n)) 16 hex_table n h

hex_encode-IsOver : (bs : List ℕ) → IsOver hex_chars (hex_encode bs)
unfolding hex_encode
hex_encode-IsOver [] = tt
hex_encode-IsOver (b ∷ bs) = (
  hex_digit-hex (b / 16 % 16) (omega arith),
  (hex_digit-hex (b % 16) (omega arith), hex_encode-IsOver bs),
)

pub length-hex_encode : (bs : List ℕ) → length (hex_encode bs) ≡ 2 * length bs
unfolding hex_encode
length-hex_encode [] = refl
length-hex_encode (b ∷ bs) = omega (arith, length-hex_encode bs)

sha256-eq-ok :
    {E : Type 0} (sum : List ℕ → List ℕ) (content : List ℕ) (h : Hash) (n : ℕ)
    → sha256 {E = E} sum (ok content) ≡ ok (h, n)
    → (h ≡ record { algorithm = sha256_name; hex = hex_encode (sum content) })
      × (n ≡ length content)
unfolding sha256
sha256-eq-ok sum content h n e = (cc, cc)

IsHash-sum :
    (sum : List ℕ → List ℕ) (content : List ℕ)
    → ((c : List ℕ) → length (sum c) ≡ 32)
    → IsHash (record { algorithm = sha256_name; hex = hex_encode (sum content) })
IsHash-sum sum content size = record {
  algorithm = refl;
  over = hex_encode-IsOver (sum content);
  size = omega (arith, length-hex_encode (sum content), size content);
}

-- For a sum of 32 bytes, the hash that `SHA256` returns is accepted by `NewHash` in its text form,
-- and comes with the length of the content.
pub sha256-new_hash :
    {E : Type 0} (sum : List ℕ → List ℕ) (content : List ℕ) (reader : Result E (List ℕ)) (h : Hash)
    (n : ℕ)
    → ((c : List ℕ) → length (sum c) ≡ 32)
    → reader ≡ ok content
    → sha256 sum reader ≡ ok (h, n)
    → (new_hash (hash_string h) ≡ ok h) × (n ≡ length content)
sha256-new_hash sum content reader h n size r e =
    let (hash_eq, n_eq) = sha256-eq-ok sum content h n (rw r at e) in
    ((new_hash_iff (hash_string h) h).1 (refl, rw hash_eq (IsHash-sum sum content size)), n_eq)
