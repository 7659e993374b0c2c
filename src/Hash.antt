-- ===== src/Hash.antt =====
-- pkg/v1/hash.go: content hashes, their text form and its parser. The function of the package
-- crypto/sha256 is a parameter of `sha256`; the marshalling through JSON is not modelled.
pub mod RoundTrip
mod Examples
use go_containerregistry.Prelude.{
  ℕ, ◌+◌, ◌-◌, ◌*◌, ◌/◌, ◌%◌, ◌≡◌, Bool, true, false, not, List, [], ◌∷◌, ◌++◌, Str, codes,
  contains, is_empty, split, length, str_eq, ltb, ◌==◌, if◌then◌else◌, Result, ok, err, ◌>>=◌, ◌>>◌,
}

pub record Hash : Type 0 where
  pub algorithm : Str
  pub hex : Str

pub data HashError : Type 0 where
  too_many_parts : Str → HashError
  non_hex_character : Str → HashError
  unsupported_hash : Str → HashError
  wrong_number_of_digits : Str → Str → HashError

-- Hash.String, and Hash.MarshalText
unfoldable pub hash_string : Hash → Str
hash_string h = h.algorithm ++ b':' ∷ h.hex

abbrev pub hex_chars : Str
hex_chars = codes "0123456789abcdef"

abbrev pub sha256_name : Str
sha256_name = codes "sha256"

-- strings.TrimLeft
unfoldable pub trim_left : Str → Str → Str
trim_left [] chars = []
trim_left (c ∷ s) chars = let rest = trim_left s chars in if contains chars c then rest else c ∷ s

-- Hasher, for the size in bytes of its sums
unfoldable pub hasher_size : Str → Result HashError ℕ
hasher_size name = if str_eq name sha256_name then ok 32 else err (unsupported_hash name)

unfoldable pub parse_parts : Str → List Str → Result HashError Hash
parse_parts s (algorithm ∷ hex ∷ []) =
    if not (is_empty (trim_left hex hex_chars))
    then err (non_hex_character (trim_left hex hex_chars))
    else do
      size ← hasher_size algorithm
      if not (length hex == size * 2)
          then err (wrong_number_of_digits algorithm hex)
          else ok (record { algorithm = algorithm; hex = hex })
parse_parts s _ = err (too_many_parts s)

-- Hash.parse, which sets the two fields only at its end
unfoldable pub parse : Str → Result HashError Hash
parse unquoted = parse_parts unquoted (split unquoted b':')

unfoldable pub new_hash : Str → Result HashError Hash
new_hash s = do h ← parse s; ok h

-- Hash.UnmarshalText: the hash afterwards, and the error
unfoldable pub unmarshal_text : Hash → Str → Hash × Bool
unmarshal_text h text = elim (parse text) [ ok h' ↦ (h', true) | err e ↦ (h, false) ]

hex_digit : ℕ → ℕ
hex_digit n = if ltb n 10 then n + b'0' else n + (b'a' - 10)

-- hex.EncodeToString
unfoldable pub hex_encode : List ℕ → Str
unfolding hex_digit
hex_encode [] = []
hex_encode (b ∷ bs) = hex_digit (b / 16 % 16) ∷ hex_digit (b % 16) ∷ hex_encode bs

-- SHA256: the hash of what a reader delivers, and its length, or the reader's error.
unfoldable pub sha256 : {E : Type 0} → (List ℕ → List ℕ) → Result E (List ℕ) → Result E (Hash × ℕ)
sha256 sum reader = do
  content ← reader
  ok (record { algorithm = sha256_name; hex = hex_encode (sum content) }, length content)
