-- ===== src/Remote/Examples.antt =====
-- Uploading a layer to an empty registry.
use go_containerregistry.Prelude.{
  ℕ, ◌+◌, ◌*◌, ◌≤◌, ◌↔◌, length, ◌==◌, arith, ltb, ◌≡◌, ◌≢◌, inl, refl, Bool, true, false, ◌&&◌,
  ◌||◌, not, all, All, Bool-cases, inr, ◌++◌, List, [], ◌∷◌, contains, Option, none, some, Str,
  codes, join, str_eq, ok, Result, ok, if◌then◌else◌,
}
use go_containerregistry.Hash.{Hash, hash_string, hex_encode}
use go_containerregistry.Partial.Objects.{Layer}
use go_containerregistry.Transport.Errors.{Diagnostic}
use go_containerregistry.Retry.Wait.{Floats}
use go_containerregistry.Server.Http.{RegError}
use go_containerregistry.Server.Blobs.{content_digest}
use go_containerregistry.Server.Routes.{new}
use go_containerregistry.Remote.Writer.{Url, upload_one}
use go_containerregistry.Remote.Server.{Site, send}
use go_containerregistry.Remote.Listing.{ListError, Page, list_all}
use go_containerregistry.Remote.Listing.Rounds.{IsServed, last_page, linked_page}
use go_containerregistry.Remote.Listing.Pages.{listed, list_all_iff}
use go_containerregistry.Server.Paths.{is_rooted, clean}
use go_containerregistry.Server.Paths.Plain.{
  IsPlain, IsUnreserved, is_unreserved, is_rooted-join, clean-join,
}
use go_containerregistry.Remote.Exchanged.{root_url}
use go_containerregistry.Remote.Uploaded.{upload_one-stores}

abbrev toy_sum : List ℕ → List ℕ
toy_sum bytes = 0xe3 ∷ bytes

abbrev no_index : List ℕ → Option (List Hash)
no_index body = none

abbrev counting : ℕ → ℕ
counting n = n + 1

abbrev no_text : RegError → List ℕ
no_text e = []

abbrev no_diagnostics : Str → List Diagnostic
no_diagnostics body = []

-- A reference that is a rooted path of unreserved bytes is cleaned; others are refused.
is_path_byte : ℕ → Bool
is_path_byte c = is_unreserved c || c == b'/'

as_path : Url → Str → Option Url
unfolding is_path_byte
as_path u [] = none
as_path u (c ∷ p) =
    if c == b'/' && not (is_rooted p) && all is_path_byte p
    then some (record { path = b'/' ∷ clean p; query = [] })
    else none

all-append : (f : ℕ → Bool) (s t : Str) → all f s ≡ true → all f t ≡ true → all f (s ++ t) ≡ true
all-append f [] t h k = k
all-append f (c ∷ s) t h k = elim (Bool-cases (f c)) [
  | inl e ↦ rw e (all-append f s t (rw e at h) k)
  | inr e ↦ (let q : false ≡ true = rw e at h in cc)
]

path_bytes : (s : Str) → IsUnreserved s → all is_path_byte s ≡ true
unfolding is_path_byte
path_bytes [] h = refl
path_bytes (c ∷ s) h = elim (Bool-cases (is_unreserved c)) [
  | inl e ↦ rw e (path_bytes s (rw e at h))
  | inr e ↦ (let q : false ≡ true = rw e at h in cc)
]

path_bytes-join :
    (e : Str) (es : List Str)
    → All IsUnreserved (e ∷ es)
    → all is_path_byte (join (e ∷ es) b'/') ≡ true
unfolding join is_path_byte
path_bytes-join e [] h = path_bytes e h.0
path_bytes-join e (f ∷ es) h =
    all-append is_path_byte e (b'/' ∷ join (f ∷ es) b'/') (path_bytes e h.0)
      (path_bytes-join f es h.1)

as_path-join :
    (u : Url) (e : Str) (es : List Str)
    → All IsPlain (e ∷ es)
    → All IsUnreserved (e ∷ es)
    → as_path u (b'/' ∷ join (e ∷ es) b'/') ≡ some (root_url (b'/' ∷ join (e ∷ es) b'/'))
unfolding as_path
as_path-join u e es plain unreserved =
    rw (is_rooted-join e es plain.0, path_bytes-join e es unreserved, clean-join e es plain) refl

abbrev number_floats : Floats ℕ
number_floats = record {
  is_zero = λ f. f == 0;
  is_positive = λ f. ltb 0 f;
  one = 1;
  scale = λ d f. d * f;
  spread = λ r f d. r * f * d;
}

abbrev small_hash : Hash
small_hash = record { algorithm = codes "sha256"; hex = codes "e30102" }

abbrev small_layer : Layer
small_layer = record {
  digest = ok small_hash;
  diff_id = ok small_hash;
  compressed = ok (1 ∷ 2 ∷ []);
  uncompressed = ok (1 ∷ 2 ∷ []);
  size = ok 2;
  media_type = ok (codes "application/vnd.docker.image.rootfs.diff.tar.gzip");
  own_descriptor = none;
}

abbrev empty_site : Site
empty_site = record { registry = new; drawn = 0 }

upload_one-stores_example :
    (w' : Site) × (upload_one
        (send toy_sum no_index counting no_text)
        no_diagnostics
        as_path
        number_floats
        (λ i. 0)
        3
        0
        (λ e. false)
        (λ e. none)
        (codes "localhost")
        (codes "foo/bar")
        none
        small_layer
        empty_site
      ≡ (ok tt, w'))
    × (w'.registry.blobs.contents (hash_string small_hash) ≡ some (1 ∷ 2 ∷ []))
    × ((d : Str)
        → d ≢ hash_string small_hash
        → w'.registry.blobs.contents d ≡ empty_site.registry.blobs.contents d)
unfolding join hash_string content_digest hex_encode contains str_eq
upload_one-stores_example =
    upload_one-stores toy_sum no_index counting no_text no_diagnostics as_path as_path-join
      (codes "foo") (codes "bar" ∷ [])
      (
        record { full = refl; no_slash = refl; no_dot = refl; no_dots = refl },
        (record { full = refl; no_slash = refl; no_dot = refl; no_dots = refl }, tt),
      )
      (refl, (refl, tt)) small_layer (codes "application/vnd.docker.image.rootfs.diff.tar.gzip")
      (1 ∷ 2 ∷ []) small_hash refl refl refl
      (record { full = refl; no_slash = refl; no_dot = refl; no_dots = refl }) refl number_floats
      (λ i. 0) 3 0 (λ e. false) (λ e. none) (codes "localhost") none empty_site (inl refl) refl

-- two pages, of which the second's JSON leaves the names out
abbrev page_at : ℕ → Page ℕ
page_at u = record {
  answer = record { status_code = 200; body = ok []; request = none };
  body = if u == 0 then 1 ∷ [] else [];
  link = if u == 0 then codes "</v2/x>" else [];
  request_url = some u;
}

abbrev two_pages : ℕ → Unit {0} → Result ListError (Page ℕ) × Unit {0}
two_pages u w = (ok (page_at u), tt)

abbrev names_in : List ℕ → Result ListError (Option (List Str))
names_in [] = ok none
names_in (b ∷ body) = ok (some (codes "a" ∷ codes "b" ∷ []))

abbrev a_page : Str → Option ℕ
a_page link = some 1

abbrev sum_of : ℕ → ℕ → ℕ
sum_of u v = u + v

list_all_iff_example :
    (list_all a_page sum_of two_pages no_diagnostics names_in 5 0 tt
      ≡ (some (ok (codes "a" ∷ codes "b" ∷ codes "a" ∷ codes "b" ∷ [])), tt))
    ↔ ((pages : List (Option (List Str))) × IsServed a_page sum_of two_pages no_diagnostics names_in
          0 tt pages tt
        × (length pages ≤ 5)
        × (codes "a" ∷ codes "b" ∷ codes "a" ∷ codes "b" ∷ [] ≡ listed [] pages))
list_all_iff_example =
    list_all_iff a_page sum_of two_pages no_diagnostics names_in 5 0 tt tt
      (codes "a" ∷ codes "b" ∷ codes "a" ∷ codes "b" ∷ [])

-- the pages of that list, of which the second repeats the names of the first
two_pages-IsServed :
    IsServed a_page sum_of two_pages no_diagnostics names_in 0 tt
      (some (codes "a" ∷ codes "b" ∷ []) ∷ none ∷ [])
      tt
unfolding contains
two_pages-IsServed =
    linked_page {p = page_at 0} (refl, refl, refl)
      (1, 0, (codes "/v2/x", [], refl, refl, refl), refl, refl)
      (last_page {p = page_at 1} (refl, refl, refl) (inl refl))

repeated :
    list_all a_page sum_of two_pages no_diagnostics names_in 5 0 tt
    ≡ (some (ok (codes "a" ∷ codes "b" ∷ codes "a" ∷ codes "b" ∷ [])), tt)
repeated = list_all_iff_example.1 (_, two_pages-IsServed, omega arith, refl)
