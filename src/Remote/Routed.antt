-- ===== src/Remote/Routed.antt =====
-- How pkg/registry/blobs.go routes the requests of the writer in pkg/v1/remote/write.go.
use go_containerregistry.Prelude.{
  ◌≡◌, refl, sym, ap, ◌∙◌, false, List, [], ◌∷◌, ◌++◌, append-nil, All, All-append, Str, codes,
  contains, is_empty, str_eq, split, join, last_or, drop_last,
}
use go_containerregistry.Server.Paths.{path_join, joined, without_empty, clean}
use go_containerregistry.Server.Paths.Plain.{
  IsPlain, join-append, split-join, path_join-plain, clean-join,
}
use go_containerregistry.Server.Blobs.{
  path_elems, trim_slash, from_end, middle, drop_ends, drop_first, location,
}
use go_containerregistry.Remote.Writer.{repo_path}

pub last_or-append : (d y : Str) (xs ys : List Str) → last_or d (xs ++ y ∷ ys) ≡ last_or y ys
last_or-append d y [] ys = refl
last_or-append d y (x ∷ xs) ys = last_or-append x y xs ys

pub drop_last-append :
    (y : Str) (xs ys : List Str) → drop_last (xs ++ y ∷ ys) ≡ xs ++ drop_last (y ∷ ys)
drop_last-append y [] ys = refl
drop_last-append y (x ∷ []) ys = refl
drop_last-append y (x ∷ z ∷ xs) ys = ap (λ t. x ∷ t) (drop_last-append y (z ∷ xs) ys)

pub end1_of_two : (pre : List Str) (y z : Str) → from_end 1 (pre ++ y ∷ z ∷ []) ≡ y
end1_of_two pre y z = ap (from_end 0) (drop_last-append y pre (z ∷ [])) ∙ last_or-append [] y pre []

pub end1_of_three : (pre : List Str) (x y z : Str) → from_end 1 (pre ++ x ∷ y ∷ z ∷ []) ≡ y
end1_of_three pre x y z =
    ap (from_end 0) (drop_last-append x pre (y ∷ z ∷ [])) ∙ last_or-append [] x pre (y ∷ [])

pub end2_of_three : (pre : List Str) (x y z : Str) → from_end 2 (pre ++ x ∷ y ∷ z ∷ []) ≡ x
end2_of_three pre x y z =
    ap (from_end 1) (drop_last-append x pre (y ∷ z ∷ [])) ∙ end1_of_two pre x y

pub trim_slash-end :
    (pre : List Str) (y z : Str) → trim_slash (pre ++ y ∷ z ∷ [] ∷ []) ≡ pre ++ y ∷ z ∷ []
unfolding trim_slash
trim_slash-end pre y z =
    rw (last_or-append [] y pre (z ∷ [] ∷ [])) (drop_last-append y pre (z ∷ [] ∷ []))

pub trim_slash-full :
    (pre : List Str) (y : Str) (ys : List Str)
    → is_empty (last_or y ys) ≡ false
    → trim_slash (pre ++ y ∷ ys) ≡ pre ++ y ∷ ys
unfolding trim_slash
trim_slash-full pre y ys h = rw (last_or-append [] y pre ys, h)

middle_two : (x : Str) (pre : List Str) (y z : Str) → middle 2 (x ∷ pre ++ y ∷ z ∷ []) ≡ pre
unfolding middle drop_ends drop_first
middle_two x pre y z =
    ap (λ t. drop_first (drop_last t)) (drop_last-append y (x ∷ pre) (z ∷ []))
    ∙ ap drop_first (drop_last-append y (x ∷ pre) [] ∙ append-nil (x ∷ pre))

middle_three : (x : Str) (pre : List Str) (y z t : Str) → middle 3 (x ∷ pre ++ y ∷ z ∷ t ∷ []) ≡ pre
unfolding middle drop_ends drop_first
middle_three x pre y z t =
    ap (λ u. drop_first (drop_last (drop_last u))) (drop_last-append y (x ∷ pre) (z ∷ t ∷ []))
    ∙ middle_two x pre y z

-- A repository whose path is joined from the elements `s ∷ ss`.
module _ (s : Str) (ss : List Str) (plain : All IsPlain (s ∷ ss)) where
  abbrev pub repo : Str
  repo = join (s ∷ ss) b'/'

  lacks : (es : List Str) → All IsPlain es → All (λ e. contains e b'/' ≡ false) es
  lacks [] h = tt
  lacks (e ∷ es) h = (h.0.no_slash, lacks es h.1)

  pub repo_path-join :
      (t : Str) (ts : List Str)
      → repo_path repo (join (t ∷ ts) b'/') ≡ b'/' ∷ join (codes "v2" ∷ (s ∷ ss) ++ t ∷ ts) b'/'
  unfolding repo_path join
  repo_path-join t ts =
      ap (λ x. codes "/v2/" ++ x) (sym (join-append (s ∷ ss) (t ∷ ts) (λ e. cc) (λ e. cc)))

  -- the elements of the path of a request
  pub path_elems-repo :
      (t : Str) (ts : List Str)
      → All (λ e. contains e b'/' ≡ false) (t ∷ ts)
      → path_elems (repo_path repo (join (t ∷ ts) b'/')) ≡ codes "v2" ∷ (s ∷ ss) ++ t ∷ ts
  unfolding path_elems contains
  path_elems-repo t ts h =
      ap path_elems (repo_path-join t ts)
      ∙ unfold split in
        split-join (codes "v2") ((s ∷ ss) ++ t ∷ ts) (
          refl,
          All-append (λ e. contains e b'/' ≡ false) (s ∷ ss) (t ∷ ts) (lacks (s ∷ ss) plain) h,
        )

  join-full : (e : Str) (es : List Str) → is_empty e ≡ false → is_empty (join (e ∷ es) b'/') ≡ false
  unfolding join
  join-full [] es h = cc
  join-full (c ∷ e) [] h = refl
  join-full (c ∷ e) (f ∷ es) h = refl

  abbrev pub whole_path : Str → List Str
  whole_path id = (s ∷ ss) ++ codes "blobs" ∷ codes "uploads" ∷ id ∷ []

  pub whole_path-IsPlain : (id : Str) → IsPlain id → All IsPlain (codes "v2" ∷ whole_path id)
  unfolding contains str_eq
  whole_path-IsPlain id p = (
    record { full = refl; no_slash = refl; no_dot = refl; no_dots = refl },
    All-append IsPlain (s ∷ ss) (codes "blobs" ∷ codes "uploads" ∷ id ∷ []) plain (
      record { full = refl; no_slash = refl; no_dot = refl; no_dots = refl },
      (record { full = refl; no_slash = refl; no_dot = refl; no_dots = refl }, (p, tt)),
    ),
  )

  joined_path :
      (id : Str)
      → join (codes "v2" ∷ repo ∷ codes "blobs/uploads" ∷ id ∷ []) b'/'
        ≡ join (codes "v2" ∷ whole_path id) b'/'
  unfolding join
  joined_path id =
      ap (λ x. codes "v2/" ++ x)
        (sym (join-append (s ∷ ss) (codes "blobs" ∷ codes "uploads" ∷ id ∷ []) (λ e. cc) (λ e. cc)))

  cleaned_path :
      (id : Str)
      → IsPlain id
      → path_join (codes "v2" ∷ repo ∷ codes "blobs/uploads" ∷ id ∷ [])
        ≡ join (codes "v2" ∷ repo ∷ codes "blobs/uploads" ∷ id ∷ []) b'/'
  unfolding path_join joined without_empty
  cleaned_path id p =
      rw (join-full s ss plain.0.full, p.full)
        (ap clean (joined_path id)
          ∙ clean-join (codes "v2") (whole_path id) (whole_path-IsPlain id p)
          ∙ sym (joined_path id))

  -- the Location of an upload, for a URL with a slash at its end or one of the upload
  pub location-repo :
      (id : Str) → IsPlain id → location (s ∷ ss) id ≡ repo_path repo (codes "blobs/uploads/" ++ id)
  unfolding location repo_path join
  location-repo id p =
      ap (λ r. b'/' ∷ path_join (codes "v2" ∷ r ∷ codes "blobs/uploads" ∷ id ∷ []))
        (path_join-plain s ss plain)
      ∙ ap (λ x. b'/' ∷ x) (cleaned_path id p)

  -- the elements of the three paths that the writer asks for
  abbrev front : List Str
  front = codes "v2" ∷ s ∷ ss

  abbrev pub uploads_path : Str
  uploads_path = repo_path repo (codes "blobs/uploads/")

  abbrev pub upload_path : Str → Str
  upload_path id = repo_path repo (codes "blobs/uploads/" ++ id)

  pub upload_path-join : (id : Str) → upload_path id ≡ b'/' ∷ join (codes "v2" ∷ whole_path id) b'/'
  unfolding join
  upload_path-join id = repo_path-join (codes "blobs") (codes "uploads" ∷ id ∷ [])

  abbrev pub blob_path : Str → Str
  blob_path d = repo_path repo (codes "blobs/" ++ d)

  abbrev pub elems_at : Str → List Str
  elems_at path = trim_slash (path_elems path)

  pub uploads_path-elems : elems_at uploads_path ≡ front ++ codes "blobs" ∷ codes "uploads" ∷ []
  unfolding join contains
  uploads_path-elems =
      ap trim_slash
        (path_elems-repo (codes "blobs") (codes "uploads" ∷ [] ∷ []) (refl, (refl, (refl, tt))))
      ∙ trim_slash-end front (codes "blobs") (codes "uploads")

  pub upload_path-elems :
      (id : Str)
      → IsPlain id
      → elems_at (upload_path id) ≡ front ++ codes "blobs" ∷ codes "uploads" ∷ id ∷ []
  unfolding join contains
  upload_path-elems id p =
      ap trim_slash (
        path_elems-repo (codes "blobs") (codes "uploads" ∷ id ∷ [])
          (refl, (refl, (p.no_slash, tt))))
      ∙ trim_slash-full front (codes "blobs") (codes "uploads" ∷ id ∷ []) p.full

  pub blob_path-elems :
      (d : Str) → IsPlain d → elems_at (blob_path d) ≡ front ++ codes "blobs" ∷ d ∷ []
  unfolding join contains
  blob_path-elems d p =
      ap trim_slash (path_elems-repo (codes "blobs") (d ∷ []) (refl, (p.no_slash, tt)))
      ∙ trim_slash-full front (codes "blobs") (d ∷ []) p.full

  pub location_of_uploads :
      (id : Str)
      → IsPlain id
      → location (middle 2 (front ++ codes "blobs" ∷ codes "uploads" ∷ [])) id ≡ upload_path id
  location_of_uploads id p =
      ap (λ m. location m id) (middle_two (codes "v2") (s ∷ ss) (codes "blobs") (codes "uploads"))
      ∙ location-repo id p

  pub location_of_upload :
      (id : Str)
      → IsPlain id
      → location (middle 3 (front ++ codes "blobs" ∷ codes "uploads" ∷ id ∷ [])) id ≡ upload_path id
  location_of_upload id p =
      ap (λ m. location m id)
        (middle_three (codes "v2") (s ∷ ss) (codes "blobs") (codes "uploads") id)
      ∙ location-repo id p
