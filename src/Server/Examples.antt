-- ===== src/Server/Examples.antt =====
-- The registry's theorems at concrete requests, with a toy sum in the place of SHA-256 and a parser
-- that finds no index.
use go_containerregistry.Prelude.{
  ℕ, ◌≡◌, refl, List, [], ◌∷◌, Option, none, some, ap, true, Str, codes, split, str_eq, arith,
}
use go_containerregistry.Hash.{Hash, hex_encode}
use go_containerregistry.Server.Http.{Request, RegError, fixed, fail}
use go_containerregistry.Server.Blobs.{
  no_blobs, get_blob, path_elems, trim_slash, scan_range, content_digest, is_blob, take_branch,
  branch, put_upload, handle_blobs, created,
}
use go_containerregistry.Server.Blobs.Fetched.{served, get_blob-upload_in_chunks}
use go_containerregistry.Server.Blobs.Upload.{blobs_after, upload_in_chunks, IsChunk, IsFinish}
use go_containerregistry.Server.Manifests.{no_manifests, check_index, get_manifest, put_manifest}
use go_containerregistry.Server.Manifests.Retrieval.{
  answer, stored, get-put_manifest, put_manifest-created,
}
use go_containerregistry.Server.Routes.{new, v2, serve}
use go_containerregistry.Server.Routes.Invariants.{IsSound, SameView, serve-IsSound, v2-error}

abbrev toy_sum : List ℕ → List ℕ
toy_sum [] = 0xe3 ∷ []
toy_sum (b ∷ bs) = b ∷ toy_sum bs

abbrev no_index : List ℕ → Option (List Hash)
no_index body = none

abbrev first_chunk : Request
first_chunk = record {
  method = codes "PATCH";
  path = codes "/v2/foo/blobs/uploads/7";
  digest = [];
  content_range = codes "0-2";
  content_type = [];
  body = 1 ∷ 2 ∷ 3 ∷ [];
  fresh = 7;
}

abbrev second_chunk : Request
second_chunk = record first_chunk { content_range = codes "3-4"; body = 4 ∷ 5 ∷ [] }

abbrev all_digest : Str
all_digest = content_digest toy_sum (1 ∷ 2 ∷ 3 ∷ 4 ∷ 5 ∷ 6 ∷ [])

abbrev finish : Request
finish = record first_chunk {
  method = codes "PUT";
  content_range = [];
  digest = all_digest;
  body = 6 ∷ [];
}

first_chunk-IsChunk : IsChunk (codes "7") 0 first_chunk
unfolding path_elems trim_slash scan_range split str_eq
first_chunk-IsChunk = record {
  method = refl;
  long = omega arith;
  service = refl;
  target = refl;
  range = refl;
}

second_chunk-IsChunk : IsChunk (codes "7") 3 second_chunk
unfolding path_elems trim_slash scan_range split str_eq
second_chunk-IsChunk = record {
  method = refl;
  long = omega arith;
  service = refl;
  target = refl;
  range = refl;
}

finish-IsFinish : IsFinish (codes "7") all_digest finish
unfolding path_elems trim_slash split str_eq
finish-IsFinish = record {
  method = refl;
  long = omega arith;
  service = refl;
  target = refl;
  digest = refl;
}

upload_in_chunks_example :
    ((handle_blobs toy_sum
        (blobs_after toy_sum no_blobs (first_chunk ∷ second_chunk ∷ []))
        finish).0
      ≡ created all_digest)
    × ((blobs_after toy_sum no_blobs (first_chunk ∷ second_chunk ∷ finish ∷ [])).contents all_digest
        ≡ some (1 ∷ 2 ∷ 3 ∷ 4 ∷ 5 ∷ 6 ∷ []))
    × ((blobs_after toy_sum no_blobs (first_chunk ∷ second_chunk ∷ finish ∷ [])).uploads (codes "7")
        ≡ none)
upload_in_chunks_example =
    upload_in_chunks toy_sum no_blobs (codes "7") all_digest (first_chunk ∷ second_chunk ∷ [])
      finish refl (first_chunk-IsChunk, (second_chunk-IsChunk, tt)) finish-IsFinish refl

get_blob-upload_in_chunks_example :
    get_blob true
      (blobs_after toy_sum no_blobs (first_chunk ∷ second_chunk ∷ finish ∷ []))
      all_digest
    ≡ served all_digest (1 ∷ 2 ∷ 3 ∷ 4 ∷ 5 ∷ 6 ∷ [])
get_blob-upload_in_chunks_example =
    get_blob-upload_in_chunks toy_sum no_blobs (codes "7") all_digest
      (first_chunk ∷ second_chunk ∷ []) finish refl
      (first_chunk-IsChunk, (second_chunk-IsChunk, tt)) finish-IsFinish refl

serve-IsSound_example :
    IsSound toy_sum no_index (serve toy_sum no_index new (first_chunk ∷ second_chunk ∷ finish ∷ []))
serve-IsSound_example = serve-IsSound toy_sum no_index (first_chunk ∷ second_chunk ∷ finish ∷ [])

abbrev image : Request
image = record first_chunk {
  method = codes "PUT";
  path = codes "/v2/foo/manifests/latest";
  content_range = [];
  content_type = codes "application/vnd.oci.image.manifest.v1+json";
}

image-is_accepted :
    (put_manifest toy_sum no_index no_manifests image (codes "foo") (codes "latest")).0
    ≡ created (content_digest toy_sum image.body)
unfolding check_index str_eq
image-is_accepted =
    ap (λ x. x.0)
      (put_manifest-created toy_sum no_index no_manifests image (codes "foo") (codes "latest") refl)

get-put_manifest_example :
    (get_manifest toy_sum true
        (put_manifest toy_sum no_index no_manifests image (codes "foo") (codes "latest")).1
        (codes "foo")
        (codes "latest")
      ≡ answer toy_sum no_index (stored image))
    × (get_manifest toy_sum true
          (put_manifest toy_sum no_index no_manifests image (codes "foo") (codes "latest")).1
          (codes "foo")
          (content_digest toy_sum image.body)
        ≡ answer toy_sum no_index (stored image))
get-put_manifest_example =
    get-put_manifest toy_sum no_index no_manifests image (codes "foo") (codes "latest")
      (record {
        status = 201;
        headers = (codes "Docker-Content-Digest", content_digest toy_sum image.body) ∷ [];
        body = [];
      })
      image-is_accepted

-- a PUT whose digest is that of another content
abbrev wrong_finish : Request
wrong_finish = record finish { body = 9 ∷ [] }

abbrev digest_mismatch_error : RegError
digest_mismatch_error = record {
  status = 400;
  code = codes "DIGEST_INVALID";
  message = fixed (codes "digest does not match contents");
}

wrong_finish-fails : (v2 toy_sum no_index new wrong_finish).0 ≡ fail digest_mismatch_error
unfolding v2 is_blob path_elems split trim_slash str_eq handle_blobs take_branch branch
    content_digest put_upload hex_encode
wrong_finish-fails = refl

v2-error_example : SameView toy_sum no_index new (v2 toy_sum no_index new wrong_finish).1
v2-error_example =
    v2-error toy_sum no_index new wrong_finish digest_mismatch_error wrong_finish-fails
