-- ===== src/Server/Blobs/Branches.antt =====
-- One rule for what holds after every request to the store of blobs.
use go_containerregistry.Prelude.{ℕ, List, Str, length, ◌==◌, Bool-cases, inl, inr}
use go_containerregistry.Server.Http.{Request, Outcome, panic}
use go_containerregistry.Server.Blobs.{
  Blobs, post_whole, post_start, patch_chunk, patch_stream, put_upload, handle_blobs, Branch, whole,
  start, chunk, stream, finish, branch, take_branch, from_end, path_elems, trim_slash,
}

-- Four requests may change the store; all others leave it as it is.
module _ {κ} (P : Outcome × Blobs → Type κ) (sum : List ℕ → List ℕ) (b : Blobs) (req : Request)
    (same : (out : Outcome) → P (out, b)) (whole_holds : P (post_whole sum b req))
    (chunk_holds : (elems : List Str) (target : Str) → P (patch_chunk b req elems target))
    (stream_holds : (elems : List Str) (target : Str) → P (patch_stream b req elems target))
    (upload_holds : (target : Str) → P (put_upload sum b req target)) where
  start_rule : (elems : List Str) → P (post_start b req elems)
  unfolding post_start
  start_rule elems = same _

  branch_rule : (elems : List Str) (br : Branch) → P (take_branch sum b req elems br)
  unfolding take_branch
  branch_rule elems whole = whole_holds
  branch_rule elems start = start_rule elems
  branch_rule elems chunk = chunk_holds elems (from_end 0 elems)
  branch_rule elems stream = stream_holds elems (from_end 0 elems)
  branch_rule elems finish = upload_holds (from_end 0 elems)
  branch_rule elems _ = same _

  pub handle_blobs_rule : P (handle_blobs sum b req)
  unfolding handle_blobs
  handle_blobs_rule = elim (Bool-cases (length (path_elems req.path) == 0)) [
    | inl e ↦ rw e (same panic)
    | inr e ↦
        let elems = trim_slash (path_elems req.path) in rw e (branch_rule elems (branch req elems))
  ]
