-- ===== src/Cache/Images.antt =====
-- pkg/v1/cache/cache.go. The state of a cache is a parameter, and so are its operations.
use go_containerregistry.Prelude.{List, [], ◌∷◌, ◌++◌, Result, ok, err}
use go_containerregistry.Hash.{Hash}
use go_containerregistry.Partial.Objects.{Fault, Layer}

-- What `Get` fails with: ErrNotFound, or another error.
pub data GetError : Type 0 where
  not_found : GetError
  failed : Fault → GetError

pub record Cache (S : Type 0) : Type 0 where
  pub put : Layer → S → Result Fault Layer × S
  pub get : Hash → S → Result GetError Layer × S

module _ {S : Type 0} (c : Cache S) where
  -- `c.Put(l)`, whose layer is put behind those in `out`
  unfoldable pub put_behind : List Layer → Result Fault Layer × S → Result Fault (List Layer) × S
  put_behind out (ok l, s) = (ok (out ++ l ∷ []), s)
  put_behind out (err e, s) = (err e, s)

  -- What follows the lookup by the diff ID; that a layer is found does not end the round.
  unfoldable pub by_diff_id : Layer → Result GetError Layer × S → Result Fault (List Layer) × S
  unfolding put_behind
  by_diff_id l (ok cl, s) = put_behind (cl ∷ []) (c.put l s)
  by_diff_id l (err not_found, s) = put_behind [] (c.put l s)
  by_diff_id l (err (failed e), s) = (err e, s)

  unfoldable pub look_up_diff_id : Layer → S → Result Fault Hash → Result Fault (List Layer) × S
  unfolding by_diff_id
  look_up_diff_id l s (ok h) = by_diff_id l (c.get h s)
  look_up_diff_id l s (err e) = (err e, s)

  unfoldable pub by_digest : Layer → Result GetError Layer × S → Result Fault (List Layer) × S
  unfolding look_up_diff_id
  by_digest l (ok cl, s) = (ok (cl ∷ []), s)
  by_digest l (err not_found, s) = look_up_diff_id l s l.diff_id
  by_digest l (err (failed e), s) = (err e, s)

  unfoldable pub look_up_digest : Layer → S → Result Fault Hash → Result Fault (List Layer) × S
  unfolding by_digest
  look_up_digest l s (ok h) = by_digest l (c.get h s)
  look_up_digest l s (err e) = (err e, s)

  -- one round of the loop: the layers that it appends
  unfoldable pub round : Layer → S → Result Fault (List Layer) × S
  unfolding look_up_digest
  round l s = look_up_digest l s l.digest

  unfoldable pub in_front :
      List Layer → Result Fault (List Layer) × S → Result Fault (List Layer) × S
  in_front out (ok rest, s) = (ok (out ++ rest), s)
  in_front out (err e, s) = (err e, s)

  unfoldable pub then_rest :
      Result Fault (List Layer) × S → Result Fault (List Layer) × S → Result Fault (List Layer) × S
  unfolding in_front
  then_rest (ok out, s) rest = in_front out rest
  then_rest (err e, s) rest = (err e, s)

  -- The loop of `Layers`; a round that fails ends it.
  unfoldable pub cached_layers : List Layer → S → Result Fault (List Layer) × S
  cached_layers [] s = (ok [], s)
  cached_layers (l ∷ ls) s = let rest = cached_layers ls (round l s).1 in then_rest (round l s) rest

  -- image.Layers, where the image returns `ls`
  unfoldable pub layers : Result Fault (List Layer) → S → Result Fault (List Layer) × S
  layers (ok ls) s = cached_layers ls s
  layers (err e) s = (err e, s)

  put_found : Result Fault Layer → S → Result Fault Layer × S
  put_found (ok l) s = c.put l s
  put_found (err e) s = (err e, s)

  from_cache : Result Fault Layer → Result GetError Layer × S → Result Fault Layer × S
  unfolding put_found
  from_cache base (ok l, s) = (ok l, s)
  from_cache base (err not_found, s) = put_found base s
  from_cache base (err (failed e), s) = (err e, s)

  -- image.LayerByDigest and image.LayerByDiffID, where the image returns `base h`
  unfoldable pub layer_by : (Hash → Result Fault Layer) → Hash → S → Result Fault Layer × S
  unfolding from_cache
  layer_by base h s = from_cache (base h) (c.get h s)
