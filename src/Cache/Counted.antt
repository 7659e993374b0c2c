-- ===== src/Cache/Counted.antt =====
-- How many layers the cached image of pkg/v1/cache/cache.go has.
use go_containerregistry.Prelude.{
  ℕ, suc, ◌+◌, ◌≡◌, refl, sym, ap, ◌∙◌, Bool, true, false, List, [], ◌∷◌, length, length-append,
  Result, ok, err, ok_injective, err-ne-ok, if◌then◌else◌, arith,
}
use go_containerregistry.Hash.{Hash}
use go_containerregistry.Partial.Objects.{Fault, Layer}
use go_containerregistry.Cache.Images.{
  Cache, GetError, not_found, failed, put_behind, by_diff_id, look_up_diff_id, by_digest,
  look_up_digest, round, in_front, then_rest, cached_layers,
}

module _ {S : Type 0} (c : Cache S) where
  found : Result GetError Layer × S → Bool
  found (ok l, s) = true
  found (err e, s) = false

  known : Result Fault Hash → (Hash → Bool) → Bool
  known (ok h) p = p h
  known (err e) p = false

  only_after : Layer → Result GetError Layer × S → Bool
  unfolding found known
  only_after l (ok cl, s) = false
  only_after l (err e, s) = known l.diff_id (λ h. found (c.get h s))

  -- The layer is not in the cache under its digest, and is under its diff ID.
  unfoldable pub only_uncompressed : Layer → S → Bool
  unfolding only_after known
  only_uncompressed l s = known l.digest (λ h. only_after l (c.get h s))

  -- how many of the layers are only under their diff ID when their round comes
  unfoldable pub uncompressed_hits : List Layer → S → ℕ
  uncompressed_hits [] s = 0
  uncompressed_hits (l ∷ ls) s =
      (if only_uncompressed l s then 1 else 0) + uncompressed_hits ls (round c l s).1

  abbrev size_of : Bool → ℕ
  size_of b = if b then 2 else 1

  put_behind-length :
      (out : List Layer) (r : Result Fault Layer × S) (ls : List Layer)
      → (put_behind c out r).0 ≡ ok ls
      → length ls ≡ suc (length out)
  unfolding put_behind
  put_behind-length out (ok l, s) ls h =
      ap length (sym (ok_injective h)) ∙ length-append out (l ∷ []) ∙ (omega arith)
  put_behind-length out (err e, s) ls h = absurd (err-ne-ok h)

  by_diff_id-length :
      (l : Layer) (r : Result GetError Layer × S) (out : List Layer)
      → (by_diff_id c l r).0 ≡ ok out
      → length out ≡ size_of (found r)
  unfolding by_diff_id found
  by_diff_id-length l (ok cl, s) out h = put_behind-length (cl ∷ []) (c.put l s) out h
  by_diff_id-length l (err not_found, s) out h = put_behind-length [] (c.put l s) out h
  by_diff_id-length l (err (failed e), s) out h = absurd (err-ne-ok h)

  look_up_diff_id-length :
      (l : Layer) (s : S) (d : Result Fault Hash) (out : List Layer)
      → (look_up_diff_id c l s d).0 ≡ ok out
      → length out ≡ size_of (known d (λ h. found (c.get h s)))
  unfolding look_up_diff_id known
  look_up_diff_id-length l s (ok h) out e = by_diff_id-length l (c.get h s) out e
  look_up_diff_id-length l s (err x) out e = absurd (err-ne-ok e)

  by_digest-length :
      (l : Layer) (r : Result GetError Layer × S) (out : List Layer)
      → (by_digest c l r).0 ≡ ok out
      → length out ≡ size_of (only_after l r)
  unfolding by_digest only_after
  by_digest-length l (ok cl, s) out h = ap length (sym (ok_injective h))
  by_digest-length l (err not_found, s) out h = look_up_diff_id-length l s l.diff_id out h
  by_digest-length l (err (failed e), s) out h = absurd (err-ne-ok h)

  look_up_digest-length :
      (l : Layer) (s : S) (d : Result Fault Hash) (out : List Layer)
      → (look_up_digest c l s d).0 ≡ ok out
      → length out ≡ size_of (known d (λ h. only_after l (c.get h s)))
  unfolding look_up_digest known
  look_up_digest-length l s (ok h) out e = by_digest-length l (c.get h s) out e
  look_up_digest-length l s (err x) out e = absurd (err-ne-ok e)

  in_front-length :
      (out : List Layer) (r : Result Fault (List Layer) × S) (ls : List Layer)
      → (in_front c out r).0 ≡ ok ls
      → (rest : List Layer) × (r.0 ≡ ok rest) × (length ls ≡ length out + length rest)
  unfolding in_front
  in_front-length out (ok rest, s) ls h =
      (rest, refl, ap length (sym (ok_injective h)) ∙ length-append out rest)
  in_front-length out (err e, s) ls h = absurd (err-ne-ok h)

  then_rest-length :
      (r rest : Result Fault (List Layer) × S) (ls : List Layer)
      → (then_rest c r rest).0 ≡ ok ls
      → (out : List Layer) × (more : List Layer) × (r.0 ≡ ok out)
        × (rest.0 ≡ ok more)
        × (length ls ≡ length out + length more)
  unfolding then_rest
  then_rest-length (ok out, s) rest ls h =
      let (more, e, n) = in_front-length out rest ls h in (out, more, refl, e, n)
  then_rest-length (err e, s) rest ls h = absurd (err-ne-ok h)

  size_of_hit : (b : Bool) → size_of b ≡ suc (if b then 1 else 0)
  size_of_hit true = refl
  size_of_hit false = refl

  -- The layers of a cached image are as many as those of the image and, in addition, one for each
  -- layer that is in the cache under its diff ID only: such a layer is returned twice.
  pub cached_layers-length :
      (ls out : List Layer) (s : S)
      → (cached_layers c ls s).0 ≡ ok out
      → length out ≡ length ls + uncompressed_hits ls s
  unfolding cached_layers uncompressed_hits round only_uncompressed
  cached_layers-length [] out s h = ap length (sym (ok_injective h))
  cached_layers-length (l ∷ ls) out s h =
      let (one, more, e, f, n) = then_rest-length (round c l s) _ out h in
      let here = look_up_digest-length l s l.digest one e in
      let there = cached_layers-length ls more (round c l s).1 f in
      let hit = size_of_hit (known l.digest (λ h. only_after l (c.get h s))) in
      omega (arith, n, here, there, hit)
