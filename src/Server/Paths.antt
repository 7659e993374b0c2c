-- ===== src/Server/Paths.antt =====
-- The paths of the package `path`, as the handlers of pkg/registry join them for a Location.
pub mod Plain
use go_containerregistry.Prelude.{
  Bool, true, false, ◌||◌, List, [], ◌∷◌, ◌++◌, Str, codes, is_empty, str_eq, split, join,
  drop_last, last_or, length, ltb, ◌==◌, if◌then◌else◌, ◌&&◌, not,
}

-- one step of path.Clean on a path with no leading slash; the elements so far are in order
unfoldable pub clean_step : Bool → List Str → Str → List Str
clean_step rooted out elem =
    if is_empty elem || str_eq elem (codes ".")
    then out
    else if str_eq elem (codes "..")
    then (if ltb 0 (length out) && not (str_eq (last_or [] out) (codes ".."))
        then drop_last out
        else if rooted
        then out
        else out ++ elem ∷ [])
    else out ++ elem ∷ []

unfoldable pub clean_loop : Bool → List Str → List Str → List Str
clean_loop rooted out [] = out
clean_loop rooted out (e ∷ es) = clean_loop rooted (clean_step rooted out e) es

unfoldable pub clean_text : Bool → List Str → Str
clean_text true out = b'/' ∷ join out b'/'
clean_text false [] = codes "."
clean_text false (e ∷ es) = join (e ∷ es) b'/'

unfoldable pub is_rooted : Str → Bool
is_rooted [] = false
is_rooted (c ∷ s) = c == b'/'

-- path.Clean
unfoldable pub clean : Str → Str
unfolding clean_step clean_loop clean_text is_rooted
clean p = clean_text (is_rooted p) (clean_loop (is_rooted p) [] (split p b'/'))

unfoldable pub without_empty : List Str → List Str
without_empty [] = []
without_empty (e ∷ es) = let rest = without_empty es in if is_empty e then rest else e ∷ rest

unfoldable pub joined : List Str → Str
joined [] = []
joined (e ∷ es) = clean (join (e ∷ es) b'/')

-- path.Join
unfoldable pub path_join : List Str → Str
unfolding clean joined without_empty
path_join elems = joined (without_empty elems)
