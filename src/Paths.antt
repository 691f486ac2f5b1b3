-- ===== src/Paths.antt =====
-- The functions `Clean` and `Base` of the Go packages `path` and `path/filepath` (on a system with
-- slashes), which the archive checks and the storage call.
pub mod Inside
use mathlib.Core.List.{reverse}
use terraform_registry.Base.{ℕ, zero, suc, Bool, true, false, List, [], ◌∷◌, if◌then◌else◌, is_nil}
use terraform_registry.Text.{Bytes, codes, text_eq, split, join, trim_right, has_prefix}

abbrev pub dot : Bytes
dot = codes "."

abbrev pub dot_dot : Bytes
dot_dot = codes ".."

-- A segment that `Clean` drops.
unfoldable pub is_skipped : Bytes → Bool
unfolding text_eq
is_skipped [] = true
is_skipped (c ∷ s) = text_eq (c ∷ s) dot

-- `..` behind what is kept (the last segment first): it takes a segment away, or is kept itself
-- where nothing is left to take and the path is not rooted.
unfoldable pub pop : Bool → List Bytes → List Bytes
pop rooted [] = if rooted then [] else dot_dot ∷ []
pop rooted (top ∷ rest) = if text_eq top dot_dot then dot_dot ∷ top ∷ rest else rest

-- The segments that `Clean` keeps, the last one first, behind those in `kept`.
unfoldable pub clean_segments : Bool → List Bytes → List Bytes → List Bytes
unfolding pop is_skipped
clean_segments rooted kept [] = kept
clean_segments rooted kept (s ∷ ss) =
    clean_segments rooted
      (if is_skipped s then kept else if text_eq s dot_dot then pop rooted kept else s ∷ kept) ss

-- `path.Clean`
unfoldable pub path_clean : Bytes → Bytes
path_clean s =
    let rooted = has_prefix s (codes "/") in
    let segments = reverse (clean_segments rooted [] (split b'/' s)) in
    if rooted
    then b'/' ∷ join b'/' segments
    else if is_nil segments
    then dot
    else join b'/' segments

-- the last part of a path that does not end in a slash
unfoldable pub last_part : List Bytes → Bytes
last_part [] = []
last_part (s ∷ []) = s
last_part (s ∷ t ∷ ss) = last_part (t ∷ ss)

-- `path.Base`
unfoldable pub path_base : Bytes → Bytes
unfolding last_part
path_base [] = dot
path_base (c ∷ s) =
    let trimmed = trim_right b'/' (c ∷ s) in
    if is_nil trimmed then codes "/" else last_part (split b'/' trimmed)
