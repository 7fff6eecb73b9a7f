-- ===== src/Base/FilePath.antt =====
-- `path/filepath` as the program uses it, with `/` for the separator: `Clean`, `Dir` and `Join`.
use mathlib.Core.Bool.{Bool, true, false}
use mathlib.Core.List.{List, [], ◌∷◌, ◌++◌}
use pipetest.Base.Tests.{if◌then◌else◌, ◌==◌}
use pipetest.Base.Text.{Text, text_eq}

-- The segments between slashes; `current` holds the bytes of the one being read.
unfoldable pub split_path : Text → Text → List Text
split_path current [] = current ∷ []
split_path current (c ∷ cs) =
    let next = current ∷ split_path [] cs in
    let more = split_path (current ++ c ∷ []) cs in if c == b'/' then next else more

abbrev dot_dot : Text
dot_dot = b'.' ∷ b'.' ∷ []

-- `..` takes back the segment before it, if there is one to take back.
unfoldable pub back : Bool → List Text → List Text
unfolding text_eq
back true [] = []
back false [] = dot_dot ∷ []
back rooted (s ∷ kept) = if text_eq s dot_dot then dot_dot ∷ s ∷ kept else kept

-- The segments that remain, the last one first.
unfoldable pub clean_segments : Bool → List Text → List Text → List Text
unfolding back text_eq
clean_segments rooted kept [] = kept
clean_segments rooted kept (s ∷ ss) =
    clean_segments rooted
      (if text_eq s []
        then kept
        else if text_eq s (b'.' ∷ [])
        then kept
        else if text_eq s dot_dot
        then back rooted kept
        else s ∷ kept)
      ss

unfoldable pub join_segments : List Text → Text → Text
join_segments [] out = out
join_segments (s ∷ []) out = s ++ out
join_segments (s ∷ ss) out = join_segments ss (b'/' ∷ (s ++ out))

abbrev or_dot : Text → Text
or_dot [] = b'.' ∷ []
or_dot (c ∷ cs) = c ∷ cs

unfoldable pub is_rooted : Text → Bool
is_rooted [] = false
is_rooted (c ∷ cs) = c == b'/'

unfoldable pub clean : Text → Text
unfolding split_path clean_segments join_segments is_rooted
clean path =
    let rooted = is_rooted path in
    let segments = clean_segments rooted [] (split_path [] path) in
    if rooted then b'/' ∷ join_segments segments [] else or_dot (join_segments segments [])

-- The path up to its last slash; `pending` holds what stands behind the last slash so far.
unfoldable pub up_to_slash : Text → Text → Text
up_to_slash pending [] = []
up_to_slash pending (c ∷ cs) =
    let whole = (pending ++ c ∷ []) ++ up_to_slash [] cs in
    let more = up_to_slash (pending ++ c ∷ []) cs in if c == b'/' then whole else more

unfoldable pub dir : Text → Text
unfolding clean up_to_slash
dir path = clean (up_to_slash [] path)

unfoldable pub join : Text → Text → Text
unfolding clean
join [] [] = []
join [] b = clean b
join a [] = clean a
join a b = clean (a ++ b'/' ∷ b)
