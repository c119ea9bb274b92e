-- ===== src/Base/FilePath.antt =====
-- Go's path/filepath on Unix, the part that is lexical: `IsAbs` and `Clean`.
pub mod Laws
use mathlib.Core.List.{reverse}
use sroiaaa.Base.Tests.{◌==◌, if◌then◌else◌}
use sroiaaa.Base.Text.{Text, codes, text_eq, split, join, is_empty}
use mathlib.Core.Bool.{Bool, true, false, ◌||◌}
use mathlib.Core.List.{List, [], ◌∷◌}

abbrev pub slash : Text
slash = b'/' ∷ []

unfoldable pub is_abs : Text → Bool
is_abs [] = false
is_abs (c ∷ s) = c == b'/'

abbrev pub dot_dot : Text
dot_dot = b'.' ∷ b'.' ∷ []

abbrev pub dot : Text
dot = b'.' ∷ []

-- `..` takes the last element away; at the root it is dropped, and at the start of a relative path
-- it stays.
unfoldable pub back_up : Bool → List Text → List Text
back_up true [] = []
back_up false [] = dot_dot ∷ []
back_up rooted (top ∷ stack) = if text_eq top dot_dot then dot_dot ∷ top ∷ stack else stack

-- One element of a path; the stack has the last element at its head.
unfoldable pub push_element : Bool → List Text → Text → List Text
unfolding back_up
push_element rooted stack part =
    if is_empty part || text_eq part dot
    then stack
    else if text_eq part dot_dot
    then back_up rooted stack
    else part ∷ stack

unfoldable pub clean_from : Bool → List Text → List Text → List Text
clean_from rooted stack [] = stack
clean_from rooted stack (part ∷ parts) = clean_from rooted (push_element rooted stack part) parts

abbrev pub dot_if_empty : Text → Text
dot_if_empty [] = dot
dot_if_empty (c ∷ s) = c ∷ s

-- The elements of the cleaned path, in order.
unfoldable pub elements : Text → List Text
unfolding clean_from push_element
elements path = reverse (clean_from (is_abs path) [] (split b'/' path))

unfoldable pub clean : Text → Text
clean path =
    if is_abs path
    then b'/' ∷ join slash (elements path)
    else dot_if_empty (join slash (elements path))
