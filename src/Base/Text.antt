-- ===== src/Base/Text.antt =====
-- Go strings as lists of runes, with the functions of `strings` and `unicode` that the program
-- calls. `byte_len` is Go's `len`: the size of the UTF-8 encoding.
pub mod Laws
use Prim.Native.Char.{code}
use Prim.Native.Nat.{ℕ, ◌+◌}
use Prim.Native.String.{String}
use mathlib.Core.Bool.{Bool, true, false, not, ◌&&◌, ◌||◌}
use mathlib.Core.Option.{Option, none, some}
use mathlib.Core.List.{List, [], ◌∷◌, ◌++◌, map}
use sroiaaa.Base.Tests.{ltb, leb, ◌==◌, if◌then◌else◌}

abbrev pub Text : Type 0
Text = List ℕ

-- The runes of a literal.
abbrev pub codes : String → Text
codes String.[] = []
codes (String.◌∷◌ c s) = code c ∷ codes s

-- The rows of the `unicode` tables behind ASCII, which the Go release fixes.
pub record UnicodeTables : Type 0 where
  pub letter : ℕ → Bool
  pub digit : ℕ → Bool
  pub lower : ℕ → Bool
  pub to_lower : ℕ → ℕ

abbrev pub within : ℕ → ℕ → ℕ → Bool
within lo hi c = leb lo c && leb c hi

abbrev pub is_ascii_digit : ℕ → Bool
is_ascii_digit = within b'0' b'9'

abbrev pub is_ascii_lower : ℕ → Bool
is_ascii_lower = within b'a' b'z'

abbrev pub is_ascii_upper : ℕ → Bool
is_ascii_upper = within b'A' b'Z'

-- unicode.IsSpace: the whole White_Space property.
unfoldable pub is_space : ℕ → Bool
is_space c =
    within 9 13 c
    || c == 0x20
    || c == 0x85
    || c == 0xA0
    || c == 0x1680
    || within 0x2000 0x200a c
    || c == 0x2028
    || c == 0x2029
    || c == 0x202f
    || c == 0x205f
    || c == 0x3000

-- unicode.IsControl: category Cc.
unfoldable pub is_control : ℕ → Bool
is_control c = leb c 0x1f || within 0x7f 0x9f c

module _ (tables : UnicodeTables) where
  unfoldable pub is_letter : ℕ → Bool
  is_letter c = if ltb c 0x80 then is_ascii_lower c || is_ascii_upper c else tables.letter c

  unfoldable pub is_digit : ℕ → Bool
  is_digit c = if ltb c 0x80 then is_ascii_digit c else tables.digit c

  unfoldable pub is_lower : ℕ → Bool
  is_lower c = if ltb c 0x80 then is_ascii_lower c else tables.lower c

  unfoldable pub rune_to_lower : ℕ → ℕ
  rune_to_lower c =
      if ltb c 0x80 then (if is_ascii_upper c then c + 32 else c) else tables.to_lower c

  unfoldable pub to_lower : Text → Text
  unfolding rune_to_lower
  to_lower = map rune_to_lower

abbrev pub rune_len : ℕ → ℕ
rune_len c = if ltb c 0x80 then 1 else if ltb c 0x800 then 2 else if ltb c 0x10000 then 3 else 4

unfoldable pub byte_len : Text → ℕ
byte_len [] = 0
byte_len (c ∷ s) = rune_len c + byte_len s

unfoldable pub text_eq : Text → Text → Bool
text_eq [] [] = true
text_eq (c ∷ s) (d ∷ t) = c == d && text_eq s t
text_eq _ _ = false

abbrev pub is_empty : Text → Bool
is_empty [] = true
is_empty (c ∷ s) = false

-- strings.TrimLeftFunc and TrimRightFunc.
unfoldable pub trim_left : (ℕ → Bool) → Text → Text
trim_left p [] = []
trim_left p (c ∷ s) = let rest = trim_left p s in if p c then rest else c ∷ s

abbrev pub keep_right : (ℕ → Bool) → ℕ → Text → Text
keep_right p c [] = if p c then [] else c ∷ []
keep_right p c (d ∷ s) = c ∷ d ∷ s

unfoldable pub trim_right : (ℕ → Bool) → Text → Text
trim_right p [] = []
trim_right p (c ∷ s) = keep_right p c (trim_right p s)

unfoldable pub trim_space : Text → Text
unfolding trim_left trim_right is_space
trim_space s = trim_left is_space (trim_right is_space s)

unfoldable pub has_prefix : Text → Text → Bool
has_prefix s [] = true
has_prefix [] (d ∷ t) = false
has_prefix (c ∷ s) (d ∷ t) = c == d && has_prefix s t

unfoldable pub contains : Text → Text → Bool
unfolding has_prefix
contains [] t = is_empty t
contains (c ∷ s) t = has_prefix (c ∷ s) t || contains s t

-- strings.TrimPrefix.
abbrev drop_runes : Text → Text → Text
drop_runes s [] = s
drop_runes [] (d ∷ t) = []
drop_runes (c ∷ s) (d ∷ t) = drop_runes s t

unfoldable pub trim_prefix : Text → Text → Text
unfolding has_prefix
trim_prefix s t = let rest = drop_runes s t in if has_prefix s t then rest else s

-- strings.Split at a one-rune separator: always at least one part.
abbrev pub push_part : ℕ → List Text → List Text
push_part c [] = (c ∷ []) ∷ []
push_part c (p ∷ ps) = (c ∷ p) ∷ ps

unfoldable pub split : ℕ → Text → List Text
split sep [] = [] ∷ []
split sep (c ∷ s) = let rest = split sep s in if c == sep then [] ∷ rest else push_part c rest

-- The parts of a list that are not blank, trimmed.
unfoldable pub kept_parts : List Text → List Text
unfolding trim_space
kept_parts [] = []
kept_parts (part ∷ parts) =
    let rest = kept_parts parts in
    let trimmed = trim_space part in if is_empty trimmed then rest else trimmed ∷ rest

-- strings.Fields: the runs between white space; the second argument is the run so far.
abbrev pub close_field : Text → List Text → List Text
close_field [] fs = fs
close_field (c ∷ s) fs = (c ∷ s) ∷ fs

unfoldable pub fields_from : Text → Text → List Text
unfolding is_space
fields_from cur [] = close_field cur []
fields_from cur (c ∷ s) =
    let closed = close_field cur (fields_from [] s) in
    let longer = fields_from (cur ++ c ∷ []) s in if is_space c then closed else longer

unfoldable pub fields : Text → List Text
unfolding fields_from
fields = fields_from []

unfoldable pub join : Text → List Text → Text
join sep [] = []
join sep (p ∷ []) = p
join sep (p ∷ q ∷ ps) = p ++ (sep ++ join sep (q ∷ ps))

-- A map keyed by strings, as an association list.
module _ {V : Type 0} where
  unfoldable pub lookup : Text → List (Text × V) → Option V
  unfolding text_eq
  lookup k [] = none
  lookup k ((j, v) ∷ m) = if text_eq j k then some v else lookup k m

-- Membership in a `[]string` or in the key set of a `map[string]struct{}`.
unfoldable pub member : Text → List Text → Bool
unfolding text_eq
member k [] = false
member k (j ∷ m) = text_eq j k || member k m

-- `m[k] = v`.
module _ {V : Type 0} where
  unfoldable pub put : Text → V → List (Text × V) → List (Text × V)
  unfolding text_eq
  put k v [] = (k, v) ∷ []
  put k v ((j, u) ∷ m) = let rest = put k v m in if text_eq j k then (k, v) ∷ m else (j, u) ∷ rest
