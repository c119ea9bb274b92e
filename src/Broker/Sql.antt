-- ===== src/Broker/Sql.antt =====
-- internal/broker/sql.go: the guard of a query that a model wrote.
pub mod Laws
use sroiaaa.Base.{
  ℕ, Bool, not, ◌&&◌, ◌||◌, if◌then◌else◌, ltb, ◌==◌, Result, ◌>>=◌, ◌>>◌, refuse_if, any,
}
use sroiaaa.Base.Text.{
  Text, codes, UnicodeTables, is_control, to_lower, byte_len, is_empty, trim_space, trim_right,
  has_prefix, contains,
}

-- Which check of a query failed.
pub data QueryFault : Type 0 where
  empty_query long_query control_rune not_a_read stacked : QueryFault

abbrev pub max_query_len : ℕ
max_query_len = 8192

abbrev pub max_query_rows : ℕ
max_query_rows = 5000

-- Line breaks and tabs are the control characters that a query may hold.
unfoldable pub is_bad_rune : ℕ → Bool
is_bad_rune r = r == 0 || (is_control r && not (r == b'\n') && not (r == b'\r') && not (r == b'\t'))

-- The cutset `"; \t\n\r"` of TrimRight.
unfoldable pub is_trailer : ℕ → Bool
is_trailer r = r == b';' || r == b' ' || r == b'\t' || r == b'\n' || r == b'\r'

abbrev pub semicolon : Text
semicolon = codes ";"

unfoldable pub validate_query : UnicodeTables → Text → Result QueryFault (Unit {0})
validate_query tables query = do
  let trimmed = trim_space query
  refuse_if (is_empty trimmed) empty_query
  refuse_if (ltb max_query_len (byte_len trimmed)) long_query
  refuse_if (any is_bad_rune trimmed) control_rune
  let lowered = to_lower tables trimmed
  refuse_if (not (has_prefix lowered (codes "select")) && not (has_prefix lowered (codes "with")))
      not_a_read
  refuse_if (contains (trim_right is_trailer trimmed) semicolon) stacked
