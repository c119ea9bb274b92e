-- ===== src/Connector/Zabbix/Calls/Adds.antt =====
-- internal/connector/zabbix.go: the severities of a census partition the rows that match.
use sroiaaa.Base.{
  ℕ, suc, ◌+◌, false, none, some, List, [], ◌∷◌, ◌≡◌, ◌≢◌, refl, ap, ◌∙◌, arith, if-cases, leb,
  length, All, Bool-cases, inl, inr,
}
use sroiaaa.Base.Int.{ℤ, pos, ◌+ℤ◌}
use sroiaaa.Base.Text.{Text, codes, lookup, put, text_eq}
use sroiaaa.Base.Text.Laws.{text_eq-apart, lookup-put_other}
use sroiaaa.Connector.Attempt.Laws.{Ensures, done-Ensures, skip-Ensures}
use sroiaaa.Connector.Evidence.{sum_counts}
use sroiaaa.Connector.Zabbix.Selectors.{Params, Method}
use sroiaaa.Connector.Zabbix.Rows.{
  Level, Counts, bump, severity_name, level_of, count_levels, first_host, count_hosts,
}
use sroiaaa.Connector.Zabbix.Calls.{
  max_census_rows, ZabbixHost, level_names, count_each, exact_census, whole, census,
}

-- The counts added to a number, from the first to the last.
unfoldable pub sum_from : ℤ → List (Text × ℤ) → ℤ
sum_from total [] = total
sum_from total ((name, n) ∷ counts) = sum_from (total +ℤ n) counts

bump-sum : (name : Text) (counts : Counts) → sum_counts (bump name counts) ≡ suc (sum_counts counts)
unfolding bump sum_counts
bump-sum name [] = omega arith
bump-sum name ((key, n) ∷ counts) = ground (arith, bump-sum name counts)

count_levels-sum :
    (rows : List Level) (counts : Counts)
    → sum_counts (count_levels rows counts) ≡ length rows + sum_counts counts
unfolding count_levels
count_levels-sum [] counts = omega arith
count_levels-sum (row ∷ rows) counts =
    let name = severity_name (level_of row) in
    omega (arith, count_levels-sum rows (bump name counts), bump-sum name counts)

pub count_hosts-sum :
    (rows : List (List Text)) (counts : Counts)
    → sum_counts (count_hosts rows counts) ≡ length rows + sum_counts counts
unfolding count_hosts
count_hosts-sum [] counts = omega arith
count_hosts-sum (hosts ∷ rows) counts =
    let name = first_host (codes "unknown") hosts in
    omega (arith, count_hosts-sum rows (bump name counts), bump-sum name counts)

whole-sum :
    (a : ℕ) (counts : Counts) → sum_from (pos a) (whole counts) ≡ pos (a + sum_counts counts)
unfolding sum_from sum_counts ◌+ℤ◌
whole-sum a [] = ap pos (omega arith)
whole-sum a ((name, n) ∷ counts) = whole-sum (a + n) counts ∙ ap pos (omega arith)

put-sum :
    (name : Text) (n total : ℤ) (counts : List (Text × ℤ))
    → lookup name counts ≡ none
    → sum_from total (put name n counts) ≡ sum_from total counts +ℤ n
unfolding sum_from put lookup
put-sum name n total [] h = refl
put-sum name n total ((key, m) ∷ counts) h = elim (Bool-cases (text_eq key name)) [
  | inl e ↦ absurd (taken (rw e at h))
  | inr e ↦ rw e (put-sum name n (total +ℤ m) counts (rw e at h))
]
  where
    taken : some m ≢ none
    taken k = cc

-- The names of the levels that are left differ from each other, and none is counted yet.
abbrev AreFresh : List (ℕ × Text) → List (Text × ℤ) → Type 0
AreFresh [] counts = Unit
AreFresh ((level, name) ∷ levels) counts =
    (lookup name counts ≡ none)
    × All (λ l. text_eq l.1 name ≡ false) levels
    × AreFresh levels counts

put-AreFresh :
    (name : Text) (n : ℤ) (levels : List (ℕ × Text)) (counts : List (Text × ℤ))
    → All (λ l. text_eq l.1 name ≡ false) levels
    → AreFresh levels counts
    → AreFresh levels (put name n counts)
put-AreFresh name n [] counts h k = tt
put-AreFresh name n ((level, other) ∷ levels) counts h k = (
  lookup-put_other other name n counts (text_eq-apart h.0) ∙ k.0,
  k.1,
  put-AreFresh name n levels counts h.1 k.2,
)

-- The counts add up to the total.
abbrev pub AddsUp : ℤ × List (Text × ℤ) → Type 0
AddsUp (total, counts) = sum_from (pos 0) counts ≡ total

module _ {W : Type 0} (host : ZabbixHost W) (method : Method) (params : Params) where
  count_each-AddsUp :
      (levels : List (ℕ × Text)) (total : ℤ) (counts : List (Text × ℤ))
      → AreFresh levels counts
      → sum_from (pos 0) counts ≡ total
      → Ensures AddsUp (count_each host method params levels total counts)
  unfolding count_each
  count_each-AddsUp [] total counts h k = done-Ensures AddsUp _ k
  count_each-AddsUp ((level, name) ∷ levels) total counts h k = skip-Ensures AddsUp _ _ (λ count.
      count_each-AddsUp levels (total +ℤ count) (put name count counts)
        (put-AreFresh name count levels counts h.1 h.2)
        (put-sum name count (pos 0) counts h.0 ∙ ap (λ t. t +ℤ count) k))

  -- Whatever Zabbix answers: when a census succeeds, whether it counted the rows that it fetched or asked for each
  -- severity, the counts of the severities add up to the total.
  pub census-AddsUp : Ensures AddsUp (census host method params)
  unfolding census exact_census lookup text_eq sum_from sum_counts
  census-AddsUp = skip-Ensures AddsUp _ _ (λ rows.
      if-cases (Ensures AddsUp) (leb max_census_rows (length rows))
        (λ _. count_each-AddsUp level_names (pos 0) [] fresh refl)
        (λ _. done-Ensures AddsUp _ (
          whole-sum 0 (count_levels rows [])
          ∙ ap pos (let c = count_levels-sum rows [] in omega (arith, c)))))
    where
      fresh : AreFresh level_names []
      fresh = (
        refl,
        (refl, (refl, (refl, (refl, (refl, tt))))),
        (
          refl,
          (refl, (refl, (refl, (refl, tt)))),
          (
            refl,
            (refl, (refl, (refl, tt))),
            (refl, (refl, (refl, tt)), (refl, (refl, tt), (refl, tt, tt))),
          ),
        ),
      )
