-- ===== src/Connector/Zabbix/Rows/Top.antt =====
-- topHosts of internal/connector/zabbix.go: what is trimmed has no more rows than what is kept.
use mathlib.Core.List.{Permᴰ}
use mathlib.Core.List.Permᴰ
use sroiaaa.Base.{
  ℕ, zero, suc, ◌≤◌, true, false, [], ◌∷◌, ◌++◌, ◌≡◌, refl, sym, ap, subst, arith, if-cases, leb,
  length, take, drop, length-take, All, append-nil,
}
use sroiaaa.Base.Text.{Text}
use sroiaaa.Connector.Zabbix.Rows.{
  Counts, max_breakdown_hosts, busier, insert_entry, sort_entries, top_hosts,
}

-- No entry of the list has more rows than this one.
abbrev IsMost : Text × ℕ → Counts → Type 0
IsMost e counts = All (λ f. f.1 ≤ e.1) counts

abbrev IsOrdered : Counts → Type 0
IsOrdered [] = Unit
IsOrdered (e ∷ counts) = IsMost e counts × IsOrdered counts

insert_entry-Perm : (e : Text × ℕ) (counts : Counts) → Permᴰ (e ∷ counts) (insert_entry e counts)
unfolding insert_entry
insert_entry-Perm e [] = (Permᴰ.refl _)
insert_entry-Perm e (f ∷ counts) =
    if-cases (Permᴰ (e ∷ f ∷ counts)) (busier e f) (λ _. (Permᴰ.refl _))
      (λ _. Permᴰ.trans (Permᴰ.swap refl refl) (Permᴰ.cons refl (insert_entry-Perm e counts)))

sort_entries-Perm : (counts : Counts) → Permᴰ counts (sort_entries counts)
unfolding sort_entries
sort_entries-Perm [] = (Permᴰ.refl _)
sort_entries-Perm (e ∷ counts) =
    Permᴰ.trans (Permᴰ.cons refl (sort_entries-Perm counts))
      (insert_entry-Perm e (sort_entries counts))

weaken-IsMost : (e f : Text × ℕ) (counts : Counts) → f.1 ≤ e.1 → IsMost f counts → IsMost e counts
weaken-IsMost e f [] h k = tt
weaken-IsMost e f (g ∷ counts) h k = (omega (arith, h, k.0), weaken-IsMost e f counts h k.1)

insert-IsMost :
    (g e : Text × ℕ) (counts : Counts)
    → e.1 ≤ g.1
    → IsMost g counts
    → IsMost g (insert_entry e counts)
unfolding insert_entry
insert-IsMost g e [] h k = (h, tt)
insert-IsMost g e (f ∷ counts) h k =
    if-cases (IsMost g) (busier e f) (λ _. (h, k)) (λ _. (k.0, insert-IsMost g e counts h k.1))

busier-more : (e f : Text × ℕ) → busier e f ≡ true → f.1 ≤ e.1
unfolding busier
busier-more e f h = ground (arith, h)

idler-less : (e f : Text × ℕ) → busier e f ≡ false → e.1 ≤ f.1
unfolding busier
idler-less e f h = ground (arith, h)

insert-IsOrdered :
    (e : Text × ℕ) (counts : Counts) → IsOrdered counts → IsOrdered (insert_entry e counts)
unfolding insert_entry
insert-IsOrdered e [] h = (tt, tt)
insert-IsOrdered e (f ∷ counts) h =
    if-cases IsOrdered (busier e f)
      (λ b. let le = busier-more e f b in ((le, weaken-IsMost e f counts le h.0), h))
      (λ b. (insert-IsMost f e counts (idler-less e f b) h.0, insert-IsOrdered e counts h.1))

sort-IsOrdered : (counts : Counts) → IsOrdered (sort_entries counts)
unfolding sort_entries
sort-IsOrdered [] = tt
sort-IsOrdered (e ∷ counts) = insert-IsOrdered e (sort_entries counts) (sort-IsOrdered counts)

take-drop : (n : ℕ) (counts : Counts) → take n counts ++ drop n counts ≡ counts
take-drop zero counts = refl
take-drop (suc n) [] = refl
take-drop (suc n) (e ∷ counts) = ap (λ r. e ∷ r) (take-drop n counts)

drop-IsMost : (e : Text × ℕ) (n : ℕ) (counts : Counts) → IsMost e counts → IsMost e (drop n counts)
drop-IsMost e zero counts h = h
drop-IsMost e (suc n) [] h = tt
drop-IsMost e (suc n) (f ∷ counts) h = drop-IsMost e n counts h.1

split-IsMost :
    (n : ℕ) (counts : Counts)
    → IsOrdered counts
    → All (λ e. IsMost e (drop n counts)) (take n counts)
split-IsMost zero counts h = tt
split-IsMost (suc n) [] h = tt
split-IsMost (suc n) (e ∷ counts) h = (drop-IsMost e n counts h.0, split-IsMost n counts h.1)

none-IsMost : (counts : Counts) → All (λ e. IsMost e []) counts
none-IsMost [] = tt
none-IsMost (e ∷ counts) = (tt, none-IsMost counts)

-- The trimmed table, beside what it leaves out.
pub record IsTop (counts top : Counts) : Type 0 where
  pub dropped : Counts
  pub all_there : Permᴰ counts (top ++ dropped)
  pub few : length top ≤ max_breakdown_hosts
  pub busiest : All (λ e. IsMost e dropped) top

-- The table of hosts has at most 25 entries; together with those that are left out they are the entries of the
-- census, and no entry that is left out has more rows than one that is kept.
pub top_hosts-IsTop : (counts : Counts) → IsTop counts (top_hosts counts)
unfolding top_hosts
top_hosts-IsTop counts =
    if-cases (IsTop counts) (leb (length counts) max_breakdown_hosts)
      (λ h. record {
        dropped = [];
        all_there = subst (Permᴰ counts) (sym (append-nil counts)) (Permᴰ.refl _);
        few = ground (arith, h);
        busiest = none-IsMost counts;
      })
      (λ _. record {
        dropped = drop 25 (sort_entries counts);
        all_there =
            subst (Permᴰ counts) (sym (take-drop 25 (sort_entries counts)))
              (sort_entries-Perm counts);
        few = (let l = length-take 25 (sort_entries counts) in omega (arith, l));
        busiest = split-IsMost 25 (sort_entries counts) (sort-IsOrdered counts);
      })
