-- ===== src/Connector/Rt/Tickets/Owners.antt =====
-- The owners of a page: distinct, all from the page, at most twenty, and complete unless the list was cut.
use mathlib.Core.List.{map}
use sroiaaa.Base.{
  ℕ, zero, suc, ◌≤◌, Bool, true, false, ◌||◌, List, [], ◌∷◌, ◌++◌, ◌≡◌, ◌≢◌, refl, ◌∙◌, arith,
  if-cases, ltb, length, take, length-take, All, All-append,
}
use sroiaaa.Base.Text.{Text, is_empty, member, text_eq}
use sroiaaa.Base.Text.Laws.{text_eq_refl}
use sroiaaa.Connector.Evidence.{EvidenceItem}
use sroiaaa.Connector.Rt.Tickets.{max_rt_owner_census, owner_of, distinct_owners, owners_on_page}

abbrev pub IsDistinct : List Text → Type 0
IsDistinct [] = Unit
IsDistinct (o ∷ os) = (member o os ≡ false) × IsDistinct os

-- The item has no owner, or its owner is in the list.
abbrev pub IsCovered : List Text → EvidenceItem → Type 0
IsCovered owners item = is_empty (owner_of item) ≡ false → member (owner_of item) owners ≡ true

pub text_eq_sym : (s t : Text) → text_eq s t ≡ text_eq t s
unfolding text_eq
text_eq_sym [] [] = refl
text_eq_sym [] (d ∷ t) = refl
text_eq_sym (c ∷ s) [] = refl
text_eq_sym (c ∷ s) (d ∷ t) = ground (arith, text_eq_sym s t)

member-append : (o : Text) (xs ys : List Text) → member o (xs ++ ys) ≡ (member o xs || member o ys)
unfolding member
member-append o [] ys = refl
member-append o (x ∷ xs) ys = ground (arith, member-append o xs ys)

member-take :
    (o : Text) (n : ℕ) (xs : List Text) → member o xs ≡ false → member o (take n xs) ≡ false
unfolding member
member-take o zero xs h = refl
member-take o (suc n) [] h = refl
member-take o (suc n) (x ∷ xs) h = ground (arith, member-take o n xs)

take-IsDistinct : (n : ℕ) (xs : List Text) → IsDistinct xs → IsDistinct (take n xs)
take-IsDistinct zero xs h = tt
take-IsDistinct (suc n) [] h = tt
take-IsDistinct (suc n) (x ∷ xs) h = (member-take x n xs h.0, take-IsDistinct n xs h.1)

take-All : (P : Text → Type 0) (n : ℕ) (xs : List Text) → All P xs → All P (take n xs)
take-All P zero xs h = tt
take-All P (suc n) [] h = tt
take-All P (suc n) (x ∷ xs) h = (h.0, take-All P n xs h.1)

snoc-IsDistinct :
    (o : Text) (xs : List Text) → IsDistinct xs → member o xs ≡ false → IsDistinct (xs ++ o ∷ [])
unfolding member
snoc-IsDistinct o [] h k = (refl, tt)
snoc-IsDistinct o (x ∷ xs) h k =
    let apart = text_eq_sym x o in
    (member-append x xs (o ∷ []) ∙ ground (arith, apart), snoc-IsDistinct o xs h.1 (ground arith))

-- What the loop makes of the owners so far.
record Grown (seen : List Text) (items : List EvidenceItem) (owners : List Text) : Type 1 where
  kept : (o : Text) → member o seen ≡ true → member o owners ≡ true
  distinct : IsDistinct seen → IsDistinct owners
  complete : All (IsCovered owners) items
  drawn :
      (P : Text → Type 0)
      → All P seen
      → All (λ item. is_empty (owner_of item) ≡ false → P (owner_of item)) items
      → All P owners

distinct_owners-Grown :
    (seen : List Text) (items : List EvidenceItem) → Grown seen items (distinct_owners seen items)
unfolding distinct_owners member
distinct_owners-Grown seen [] = record {
  kept = λ o h. h;
  distinct = λ h. h;
  complete = tt;
  drawn = λ P h k. h;
}
distinct_owners-Grown seen (item ∷ items) =
    let later = distinct_owners-Grown seen items in
    let longer = distinct_owners-Grown (seen ++ owner_of item ∷ []) items in
    if-cases (Grown seen (item ∷ items)) (is_empty (owner_of item))
      (λ e. skip_item later (λ n. absurd (clash e n)))
      (λ n.
        if-cases (Grown seen (item ∷ items)) (member (owner_of item) seen)
          (λ known. skip_item later (λ _. later.kept (owner_of item) known))
          (λ fresh. add_item longer n fresh))
  where
    clash : {b : Bool} → b ≡ true → b ≢ false
    clash e n = cc

    skip_item :
        {owners : List Text}
        → Grown seen items owners
        → IsCovered owners item
        → Grown seen (item ∷ items) owners
    skip_item g covered = record {
      kept = g.kept;
      distinct = g.distinct;
      complete = (covered, g.complete);
      drawn = λ P h k. g.drawn P h k.1;
    }

    in_snoc : (o : Text) → member o seen ≡ true → member o (seen ++ owner_of item ∷ []) ≡ true
    in_snoc o h = member-append o seen (owner_of item ∷ []) ∙ ground arith

    last_member : member (owner_of item) (seen ++ owner_of item ∷ []) ≡ true
    last_member =
        let self = text_eq_refl (owner_of item) in
        member-append (owner_of item) seen (owner_of item ∷ []) ∙ ground arith

    add_item :
        {owners : List Text}
        → Grown (seen ++ owner_of item ∷ []) items owners
        → is_empty (owner_of item) ≡ false
        → member (owner_of item) seen ≡ false
        → Grown seen (item ∷ items) owners
    add_item g n fresh = record {
      kept = λ o h. g.kept o (in_snoc o h);
      distinct = λ h. g.distinct (snoc-IsDistinct (owner_of item) seen h fresh);
      complete = (λ _. g.kept (owner_of item) last_member, g.complete);
      drawn = λ P h k. g.drawn P (All-append P seen _ h (k.0 n, tt)) k.1;
    }

-- What the owners of a page are.
pub record OwnersOf (items : List EvidenceItem) (owners : List Text) (capped : Bool) : Type 0 where
  pub distinct : IsDistinct owners
  pub real : All (λ o. (is_empty o ≡ false) × (member o (map owner_of items) ≡ true)) owners
  pub few : length owners ≤ 20
  pub cut : capped ≡ true → length owners ≡ 20
  pub complete : capped ≡ false → All (IsCovered owners) items

on_page :
    (page : List Text) (items : List EvidenceItem)
    → ((o : Text) → member o (map owner_of items) ≡ true → member o page ≡ true)
    → All
        (λ item.
          is_empty (owner_of item) ≡ false
          → (is_empty (owner_of item) ≡ false) × (member (owner_of item) page ≡ true))
        items
unfolding member
on_page page [] h = tt
on_page page (item ∷ items) h =
    let self = text_eq_refl (owner_of item) in
    ((λ n. (n, h (owner_of item) (ground arith))), on_page page items (λ o m. h o (ground arith)))

-- The owners of a page are distinct, not empty, at most twenty, and each is the owner of one of its tickets.
-- Unless there are twenty of them and the list is marked as cut, every owner on the page is among them.
pub owners_on_page-OwnersOf :
    (items : List EvidenceItem) → OwnersOf items (owners_on_page items).0 (owners_on_page items).1
unfolding owners_on_page
owners_on_page-OwnersOf items =
    if-cases (λ (r : List Text × Bool). OwnersOf items r.0 r.1)
      (ltb max_rt_owner_census (length (distinct_owners [] items)))
      (λ e. record {
        distinct = take-IsDistinct 20 _ (g.distinct tt);
        real = take-All _ 20 _ (g.drawn _ tt (on_page _ items (λ o m. m)));
        few = (let l = length-take 20 (distinct_owners [] items) in ground arith);
        cut = λ _. (let l = length-take 20 (distinct_owners [] items) in ground (arith, e));
        complete = λ n. absurd (true_false n);
      })
      (λ e. record {
        distinct = g.distinct tt;
        real = g.drawn _ tt (on_page _ items (λ o m. m));
        few = ground (arith, e);
        cut = λ n. absurd (false_true n);
        complete = λ _. g.complete;
      })
  where
    g : Grown [] items (distinct_owners [] items)
    g = distinct_owners-Grown [] items

    true_false : true ≢ false
    true_false n = cc

    false_true : false ≢ true
    false_true n = cc
