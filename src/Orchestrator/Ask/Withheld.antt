-- ===== src/Orchestrator/Ask/Withheld.antt =====
-- internal/orchestrator/session.go: discloseWithheldEvidence leaves no partial answer unmarked.
use sroiaaa.Base.{
  Bool, true, false, ◌||◌, List, [], ◌∷◌, ◌++◌, ◌≡◌, refl, ap, ◌∙◌, arith, inl, inr, Bool-cases,
  any,
}
use sroiaaa.Base.Text.{
  Text, UnicodeTables, codes, contains, to_lower, rune_to_lower, is_empty, has_prefix,
}
use sroiaaa.Orchestrator.Messages.{withheld_note, discloses, disclose_withheld}

pub any-append :
    {A : Type 0} (p : A → Bool) (xs ys : List A) → any p (xs ++ ys) ≡ (any p xs || any p ys)
unfolding any
any-append p [] ys = refl
any-append p (x ∷ xs) ys = ground (arith, any-append p xs ys)

-- What the end of a text contains, the text contains.
contains-append : (s t u : Text) → contains t u ≡ true → contains (s ++ t) u ≡ true
unfolding contains
contains-append [] t u h = h
contains-append (c ∷ s) t u h = ground (arith, contains-append s t u h)

to_lower-append :
    (tables : UnicodeTables) (s t : Text)
    → to_lower tables (s ++ t) ≡ to_lower tables s ++ to_lower tables t
unfolding to_lower
to_lower-append tables [] t = refl
to_lower-append tables (c ∷ s) t = ap (λ r. rune_to_lower tables c ∷ r) (to_lower-append tables s t)

-- The note is in ASCII, so the tables do not matter.
note_incomplete :
    (tables : UnicodeTables) → contains (to_lower tables withheld_note) (codes "incomplete") ≡ true
unfolding contains to_lower rune_to_lower has_prefix
note_incomplete tables = refl

note-discloses :
    (tables : UnicodeTables) (answer : Text) → discloses tables (answer ++ withheld_note) ≡ true
unfolding discloses any
note-discloses tables answer =
    let said : contains (to_lower tables (answer ++ withheld_note)) (codes "incomplete") ≡ true =
      ap (λ t. contains t (codes "incomplete")) (to_lower-append tables answer withheld_note)
      ∙ contains-append (to_lower tables answer) (to_lower tables withheld_note)
          (codes "incomplete") (note_incomplete tables) in
    or_second _ _ _ said
  where
    or_second : (a b c : Bool) → b ≡ true → (a || (b || c)) ≡ true
    or_second a b c h = ground arith

-- Where evidence was withheld, the answer says so in one of four words.
pub disclose_withheld-discloses :
    (tables : UnicodeTables) (answer : Text)
    → discloses tables (disclose_withheld tables answer true) ≡ true
unfolding disclose_withheld
disclose_withheld-discloses tables answer = elim (Bool-cases (discloses tables answer)) [
  | inl e ↦ rw e e
  | inr e ↦ rw e (note-discloses tables answer)
]

-- An answer that is not empty stays so.
pub disclose_withheld-nonempty :
    (tables : UnicodeTables) (answer : Text) (withheld : Bool)
    → is_empty answer ≡ false
    → is_empty (disclose_withheld tables answer withheld) ≡ false
unfolding disclose_withheld
disclose_withheld-nonempty tables [] withheld h = cc
disclose_withheld-nonempty tables (c ∷ s) false h = refl
disclose_withheld-nonempty tables (c ∷ s) true h = elim (Bool-cases (discloses tables (c ∷ s))) [
  | inl e ↦ rw e refl
  | inr e ↦ rw e refl
]
