-- ===== src/Base/FilePath/Laws.antt =====
-- Laws of `Clean` on absolute paths.
use mathlib.Core.List.{
  reverse, reverse-reverse, reverse_aux, reverse-cons, append_assoc, append-nil,
}
use sroiaaa.Base.Lists.{All}
use sroiaaa.Base.Tests.{◌==◌, Bool-cases}
use sroiaaa.Base.Text.{Text, text_eq, split, join, push_part}
use sroiaaa.Base.Text.Laws.{text_eq_iff}
use sroiaaa.Base.FilePath.{
  is_abs, clean, elements, clean_from, push_element, back_up, slash, dot, dot_dot,
}
use mathlib.Core.Bool.{true}
use mathlib.Core.List.{List, [], ◌∷◌, ◌++◌}
use mathlib.Core.Logic.{◌≢◌, inl, inr}
use mathlib.Core.Path.{◌≡◌, refl, sym, ap, ◌∙◌, subst}
use native.Mathlib.Omega.{arith}
use Prim.Native.Nat.{ℕ}

abbrev pub NoSlash : Text → Type 0
NoSlash = All (λ c. c ≢ b'/')

-- A name of a directory entry: not empty, neither `.` nor `..`, and with no separator.
abbrev pub IsPlain : Text → Type 0
IsPlain part = (part ≢ []) × (part ≢ dot) × (part ≢ dot_dot) × NoSlash part

push_part-NoSlash :
    (c : ℕ) (ps : List Text) → c ≢ b'/' → All NoSlash ps → All NoSlash (push_part c ps)
push_part-NoSlash c [] n h = ((n, tt), tt)
push_part-NoSlash c (p ∷ ps) n h = ((n, h.0), h.1)

split-NoSlash : (s : Text) → All NoSlash (split b'/' s)
unfolding split
split-NoSlash [] = (tt, tt)
split-NoSlash (c ∷ s) = elim (Bool-cases (c == b'/')) [
  | inl e ↦ rw e (tt, split-NoSlash s)
  | inr e ↦ rw e (push_part-NoSlash c (split b'/' s) (ground arith) (split-NoSlash s))
]

push_element-IsPlain :
    (stack : List Text) (part : Text)
    → All IsPlain stack
    → NoSlash part
    → All IsPlain (push_element true stack part)
unfolding push_element back_up
push_element-IsPlain [] part h n = ground (arith, text_eq_iff part dot, text_eq_iff part dot_dot)
push_element-IsPlain (top ∷ stack) part h n =
    ground (arith, text_eq_iff part dot, text_eq_iff part dot_dot, text_eq_iff top dot_dot)

clean_from-IsPlain :
    (stack parts : List Text)
    → All IsPlain stack
    → All NoSlash parts
    → All IsPlain (clean_from true stack parts)
unfolding clean_from
clean_from-IsPlain stack [] h n = h
clean_from-IsPlain stack (part ∷ parts) h n =
    clean_from-IsPlain (push_element true stack part) parts (push_element-IsPlain stack part h n.0)
      n.1

All-reverse_aux :
    (xs ys : List Text) → All IsPlain xs → All IsPlain ys → All IsPlain (reverse_aux xs ys)
All-reverse_aux [] ys h k = k
All-reverse_aux (x ∷ xs) ys h k = All-reverse_aux xs (x ∷ ys) h.1 (h.0, k)

-- No element of a cleaned absolute path is empty, `.` or `..`.
pub elements-IsPlain : (path : Text) → is_abs path ≡ true → All IsPlain (elements path)
unfolding elements
elements-IsPlain path a =
    rw a (All-reverse_aux _ [] (clean_from-IsPlain [] (split b'/' path) tt (split-NoSlash path)) tt)

push_element_plain :
    (stack : List Text) (part : Text) → IsPlain part → push_element true stack part ≡ part ∷ stack
unfolding push_element
push_element_plain stack part h = ground (arith, text_eq_iff part dot, text_eq_iff part dot_dot)

clean_from_plain :
    (stack parts : List Text)
    → All IsPlain parts
    → clean_from true stack parts ≡ reverse parts ++ stack
unfolding clean_from
clean_from_plain stack [] h = refl
clean_from_plain stack (part ∷ parts) h =
    ap (λ s. clean_from true s parts) (push_element_plain stack part h.0)
    ∙ clean_from_plain (part ∷ stack) parts h.1
    ∙ simp (reverse-cons, append_assoc)

split_at : (p s : Text) → NoSlash p → split b'/' (p ++ b'/' ∷ s) ≡ p ∷ split b'/' s
unfolding split
split_at [] s n = refl
split_at (c ∷ p) s n = ground (arith, split_at p s n.1)

split_none : (p : Text) → NoSlash p → split b'/' p ≡ p ∷ []
unfolding split
split_none [] n = refl
split_none (c ∷ p) n = ground (arith, split_none p n.1)

pub split-join :
    (p : Text) (ps : List Text) → All NoSlash (p ∷ ps) → split b'/' (join slash (p ∷ ps)) ≡ p ∷ ps
unfolding join
split-join p [] n = split_none p n.0
split-join p (q ∷ ps) n =
    split_at p (join slash (q ∷ ps)) n.0 ∙ ap (λ r. p ∷ r) (split-join q ps n.1)

plain-NoSlash : (ps : List Text) → All IsPlain ps → All NoSlash ps
plain-NoSlash [] h = tt
plain-NoSlash (p ∷ ps) h = (h.0.3, plain-NoSlash ps h.1)

pub clean-abs : (path : Text) → is_abs path ≡ true → clean path ≡ b'/' ∷ join slash (elements path)
unfolding clean
clean-abs path a = rw a refl

-- The parts of a cleaned absolute path are the empty part before its first separator, and its
-- elements.
pub split-clean :
    (path : Text)
    → is_abs path ≡ true
    → elements path ≢ []
    → split b'/' (clean path) ≡ [] ∷ elements path
split-clean path a n =
    ap (split b'/') (clean-abs path a) ∙ go (elements path) n (elements-IsPlain path a)
  where
    go : (es : List Text) → es ≢ [] → All IsPlain es → split b'/' (b'/' ∷ join slash es) ≡ [] ∷ es
    go [] n h = absurd (n refl)
    go (e ∷ es) n h =
        split_at [] (join slash (e ∷ es)) tt
        ∙ ap (λ r. [] ∷ r) (split-join e es (plain-NoSlash (e ∷ es) h))

rooted-elements : (es : List Text) → All IsPlain es → elements (b'/' ∷ join slash es) ≡ es
unfolding elements clean_from is_abs
rooted-elements [] h = unfold is_abs join split push_element back_up text_eq in refl
rooted-elements (e ∷ es) h =
    let parts =
      split_at [] (join slash (e ∷ es)) tt
      ∙ ap (λ r. [] ∷ r) (split-join e es (plain-NoSlash (e ∷ es) h)) in
    ap (λ ps. reverse (clean_from true [] ps)) parts
    ∙ ap reverse (clean_from_plain [] (e ∷ es) h ∙ append-nil (reverse (e ∷ es)))
    ∙ reverse-reverse (e ∷ es)

-- Cleaning an absolute path a second time changes nothing.
pub clean_idem : (path : Text) → is_abs path ≡ true → clean (clean path) ≡ clean path
clean_idem path a =
    let e = clean-abs path a in
    ap clean e
    ∙ clean-abs (b'/' ∷ join slash (elements path)) (unfold is_abs in refl)
    ∙ ap (λ es. b'/' ∷ join slash es) (rooted-elements (elements path) (elements-IsPlain path a))
    ∙ sym e

push_part-cons :
    (c : ℕ) (ps : List Text) → (q : Text) × (qs : List Text) × (push_part c ps ≡ q ∷ qs)
push_part-cons c [] = (c ∷ [], [], refl)
push_part-cons c (p ∷ ps) = (c ∷ p, ps, refl)

-- There is always a first part.
pub split-cons : (s : Text) → (q : Text) × (qs : List Text) × (split b'/' s ≡ q ∷ qs)
unfolding split
split-cons [] = ([], [], refl)
split-cons (c ∷ s) = elim (Bool-cases (c == b'/')) [
  | inl e ↦ rw e ([], split b'/' s, refl)
  | inr e ↦ rw e (push_part-cons c (split b'/' s))
]

push_part_append :
    (c : ℕ) (ps qs : List Text) {p : Text} {rest : List Text}
    → ps ≡ p ∷ rest
    → push_part c (ps ++ qs) ≡ push_part c ps ++ qs
push_part_append c [] qs e = cc
push_part_append c (p ∷ ps) qs e = refl

-- The parts of a path that goes on behind a separator.
pub split_append : (s t : Text) → split b'/' (s ++ b'/' ∷ t) ≡ split b'/' s ++ split b'/' t
unfolding split
split_append [] t = refl
split_append (c ∷ s) t = elim (Bool-cases (c == b'/')) [
  | inl e ↦ rw e (ap (λ r. [] ∷ r) (split_append s t))
  | inr e ↦
      let (p, rest, first) = split-cons s in
      rw e (
        ap (push_part c) (split_append s t)
        ∙ push_part_append c (split b'/' s) (split b'/' t) first)
]

pub All-suffix {ℓ} :
    {A : Type ℓ} (P : A → Type 0) (xs ys zs : List A) → All P zs → xs ++ ys ≡ zs → All P ys
All-suffix P [] ys zs h e = subst (All P) (sym e) h
All-suffix P (x ∷ xs) ys [] h e = absurd (cc)
All-suffix P (x ∷ xs) ys (z ∷ zs) h e = All-suffix P xs ys zs h.1 (cc)

pub clean-is_abs : (path : Text) → is_abs path ≡ true → is_abs (clean path) ≡ true
clean-is_abs path a = ap is_abs (clean-abs path a) ∙ (unfold is_abs in refl)
