-- ===== src/Base/Text/Laws.antt =====
-- Laws of the text functions.
use Prim.Native.Nat.{ℕ}
use mathlib.Core.Path.{◌≡◌, refl, ap, sym, subst, ◌∙◌}
use mathlib.Core.Logic.{◌↔◌, ◌≢◌, inl, inr}
use mathlib.Core.Bool.{Bool, true, false}
use mathlib.Core.Option.{some}
use mathlib.Core.List.{List, [], ◌∷◌, ◌++◌, Memᴰ}
use native.Mathlib.Omega.{arith}
use sroiaaa.Base.Tests.{Bool-cases}
use sroiaaa.Base.Lists.{All}
use sroiaaa.Base.Text.{
  has_prefix, Text, text_eq, trim_left, trim_right, keep_right, trim_space, is_space, lookup,
  member, put,
}

pub text_eq_refl : (s : Text) → text_eq s s ≡ true
unfolding text_eq
text_eq_refl [] = refl
text_eq_refl (c ∷ s) = ground (arith, text_eq_refl s)

text_eq_sound : (s t : Text) → text_eq s t ≡ true → s ≡ t
unfolding text_eq
text_eq_sound [] [] h = refl
text_eq_sound [] (d ∷ t) h = cc
text_eq_sound (c ∷ s) [] h = cc
text_eq_sound (c ∷ s) (d ∷ t) h = ground (arith, text_eq_sound s t)

pub text_eq_iff : (s t : Text) → (text_eq s t ≡ true) ↔ (s ≡ t)
text_eq_iff s t = (text_eq_sound s t, λ e. ap (text_eq s) (sym e) ∙ text_eq_refl s)

module _ (p : ℕ → Bool) where
  trim_left_idem : (s : Text) → trim_left p (trim_left p s) ≡ trim_left p s
  unfolding trim_left
  trim_left_idem [] = refl
  trim_left_idem (c ∷ s) = ground (arith, trim_left_idem s)

  trim_right_idem : (s : Text) → trim_right p (trim_right p s) ≡ trim_right p s
  unfolding trim_right
  trim_right_idem [] = refl
  trim_right_idem (c ∷ s) = go (trim_right p s) (trim_right_idem s)
    where
      go : (r : Text) → trim_right p r ≡ r → trim_right p (keep_right p c r) ≡ keep_right p c r
      go [] e = ground arith
      go (d ∷ r) e = rw e

  -- A tail of a text whose right end is trimmed is trimmed there too.
  trim_right_tail : (c : ℕ) (s : Text) → trim_right p (c ∷ s) ≡ c ∷ s → trim_right p s ≡ s
  unfolding trim_right
  trim_right_tail c s = go (trim_right p s)
    where
      go : (r : Text) → keep_right p c r ≡ c ∷ s → r ≡ s
      go [] e = ground arith
      go (d ∷ r) e = cc

  trim_right-trim_left :
      (s : Text) → trim_right p s ≡ s → trim_right p (trim_left p s) ≡ trim_left p s
  unfolding trim_left trim_right
  trim_right-trim_left [] h = refl
  trim_right-trim_left (c ∷ s) h = elim (Bool-cases (p c)) [
    | inl e ↦ rw (e, trim_left) (trim_right-trim_left s (trim_right_tail c s h))
    | inr e ↦ rw (e, trim_left) h
  ]

pub trim_space_idem : (s : Text) → trim_space (trim_space s) ≡ trim_space s
unfolding trim_space
trim_space_idem s =
    ap (trim_left is_space)
      (trim_right-trim_left is_space (trim_right is_space s) (trim_right_idem is_space s))
    ∙ trim_left_idem is_space (trim_right is_space s)

pub member_sound : (k : Text) (m : List Text) → member k m ≡ true → Memᴰ k m
unfolding member
member_sound k [] h = absurd (cc)
member_sound k (j ∷ m) h = elim (Bool-cases (text_eq j k)) [
  | inl e ↦ Memᴰ.head (sym (text_eq_sound j k e))
  | inr e ↦ Memᴰ.tail (member_sound k m (ground arith))
]

pub member_complete : (k : Text) (m : List Text) → Memᴰ k m → member k m ≡ true
unfolding member
member_complete k [] x = elim x [ ]
member_complete k (j ∷ m) (Memᴰ.head e) =
    let same : text_eq j k ≡ true = (text_eq_iff j k).1 (sym e) in ground arith
member_complete k (j ∷ m) (Memᴰ.tail t) = ground (arith, member_complete k m t)

-- A property of every key of a map holds of a key that is found.
pub lookup-All :
    {V : Type 0} (P : Text → Type 0) (k : Text) (m : List (Text × V)) {v : V}
    → All (λ kv. P kv.0) m
    → lookup k m ≡ some v
    → P k
unfolding lookup
lookup-All P k [] h e = absurd (cc)
lookup-All P k ((j, w) ∷ m) h e = elim (Bool-cases (text_eq j k)) [
  | inl same ↦ subst P ((text_eq_iff j k).0 same) h.0
  | inr other ↦ lookup-All P k m h.1 (rw (other, lookup) at e)
]

pub has_prefix_sound : (s t : Text) → has_prefix s t ≡ true → (rest : Text) × (s ≡ t ++ rest)
unfolding has_prefix
has_prefix_sound s [] h = (s, refl)
has_prefix_sound [] (d ∷ t) h = absurd (cc)
has_prefix_sound (c ∷ s) (d ∷ t) h =
    let (rest, e) = has_prefix_sound s t (ground arith) in
    let same : c ≡ d = ground arith in (rest, λ i. same i ∷ e i)

pub text_eq_differs : (j k : Text) → j ≢ k → text_eq j k ≡ false
text_eq_differs j k n = elim (Bool-cases (text_eq j k)) [
  | inl e ↦ absurd (n (text_eq_sound j k e))
  | inr e ↦ e
]

pub text_eq-apart : {j k : Text} → text_eq j k ≡ false → j ≢ k
text_eq-apart {j = j} h e =
    clash (sym (text_eq_refl j) ∙ subst (λ t. text_eq j t ≡ false) (sym e) h)
  where
    clash : true ≢ false
    clash c = cc

module _ {V : Type 0} where
  pub lookup-put : (k : Text) (v : V) (m : List (Text × V)) → lookup k (put k v m) ≡ some v
  unfolding lookup put
  lookup-put k v [] = rw (text_eq_refl k) refl
  lookup-put k v ((j, u) ∷ m) = elim (Bool-cases (text_eq j k)) [
    | inl e ↦ rw e (rw (text_eq_refl k) refl)
    | inr e ↦ rw e (rw e (lookup-put k v m))
  ]

  pub lookup-put_other :
      (j k : Text) (v : V) (m : List (Text × V)) → j ≢ k → lookup j (put k v m) ≡ lookup j m
  unfolding lookup put
  lookup-put_other j k v [] n = rw (text_eq_differs k j (λ e. n (sym e))) refl
  lookup-put_other j k v ((i, u) ∷ m) n = elim (Bool-cases (text_eq i k)) [
    | inl e ↦
        let apart = text_eq_differs k j (λ d. n (sym d)) in
        let same : text_eq i j ≡ false =
          subst (λ t. text_eq t j ≡ false) (sym (text_eq_sound i k e)) apart in
        rw e (rw apart (rw same refl))
    | inr e ↦ rw e (ground (arith, lookup-put_other j k v m n))
  ]
