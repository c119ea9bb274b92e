-- ===== src/Connector/Zabbix/Selectors/Laws.antt =====
-- What the derived queries keep of a query: its filters.
use sroiaaa.Base.{
  Bool, true, false, List, [], ◌∷◌, ◌≡◌, ◌≢◌, refl, subst, ◌∙◌, arith, any, Bool-cases, inl, inr,
}
use sroiaaa.Base.Text.{Text, codes, member, text_eq, lookup, put}
use sroiaaa.Base.Text.Laws.{text_eq_iff, text_eq_differs, lookup-put_other}
use sroiaaa.Connector.Zabbix.Selectors.{Param, Params, without}

-- The parameters that say which rows match, the bounds of their time among them.
abbrev pub narrowing_keys : List Text
narrowing_keys =
    codes "host"
    ∷ codes "search"
    ∷ codes "min_severity"
    ∷ codes "severities"
    ∷ codes "value"
    ∷ codes "source"
    ∷ codes "object"
    ∷ codes "only_true"
    ∷ codes "monitored"
    ∷ codes "skipDependent"
    ∷ codes "lastChangeSince"
    ∷ codes "lastChangeTill"
    ∷ codes "time_from"
    ∷ codes "time_till"
    ∷ []

-- The two agree on all of them.
abbrev pub Keeps : Params → Params → Type 0
Keeps base params =
    (key : Text) → member key narrowing_keys ≡ true → lookup key params ≡ lookup key base

member-all :
    (p : Text → Bool) (key : Text) (keys : List Text)
    → any p keys ≡ false
    → member key keys ≡ true
    → p key ≡ false
unfolding any member
member-all p key [] h m = cc
member-all p key (k ∷ keys) h m = elim (Bool-cases (text_eq k key)) [
  | inl e ↦ subst (λ j. p j ≡ false) ((text_eq_iff k key).0 e) (ground arith)
  | inr e ↦ member-all p key keys (ground arith) (ground (arith, e))
]

both : {b : Bool} → b ≡ true → b ≢ false
both e n = cc

pub lookup-without :
    (dropped : List Text) (key : Text) (params : Params)
    → member key dropped ≡ false
    → lookup key (without dropped params) ≡ lookup key params
unfolding lookup without
lookup-without dropped key [] h = refl
lookup-without dropped key ((k, v) ∷ params) h = elim (Bool-cases (member k dropped)) [
  | inl e ↦
      let apart = text_eq_differs k key (λ s. both (subst (λ t. member t dropped ≡ true) s e) h) in
      rw e (rw apart (lookup-without dropped key params h))
  | inr e ↦ rw e (ground (arith, lookup-without dropped key params h))
]

pub put-Keeps :
    (base params : Params) (key : Text) (v : Param)
    → member key narrowing_keys ≡ false
    → Keeps base params
    → Keeps base (put key v params)
put-Keeps base params key v fresh h j m = lookup-put_other j key v params differ ∙ h j m
  where
    differ : j ≢ key
    differ e = both (subst (λ t. member t narrowing_keys ≡ true) e m) fresh

pub without-Keeps :
    (base params : Params) (dropped : List Text)
    → any (λ key. member key dropped) narrowing_keys ≡ false
    → Keeps base params
    → Keeps base (without dropped params)
without-Keeps base params dropped fresh h j m =
    lookup-without dropped j params
      (member-all (λ key. member key dropped) j narrowing_keys fresh m)
    ∙ h j m
