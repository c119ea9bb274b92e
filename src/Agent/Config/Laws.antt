-- ===== src/Agent/Config/Laws.antt =====
-- internal/agent/config.go: what holds of every configuration that is accepted.
use sroiaaa.Base.{
  true, false, List, [], ◌∷◌, ◌≡◌, refl, arith, inl, inr, if◌then◌else◌, Bool-cases, All,
  All-append,
}
use sroiaaa.Base.Text.{Text, codes, is_empty, trim_space, split, member}
use sroiaaa.Base.Text.Laws.{text_eq_iff, trim_space_idem}
use sroiaaa.Base.FilePath.{is_abs, clean}
use sroiaaa.Agent.Config.{Environment, get_env, dedup_from, trimmed_parts, load_auth_tokens}

-- No value stands twice.
abbrev pub Distinct : List Text → Type 0
Distinct [] = Unit
Distinct (x ∷ xs) = (member x xs ≡ false) × Distinct xs

abbrev pub Among : List Text → Text → Type 0
Among known name = member name known ≡ true

-- Not empty, and without white space at its ends.
abbrev pub IsTrimmed : Text → Type 0
IsTrimmed s = (is_empty s ≡ false) × (trim_space s ≡ s)

-- Absolute, and in its shortest form.
abbrev pub IsRoot : Text → Type 0
IsRoot path = (is_abs path ≡ true) × (clean path ≡ path)

abbrev pub Unseen : List Text → Text → Type 0
Unseen seen name = member name seen ≡ false

pub Unseen-rest :
    (v : Text) (seen out : List Text) → All (Unseen (v ∷ seen)) out → All (Unseen seen) out
unfolding member
Unseen-rest v seen [] h = tt
Unseen-rest v seen (o ∷ out) h = (ground arith, Unseen-rest v seen out h.1)

pub Unseen-head :
    (v : Text) (seen out : List Text) → All (Unseen (v ∷ seen)) out → member v out ≡ false
unfolding member
Unseen-head v seen [] h = refl
Unseen-head v seen (o ∷ out) h =
    let rest = Unseen-head v seen out h.1 in ground (arith, text_eq_iff v o, text_eq_iff o v)

dedup_from-Distinct :
    (seen values : List Text)
    → Distinct (dedup_from seen values) × All (Unseen seen) (dedup_from seen values)
unfolding dedup_from
dedup_from-Distinct seen [] = (tt, tt)
dedup_from-Distinct seen (v ∷ values) =
    let (once, fresh) = dedup_from-Distinct (v ∷ seen) values in
    elim (Bool-cases (member v seen)) [
      | inl e ↦ rw e (dedup_from-Distinct seen values)
      | inr e ↦ rw e ((Unseen-head v seen _ fresh, once), (e, Unseen-rest v seen _ fresh))
    ]

dedup_from-All :
    (P : Text → Type 0) (seen values : List Text) → All P values → All P (dedup_from seen values)
unfolding dedup_from
dedup_from-All P seen [] h = tt
dedup_from-All P seen (v ∷ values) h = elim (Bool-cases (member v seen)) [
  | inl e ↦ rw e (dedup_from-All P seen values h.1)
  | inr e ↦ rw e (h.0, dedup_from-All P (v ∷ seen) values h.1)
]

trimmed_parts-IsTrimmed : (parts : List Text) → All IsTrimmed (trimmed_parts parts)
unfolding trimmed_parts
trimmed_parts-IsTrimmed [] = tt
trimmed_parts-IsTrimmed (part ∷ parts) = elim (Bool-cases (is_empty (trim_space part))) [
  | inl e ↦ rw e (trimmed_parts-IsTrimmed parts)
  | inr e ↦ rw e ((e, trim_space_idem part), trimmed_parts-IsTrimmed parts)
]

pub load_auth_tokens_sound :
    (env : Environment) → Distinct (load_auth_tokens env) × All IsTrimmed (load_auth_tokens env)
unfolding load_auth_tokens
load_auth_tokens_sound env = (
  (dedup_from-Distinct [] _).0,
  dedup_from-All IsTrimmed [] _ (All-append IsTrimmed _ _ (trimmed_parts-IsTrimmed _) many),
)
  where
    many :
        (let multi = get_env env (codes "SROIAAA_AUTH_TOKENS") in
          All IsTrimmed (if is_empty multi then [] else trimmed_parts (split b',' multi)))
    many = elim (Bool-cases (is_empty (get_env env (codes "SROIAAA_AUTH_TOKENS")))) [
      | inl e ↦ rw e tt
      | inr e ↦ rw e (trimmed_parts-IsTrimmed _)
    ]
