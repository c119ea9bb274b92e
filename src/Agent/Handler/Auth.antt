-- ===== src/Agent/Handler/Auth.antt =====
-- internal/agent/handler.go: authenticateToken accepts the configured tokens.
use mathlib.Core.List.{Memᴰ}
use sroiaaa.Base.{
  Bool, true, false, ◌||◌, List, [], ◌∷◌, ◌≡◌, ◌↔◌, ◌⊎◌, inl, inr, refl, sym, ap, subst, arith,
  Bool-cases, if◌then◌else◌,
}
use sroiaaa.Base.Text.{Text, text_eq}
use sroiaaa.Base.Text.Laws.{text_eq_iff}
use sroiaaa.Agent.Handler.{authenticate_from, authenticate_token}

module _ (credential : Text → Text) (candidate : Text) where
  kept_match :
      (tokens : List Text) (caller : Text)
      → (authenticate_from credential candidate tokens true caller).0 ≡ true
  unfolding authenticate_from
  kept_match [] caller = refl
  kept_match (t ∷ tokens) caller = kept_match tokens _

  from_complete :
      (tokens : List Text) (matched : Bool) (caller : Text)
      → Memᴰ candidate tokens
      → (authenticate_from credential candidate tokens matched caller).0 ≡ true
  unfolding authenticate_from
  from_complete [] matched caller m = elim m [ ]
  from_complete (t ∷ tokens) matched caller (Memᴰ.head e) =
      let equal : matched || text_eq candidate t ≡ true =
        ground (arith, (text_eq_iff candidate t).1 e) in
      let caller' = if text_eq candidate t then credential t else caller in
      subst (λ b. (authenticate_from credential candidate tokens b caller').0 ≡ true) (sym equal)
        (kept_match tokens caller')
  from_complete (t ∷ tokens) matched caller (Memᴰ.tail m) = from_complete tokens _ _ m

  -- Where the flag is set, the caller is named after the candidate.
  from_sound :
      (tokens : List Text) (matched : Bool) (caller : Text)
      → (matched ≡ true → caller ≡ credential candidate)
      → (authenticate_from credential candidate tokens matched caller).0 ≡ true
      → ((matched ≡ true) ⊎ Memᴰ candidate tokens)
        × ((authenticate_from credential candidate tokens matched caller).1 ≡ credential candidate)
  unfolding authenticate_from
  from_sound [] matched caller named h = (inl h, named h)
  from_sound (t ∷ tokens) matched caller named h = elim (Bool-cases (text_eq candidate t)) [
    | inl e ↦
        let same = (text_eq_iff candidate t).0 e in
        (
          inr (Memᴰ.head same),
          (from_sound tokens (matched || text_eq candidate t)
              (if text_eq candidate t then credential t else caller)
              (λ _. rw e (ap credential (sym same))) h).1,
        )
    | inr e ↦
        let (found, name) =
          from_sound tokens (matched || text_eq candidate t)
            (if text_eq candidate t then credential t else caller)
            (λ k. rw e (named (ground arith))) h in
        (elim found [ inl k ↦ inl (ground arith) | inr m ↦ inr (Memᴰ.tail m) ], name)
  ]

  -- The token is accepted exactly if it is one of the configured ones.
  pub authenticate_token_iff :
      (tokens : List Text)
      → ((authenticate_token credential tokens candidate).0 ≡ true) ↔ Memᴰ candidate tokens
  unfolding authenticate_token
  authenticate_token_iff tokens = (
    λ h. elim (from_sound tokens false [] (λ k. cc) h).0 [ inl k ↦ absurd (cc) | inr m ↦ m ],
    λ m. from_complete tokens false [] m,
  )

  pub authenticate_token_name :
      (tokens : List Text)
      → (authenticate_token credential tokens candidate).0 ≡ true
      → (authenticate_token credential tokens candidate).1 ≡ credential candidate
  unfolding authenticate_token
  authenticate_token_name tokens h = (from_sound tokens false [] (λ k. cc) h).1
