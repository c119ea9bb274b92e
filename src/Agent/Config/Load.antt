-- ===== src/Agent/Config/Load.antt =====
-- internal/agent/config.go: LoadConfigFromEnv accepts only sound configurations.
use sroiaaa.Base.{
  ℕ, ◌<◌, Bool, true, false, not, ◌&&◌, Option, none, some, List, [], ◌∷◌, ◌≡◌, ◌≢◌, refl, subst,
  arith, ◌⊎◌, inl, inr, if◌then◌else◌, Result, ok, err, ◌>>=◌, refuse_if, bind-ok, refuse_if-ok,
  ok-injective, Bool-cases, All,
}
use sroiaaa.Base.Int.{ℤ, pos, negsuc}
use sroiaaa.Base.Text.{Text, codes, text_eq, is_empty, trim_space, split, member}
use sroiaaa.Base.FilePath.{is_abs, clean}
use sroiaaa.Base.FilePath.Laws.{clean-is_abs, clean_idem}
use sroiaaa.Agent.Types.{AgentConfig}
use sroiaaa.Agent.Config.{
  Environment, ConfigError, unsupported_value, relative_root, no_root, no_token, relative_proc_root,
  no_host_info_field, get_env, env_or_default, env_int64, positive_or, load_auth_tokens, names_from,
  load_configured_names, known_operations, default_enabled_operations, host_info_names, roots_from,
  no_members, contains_name, load_config,
}
use sroiaaa.Agent.Config.Laws.{
  Distinct, Among, IsTrimmed, IsRoot, Unseen, Unseen-rest, Unseen-head, load_auth_tokens_sound,
}

-- A list of names that a variable may hold.
abbrev pub AreNames : List Text → List Text → Type 0
AreNames known names = Distinct names × All (Among known) names

names_from-AreNames :
    (known seen values names : List Text)
    → names_from known seen values ≡ ok names
    → AreNames known names × All (Unseen seen) names
unfolding names_from
names_from-AreNames known seen [] names h =
    subst (λ out. AreNames known out × All (Unseen seen) out) (ok-injective h) ((tt, tt), tt)
names_from-AreNames known seen (value ∷ values) names h =
    go (names_from-AreNames known seen values names)
      (names_from-AreNames known (trim_space value ∷ seen) values) (is_empty (trim_space value))
      (Bool-cases (member (trim_space value) known)) (Bool-cases (member (trim_space value) seen)) h
  where
    name : Text
    name = trim_space value

    Found : Type 0
    Found = AreNames known names × All (Unseen seen) names

    step : Bool → Bool → Bool → Result ConfigError (List Text)
    step empty listed repeated =
        if empty
        then names_from known seen values
        else if not listed
        then err unsupported_value
        else if repeated
        then names_from known seen values
        else names_from known (name ∷ seen) values >>= λ out. ok (name ∷ out)

    Kept : Type 0
    Kept =
        (out : List Text)
        → names_from known (name ∷ seen) values ≡ ok out
        → AreNames known out × All (Unseen (name ∷ seen)) out

    kept :
        Kept
        → member name known ≡ true
        → member name seen ≡ false
        → (names_from known (name ∷ seen) values >>= λ out. ok (name ∷ out)) ≡ ok names
        → Found
    kept below listed fresh h =
        let (out, e, same) = bind-ok (names_from known (name ∷ seen) values) _ h in
        let ((once, among), unseen) = below out e in
        subst (λ ns. AreNames known ns × All (Unseen seen) ns) (ok-injective same)
          (
            ((Unseen-head name seen out unseen, once), (listed, among)),
            (fresh, Unseen-rest name seen out unseen),
          )

    go :
        (names_from known seen values ≡ ok names → Found)
        → Kept
        → (empty : Bool) → ((member name known ≡ true) ⊎ (member name known ≡ false))
        → ((member name seen ≡ true) ⊎ (member name seen ≡ false))
        → step empty (member name known) (member name seen) ≡ ok names
        → Found
    go skip below true listed repeated h = skip h
    go skip below false (inr e) repeated h = absurd (refused (rw e at h))
      where
        refused : ◌≢◌ {A = Result ConfigError (List Text)} (err unsupported_value) (ok names)
        refused k = cc
    go skip below false (inl e) (inl f) h = skip (rw (e, f) at h)
    go skip below false (inl e) (inr f) h = kept below e f (rw (e, f) at h)

load_configured_names-AreNames :
    (env : Environment) (key : Text) (defaults known names : List Text)
    → AreNames known defaults
    → load_configured_names env key defaults known ≡ ok names
    → AreNames known names
unfolding load_configured_names
load_configured_names-AreNames env key defaults known names fine = go (env.lookup_env key)
  where
    go :
        (o : Option Text)
        → (elim o [ none ↦ ok defaults | some raw ↦ names_from known [] (split b',' raw) ])
          ≡ ok names
        → AreNames known names
    go none h = subst (AreNames known) (ok-injective h) fine
    go (some raw) h = (names_from-AreNames known [] (split b',' raw) names h).0

roots_from-IsRoot : (parts roots : List Text) → roots_from parts ≡ ok roots → All IsRoot roots
unfolding roots_from
roots_from-IsRoot [] roots h = subst (All IsRoot) (ok-injective h) tt
roots_from-IsRoot (part ∷ parts) roots h =
    go (roots_from-IsRoot parts) (is_empty (trim_space part))
      (Bool-cases (is_abs (trim_space part))) h
  where
    root : Text
    root = trim_space part

    step : Bool → Bool → Result ConfigError (List Text)
    step empty absolute =
        if empty
        then roots_from parts
        else if not absolute
        then err relative_root
        else roots_from parts >>= λ out. ok (clean root ∷ out)

    go :
        ((out : List Text) → roots_from parts ≡ ok out → All IsRoot out)
        → (empty : Bool) → ((is_abs root ≡ true) ⊎ (is_abs root ≡ false))
        → step empty (is_abs root) ≡ ok roots
        → All IsRoot roots
    go below true absolute h = below roots h
    go below false (inr e) h = absurd (refused (rw e at h))
      where
        refused : ◌≢◌ {A = Result ConfigError (List Text)} (err relative_root) (ok roots)
        refused k = cc
    go below false (inl e) h =
        let held : (roots_from parts >>= λ out. ok (clean root ∷ out)) ≡ ok roots = rw e at h in
        let (out, f, same) = bind-ok (roots_from parts) _ held in
        subst (All IsRoot) (ok-injective same)
          ((clean-is_abs root e, clean_idem root e), below out f)

env_int64_positive :
    (env : Environment) (key : Text) (fallback : ℕ) → 0 < fallback → 0 < env_int64 env key fallback
unfolding env_int64
env_int64_positive env key fallback h = elim (Bool-cases (is_empty (get_env env key))) [
  | inl e ↦ rw e h
  | inr e ↦ rw e (parsed (env.parse_int (get_env env key)))
]
  where
    parsed : (o : Option ℤ) → 0 < positive_or o fallback
    parsed none = h
    parsed (some (pos n)) = ground arith
    parsed (some (negsuc n)) = h

-- What an accepted configuration promises.
pub record IsSound (cfg : AgentConfig) : Type 0 where
  pub roots : All IsRoot cfg.allowed_roots
  pub some_root : cfg.allowed_roots ≢ []
  pub tokens : All IsTrimmed cfg.auth_tokens
  pub one_each : Distinct cfg.auth_tokens
  pub some_token : cfg.auth_tokens ≢ []
  pub operations : AreNames known_operations cfg.enabled_operations
  pub fields : AreNames host_info_names cfg.host_info_fields
  pub proc : is_abs cfg.proc_root ≡ true
  pub info :
      contains_name cfg.enabled_operations (codes "host.info") ≡ true → cfg.host_info_fields ≢ []
  pub bounds :
      (0 < cfg.max_request_bytes)
      × (0 < cfg.max_read_bytes)
      × (0 < cfg.max_tail_bytes)
      × (0 < cfg.max_list_entries)
      × (0 < cfg.max_process_entries)

default_operations-AreNames : AreNames known_operations default_enabled_operations
unfolding member text_eq
default_operations-AreNames = (
  (refl, (refl, (refl, (refl, (refl, (refl, tt)))))),
  (refl, (refl, (refl, (refl, (refl, (refl, tt)))))),
)

default_fields-AreNames : AreNames host_info_names host_info_names
unfolding member text_eq
default_fields-AreNames = (
  (refl, (refl, (refl, (refl, (refl, (refl, tt)))))),
  (refl, (refl, (refl, (refl, (refl, (refl, tt)))))),
)

not_none : (xs : List Text) → no_members xs ≡ false → xs ≢ []
not_none [] h e = cc
not_none (x ∷ xs) h e = cc

field_needed : (a : Bool) (xs : List Text) → (a && no_members xs) ≡ false → a ≡ true → xs ≢ []
field_needed a xs h e = not_none xs (ground arith)

-- Every configuration that the environment gives without an error has roots that are absolute and clean,
-- at least one; trimmed and distinct tokens, at least one; distinct known operations and host fields, at
-- least one field if host.info is enabled; an absolute proc root; and bounds above 0.
pub load_config-IsSound :
    (env : Environment) (cfg : AgentConfig) → load_config env ≡ ok cfg → IsSound cfg
unfolding load_config
load_config-IsSound env cfg h =
    let (enabled, e0, h0) =
      bind-ok
        (load_configured_names env (codes "SROIAAA_ENABLED_OPERATIONS") default_enabled_operations
          known_operations)
        _ h in
    let (fields, e1, h1) =
      bind-ok
        (load_configured_names env (codes "SROIAAA_HOST_INFO_FIELDS") host_info_names
          host_info_names)
        _ h0 in
    let tokens = load_auth_tokens env in
    let proc_root = env_or_default env (codes "SROIAAA_PROC_ROOT") (codes "/proc") in
    let (roots, e2, h2) = bind-ok (roots_from _) _ h1 in
    let (_, e3, h3) = bind-ok (refuse_if (no_members roots) no_root) _ h2 in
    let (_, e4, h4) = bind-ok (refuse_if (no_members tokens) no_token) _ h3 in
    let (_, e5, h5) = bind-ok (refuse_if (not (is_abs proc_root)) relative_proc_root) _ h4 in
    let (_, e6, h6) =
      bind-ok
        (refuse_if (contains_name enabled (codes "host.info") && no_members fields)
          no_host_info_field)
        _ h5 in
    let (once, trimmed) = load_auth_tokens_sound env in
    let absolute : is_abs proc_root ≡ true = negated (refuse_if-ok _ _ e5) in
    subst IsSound (ok-injective h6) (record {
      roots = roots_from-IsRoot _ roots e2;
      some_root = not_none roots (refuse_if-ok _ _ e3);
      tokens = trimmed;
      one_each = once;
      some_token = not_none tokens (refuse_if-ok _ _ e4);
      operations = load_configured_names-AreNames env _ _ _ enabled default_operations-AreNames e0;
      fields = load_configured_names-AreNames env _ _ _ fields default_fields-AreNames e1;
      proc = absolute;
      info = field_needed _ fields (refuse_if-ok _ _ e6);
      bounds = (
        env_int64_positive env _ 65536 (omega arith),
        env_int64_positive env _ 65536 (omega arith),
        env_int64_positive env _ 65536 (omega arith),
        env_int64_positive env _ 256 (omega arith),
        env_int64_positive env _ 256 (omega arith),
      );
    })
  where
    negated : {b : Bool} → not b ≡ false → b ≡ true
    negated k = ground arith
