-- ===== src/Agent/Paths/Laws.antt =====
-- internal/agent/paths.go: an accepted path lies in an allowed root.
use mathlib.Core.List.{Memᴰ}
use sroiaaa.Base.{
  Bool, true, false, not, List, [], ◌∷◌, ◌++◌, ◌≡◌, ◌≢◌, inl, inr, refl, sym, ap, subst, ◌∙◌, arith,
  Result, ok, err, bind-ok, refuse_if-ok, ok-injective, refuse_if, Bool-cases, any, All,
  append_assoc, append-nil,
}
use sroiaaa.Base.Text.{Text, is_empty, text_eq, has_prefix, split, join}
use sroiaaa.Base.Text.Laws.{text_eq_iff, has_prefix_sound}
use sroiaaa.Base.FilePath.{slash, is_abs, clean, elements}
use sroiaaa.Base.FilePath.Laws.{
  IsPlain, split-clean, split_append, split-cons, elements-IsPlain, All-suffix, clean-abs,
  clean-is_abs, clean_idem,
}
use sroiaaa.Agent.Types.{api_error, invalid_target, path_not_allowed, OsError, Host, AgentConfig}
use sroiaaa.Agent.Paths.{
  resolved_or_error, under_root, resolve_allowed_path, canonical_root, canonicalize_roots,
  new_service,
}

-- The path is the root, or its elements are the root's and then names of entries below it, none of
-- which steps back.
pub record Inside (path root : Text) : Type 0 where
  pub below : List Text
  pub parts : split b'/' path ≡ split b'/' root ++ below
  pub plain : All IsPlain below

abbrev pub IsAbs : Text → Type 0
IsAbs path = is_abs path ≡ true

-- filepath.EvalSymlinks gives an absolute path for an absolute one.
abbrev pub KeepsAbs : Host → Type 0
KeepsAbs host = (s t : Text) → IsAbs s → host.eval_symlinks s ≡ ok t → IsAbs t

any_found :
    (p : Text → Bool) (roots : List Text)
    → any p roots ≡ true
    → (root : Text) × Memᴰ root roots × (p root ≡ true)
unfolding any
any_found p [] h = absurd (cc)
any_found p (root ∷ roots) h = elim (Bool-cases (p root)) [
  | inl e ↦ (root, Memᴰ.head refl, e)
  | inr e ↦
      let (found, listed, holds) = any_found p roots (ground arith) in
      (found, Memᴰ.tail listed, holds)
]

-- The parts behind a root are plain, since the whole path is clean.
IsPlain-below :
    (path root rest : Text)
    → IsAbs path
    → IsAbs root
    → clean path ≡ root ++ b'/' ∷ rest
    → All IsPlain (split b'/' rest)
unfolding is_abs join
IsPlain-below path [] rest a r e = absurd (cc)
IsPlain-below path (c ∷ root) rest a r e =
    go (elements path) (elements-IsPlain path a) (clean-abs path a) (split-clean path a)
  where
    nonempty : (xs : Text) → [] ≢ xs ++ b'/' ∷ rest
    nonempty [] h = cc
    nonempty (x ∷ xs) h = cc

    go :
        (es : List Text)
        → All IsPlain es
        → clean path ≡ b'/' ∷ join slash es
        → (es ≢ [] → split b'/' (clean path) ≡ [] ∷ es)
        → All IsPlain (split b'/' rest)
    go [] h whole parts =
        let same : b'/' ∷ [] ≡ (c ∷ root) ++ b'/' ∷ rest = sym whole ∙ e in
        absurd (nonempty root (cc))
    go (d ∷ es) h whole parts =
        let (q, qs, first) = split-cons (c ∷ root) in
        let halves : q ∷ (qs ++ split b'/' rest) ≡ [] ∷ d ∷ es =
          ap (λ ps. ps ++ split b'/' rest) (sym first)
          ∙ sym (split_append (c ∷ root) rest)
          ∙ ap (split b'/') (sym e)
          ∙ parts (λ n. cc) in
        All-suffix IsPlain qs (split b'/' rest) (d ∷ es) h (cc)

under_root-Inside :
    (path root : Text)
    → IsAbs path
    → IsAbs root
    → under_root (clean path) root ≡ true
    → Inside (clean path) root
unfolding under_root
under_root-Inside path root a r h = elim (Bool-cases (text_eq (clean path) root)) [
  | inl e ↦ record {
    below = [];
    parts =
        ap (split b'/') ((text_eq_iff (clean path) root).0 e) ∙ sym (append-nil (split b'/' root));
    plain = tt;
  }
  | inr e ↦
      let prefixed : has_prefix (clean path) (root ++ slash) ≡ true = ground arith in
      let (rest, whole) = has_prefix_sound (clean path) (root ++ slash) prefixed in
      let joined : clean path ≡ root ++ b'/' ∷ rest = whole ∙ append_assoc root slash rest in
      record {
        below = split b'/' rest;
        parts = ap (split b'/') joined ∙ split_append root rest;
        plain = IsPlain-below path root rest a r joined;
      }
]

canonical_root-IsAbs :
    (host : Host) (root : Text) → KeepsAbs host → IsAbs root → IsAbs (canonical_root host root)
unfolding canonical_root
canonical_root-IsAbs host root k a = go (host.eval_symlinks root) refl
  where
    go :
        (r : Result OsError Text)
        → host.eval_symlinks root ≡ r
        → IsAbs (elim r [ ok resolved ↦ clean resolved | err e ↦ clean root ])
    go (ok t) e = clean-is_abs t (k root t a e)
    go (err x) e = clean-is_abs root a

-- An allowed root of the service is the canonical form of a configured one.
canonical_origin :
    (host : Host) (roots : List Text) (root : Text)
    → Memᴰ root (canonicalize_roots host roots)
    → (given : Text) × Memᴰ given roots × (root ≡ canonical_root host given)
unfolding canonicalize_roots
canonical_origin host [] root m = elim m [ ]
canonical_origin host (g ∷ roots) root (Memᴰ.head e) = (g, Memᴰ.head refl, e)
canonical_origin host (g ∷ roots) root (Memᴰ.tail m) =
    let (given, listed, same) = canonical_origin host roots root m in
    (given, Memᴰ.tail listed, same)

All-found :
    (P : Text → Type 0) (roots : List Text) (root : Text) → All P roots → Memᴰ root roots → P root
All-found P [] root h m = elim m [ ]
All-found P (r ∷ roots) root h (Memᴰ.head e) = subst P (sym e) h.0
All-found P (r ∷ roots) root h (Memᴰ.tail m) = All-found P roots root h.1 m

-- Where the configured roots are absolute and symbolic links of absolute paths resolve to absolute
-- paths: a path that the service accepts is the cleaned target of the requested path's links, is
-- clean itself, and lies inside the canonical form of a configured root, on element boundaries and
-- with no element that steps back.
pub resolve_allowed_path-Inside :
    (host : Host) (cfg : AgentConfig) (path found : Text)
    → KeepsAbs host
    → All IsAbs cfg.allowed_roots
    → resolve_allowed_path host (new_service host cfg) path ≡ ok found
    → (target : Text) × (given : Text) × (host.eval_symlinks (clean path) ≡ ok target)
      × (found ≡ clean target)
      × (clean found ≡ found)
      × Memᴰ given cfg.allowed_roots
      × Inside found (canonical_root host given)
unfolding resolve_allowed_path new_service
resolve_allowed_path-Inside host cfg path found k roots h =
    let (_, e0, h1) = bind-ok (refuse_if (is_empty path) (api_error 400 invalid_target)) _ h in
    let (_, e1, h2) = bind-ok (refuse_if (not (is_abs path)) (api_error 400 invalid_target)) _ h1 in
    let absolute : IsAbs path = ground (arith, refuse_if-ok (not (is_abs path)) _ e1) in
    let (resolved, e2, h3) = bind-ok (resolved_or_error (host.eval_symlinks (clean path))) _ h2 in
    let (_, e3, h4) = bind-ok (refuse_if _ (api_error 403 path_not_allowed)) _ h3 in
    let (target, e4, same) = resolved_target (host.eval_symlinks (clean path)) resolved e2 in
    let a = k (clean path) target (clean-is_abs path absolute) e4 in
    let (root, listed, under) =
      any_found (under_root resolved) (canonicalize_roots host cfg.allowed_roots)
        (not_false (refuse_if-ok _ _ e3)) in
    let (given, known, origin) = canonical_origin host cfg.allowed_roots root listed in
    let whole : found ≡ clean target = sym (ok-injective h4) ∙ same in
    let r =
      canonical_root-IsAbs host given k (All-found IsAbs cfg.allowed_roots given roots known) in
    let inside = under_root-Inside target (canonical_root host given) a r (
      ap (under_root (clean target)) (sym origin)
      ∙ ap (λ p. under_root p root) (sym same)
      ∙ under) in
    (
      target,
      given,
      e4,
      whole,
      ap clean whole ∙ clean_idem target a ∙ sym whole,
      known,
      subst (λ p. Inside p (canonical_root host given)) (sym whole) inside,
    )
  where
    not_false : {b : Bool} → not b ≡ false → b ≡ true
    not_false h = ground arith

    resolved_target :
        (r : Result OsError Text) (found : Text)
        → resolved_or_error r ≡ ok found
        → (target : Text) × (r ≡ ok target) × (found ≡ clean target)
    resolved_target (ok t) found e = (t, refl, sym (ok-injective e))
    resolved_target (err x) found e = cc
