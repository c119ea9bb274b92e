-- ===== src/Agent/Files/Laws.antt =====
-- internal/agent/service.go: which bytes a read and a tail return, and how much a listing holds.
use sroiaaa.Base.{
  ℕ, ◌+◌, ◌^◌, ◌≤◌, ◌<◌, Bool, false, not, Option, none, some, List, [], ◌∷◌, ◌≡◌, refl, sym, ap,
  ◌∙◌, arith, inl, inr, zero, suc, ltb, if◌then◌else◌, Result, ok, err, refuse_if, length, take,
  drop, bind-ok, refuse_if-ok, ok-injective, length-take, some_inj, Bool-cases,
}
use sroiaaa.Base.Int.{ℤ, pos, negsuc, is_neg, to_nat}
use sroiaaa.Base.LogFile.Laws.{take-all}
use sroiaaa.Base.Text.{Text}
use sroiaaa.Agent.Types.{
  ApiError, api_error, invalid_params, read_failed, RequestEnvelope, ReadParams, OsError, OpenFile,
  Host, AgentConfig, Payload, read,
}
use sroiaaa.Agent.Paths.{resolve_allowed_path}
use sroiaaa.Agent.Files.{
  some_or_fail, opened_or, decode_path_and_read, bounded, read_limit, read_at, encode_content,
  filesystem_read_op,
}

pub bounded-le : (z : ℤ) (most : ℕ) → bounded z most ≤ most
unfolding bounded
bounded-le (pos n) most = ground arith
bounded-le (negsuc n) most = ground arith

pub some_or_fail-ok :
    {A E : Type 0} (o : Option A) (e : E) {a : A} → some_or_fail o e ≡ ok a → o ≡ some a
some_or_fail-ok (some b) e h = ap some (ok-injective h)
some_or_fail-ok none e h = cc

pub opened_or-ok :
    {A : Type 0} (r : Result OsError A) (e : ApiError) {a : A} → opened_or r e ≡ ok a → r ≡ ok a
opened_or-ok (ok b) e h = ap ok (ok-injective h)
opened_or-ok (err x) e h = cc

pub read_at-bytes :
    (file : OpenFile) (offset limit : ℕ) {content : List ℕ}
    → read_at file offset limit ≡ some content
    → (bytes : List ℕ) × (file.bytes ≡ some bytes) × (content ≡ take limit (drop offset bytes))
unfolding read_at
read_at-bytes file offset limit {content} h = go file.bytes refl h
  where
    go :
        (o : Option (List ℕ))
        → file.bytes ≡ o
        → (elim o [ some bytes ↦ some (take limit (drop offset bytes)) | none ↦ none ])
          ≡ some content
        → (bytes : List ℕ) × (file.bytes ≡ some bytes) × (content ≡ take limit (drop offset bytes))
    go (some bytes) e k = (bytes, e, sym (some_inj k))
    go none e k = absurd (cc)

take-take : {A : Type 0} (n m : ℕ) (xs : List A) → n ≤ m → take n (take m xs) ≡ take n xs
take-take zero m xs h = refl
take-take (suc n) zero xs h = absurd (omega arith)
take-take (suc n) (suc m) [] h = refl
take-take (suc n) (suc m) (x ∷ xs) h = ap (λ r. x ∷ r) (take-take n m xs (omega arith))

-- What a read returns of what it finds: one byte more than the limit is read, to see that there is
-- more, and is cut off.
read_cut :
    (most : ℕ) (xs : List ℕ)
    → (let got = take (most + 1) xs in if ltb most (length got) then take most got else got)
      ≡ take most xs
read_cut most xs = elim (Bool-cases (ltb most (length (take (most + 1) xs)))) [
  | inl e ↦ rw e (take-take most (most + 1) xs (omega arith))
  | inr e ↦
      let short : length xs ≤ most = ground (arith, length-take (most + 1) xs) in
      rw e (take-all (most + 1) xs (omega (arith, short)) ∙ sym (take-all most xs short))
]

read_more : (most : ℕ) (xs : List ℕ) → ltb most (length (take (most + 1) xs)) ≡ ltb most (length xs)
read_more most xs = ground (arith, length-take (most + 1) xs)

read_answer :
    (host : Host) (path : Text) (offset most : ℕ) (xs content : List ℕ) {payload : Payload}
    {truncated : Bool}
    → content ≡ take (most + 1) xs
    → (let kept = if ltb most (length content) then take most content else content in
        ◌≡◌ {A = Payload × Bool}
          (read path offset (length kept) (encode_content host kept), ltb most (length content))
          (payload, truncated))
    → (payload ≡ read path offset (length (take most xs)) (encode_content host (take most xs)))
      × (truncated ≡ ltb most (length xs))
read_answer host path offset most xs content e p = (
  sym (ap (λ r. r.0) p)
      ∙ ap (λ kept. read path offset (length kept) (encode_content host kept))
          (ap (λ c. if ltb most (length c) then take most c else c) e ∙ read_cut most xs),
  sym (ap (λ r. r.1) p) ∙ ap (λ c. ltb most (length c)) e ∙ read_more most xs,
)

read_limit_lem : (most : ℕ) → most + 1 < 2 ^ 63 → read_limit most ≡ most + 1
unfolding read_limit
read_limit_lem most h = ground arith

-- What a successful read is made of.
pub record ReadResult (host : Host) (cfg : AgentConfig) (path : Text) (params : ReadParams)
    (payload : Payload) (truncated : Bool) : Type 0 where
  pub file : OpenFile
  pub bytes : List ℕ
  pub opens : host.open_file path ≡ ok file
  pub holds : file.bytes ≡ some bytes
  pub forward : is_neg params.offset ≡ false
  pub result :
      let kept =
        take (bounded params.max_bytes cfg.max_read_bytes) (drop (to_nat params.offset) bytes) in
      payload ≡ read path (to_nat params.offset) (length kept) (encode_content host kept)
  pub cut :
      truncated
      ≡ ltb
          (bounded params.max_bytes cfg.max_read_bytes)
          (length (drop (to_nat params.offset) bytes))

-- With a bound below the largest int64, a read that succeeds returns the bytes of the resolved path's
-- file from the offset on, at most as many as were asked for and as the configuration permits, and
-- says that it is truncated exactly if the file goes on behind them.
pub filesystem_read_window :
    (host : Host) (cfg : AgentConfig) (req : RequestEnvelope) (payload : Payload) (truncated : Bool)
    → cfg.max_read_bytes + 1 < 2 ^ 63
    → filesystem_read_op host cfg req ≡ ok (payload, truncated)
    → (given : Text) × (params : ReadParams) × (path : Text) × (decode_path_and_read host req
        ≡ ok (given, params))
      × (resolve_allowed_path host cfg given ≡ ok path)
      × ReadResult host cfg path params payload truncated
unfolding filesystem_read_op
filesystem_read_window host cfg req payload truncated small h =
    let ((given, params), decoded, h1) = bind-ok (decode_path_and_read host req) _ h in
    let (path, resolved, h2) = bind-ok (resolve_allowed_path host cfg given) _ h1 in
    let (_, e3, h3) =
      bind-ok (refuse_if (is_neg params.offset) (api_error 400 invalid_params)) _ h2 in
    let (file, e4, h4) =
      bind-ok (opened_or (host.open_file path) (api_error 500 read_failed)) _ h3 in
    let (_, e5, h5) =
      bind-ok (refuse_if (not (file.seeks (to_nat params.offset))) (api_error 400 invalid_params)) _
        h4 in
    let (content, e6, h6) = bind-ok (some_or_fail _ (api_error 500 read_failed)) _ h5 in
    let most = bounded params.max_bytes cfg.max_read_bytes in
    let (bytes, found, same) =
      read_at-bytes file (to_nat params.offset) (read_limit most) (some_or_fail-ok _ _ e6) in
    let wide =
      read_limit_lem most (omega (arith, bounded-le params.max_bytes cfg.max_read_bytes)) in
    let (answered, flag) =
      read_answer host path (to_nat params.offset) most (drop (to_nat params.offset) bytes) content
        (same ∙ ap (λ l. take l (drop (to_nat params.offset) bytes)) wide) (ok-injective h6) in
    (
      given,
      params,
      path,
      decoded,
      resolved,
      record {
        file = file;
        bytes = bytes;
        opens = opened_or-ok _ _ e4;
        holds = found;
        forward = refuse_if-ok _ _ e3;
        result = answered;
        cut = flag;
      },
    )
