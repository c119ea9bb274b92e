-- ===== src/Agent/Files/Tail.antt =====
-- internal/agent/service.go: filesystemTail returns the end of the file.
use sroiaaa.Base.{
  ℕ, ◌-◌, ◌≤◌, Bool, not, some, List, ◌≡◌, sym, ap, ◌∙◌, arith, ltb, ok, refuse_if, length, take,
  drop, bind-ok, ok-injective, length-drop, some_inj,
}
use sroiaaa.Base.LogFile.Laws.{take-all}
use sroiaaa.Base.Text.{Text}
use sroiaaa.Agent.Types.{
  api_error, tail_failed, RequestEnvelope, ReadParams, OpenFile, Host, AgentConfig, Payload, tail,
}
use sroiaaa.Agent.Paths.{resolve_allowed_path}
use sroiaaa.Agent.Files.{
  some_or_fail, opened_or, decode_path_and_read, bounded, read_at, encode_content, lines_of,
  filesystem_tail_op,
}
use sroiaaa.Agent.Files.Laws.{some_or_fail-ok, opened_or-ok, read_at-bytes}

-- What Stat says of an open file's size is the number of bytes that reads of it give: the file does not
-- change while it is open.
abbrev pub SizesAgree : Host → Type 0
SizesAgree host =
    (path : Text) (file : OpenFile) (bytes : List ℕ)
    → host.open_file path ≡ ok file
    → file.bytes ≡ some bytes
    → file.size ≡ some (length bytes)

-- What a successful tail is made of.
pub record TailResult (host : Host) (cfg : AgentConfig) (path : Text) (params : ReadParams)
    (payload : Payload) (truncated : Bool) : Type 0 where
  pub file : OpenFile
  pub bytes : List ℕ
  pub opens : host.open_file path ≡ ok file
  pub holds : file.bytes ≡ some bytes
  pub result :
      let start = length bytes - bounded params.max_bytes cfg.max_tail_bytes in
      let kept = drop start bytes in
      payload ≡ tail path start (length kept) (encode_content host kept) (lines_of host kept)
  pub cut : truncated ≡ ltb (bounded params.max_bytes cfg.max_tail_bytes) (length bytes)

tail_answer :
    (host : Host) (path : Text) (most : ℕ) (bytes content : List ℕ) {start : ℕ} {payload : Payload}
    {truncated : Bool}
    → start ≡ length bytes - most
    → content ≡ take most (drop start bytes)
    → ◌≡◌ {A = Payload × Bool}
        (
          tail path start (length content) (encode_content host content) (lines_of host content),
          ltb 0 start,
        )
        (payload, truncated)
    → (let end = drop (length bytes - most) bytes in
        payload
        ≡ tail path
            (length bytes - most)
            (length end)
            (encode_content host end)
            (lines_of host end))
      × (truncated ≡ ltb most (length bytes))
tail_answer host path most bytes content {start} same e p =
    let short : length (drop start bytes) ≤ most = omega (arith, length-drop start bytes, same) in
    let whole : content ≡ drop (length bytes - most) bytes =
      e ∙ take-all most (drop start bytes) short ∙ ap (λ n. drop n bytes) same in
    (
      sym (ap (λ r. r.0) p)
          ∙ ap
              (λ n.
                tail path n (length content) (encode_content host content) (lines_of host content))
              same
          ∙ ap
              (λ c.
                tail path (length bytes - most) (length c) (encode_content host c)
                  (lines_of host c))
              whole,
      sym (ap (λ r. r.1) p) ∙ ap (ltb 0) same ∙ positive most (length bytes),
    )
  where
    positive : (m n : ℕ) → ltb 0 (n - m) ≡ ltb m n
    positive m n = ground arith

-- Where Stat gives the size of what is read: a tail that succeeds returns the last bytes of the resolved
-- path's file, as many as were asked for within the bound of the configuration and as there are, the
-- offset at which they start, and says that it is truncated exactly if the file is longer.
pub filesystem_tail_end :
    (host : Host) (cfg : AgentConfig) (req : RequestEnvelope) (payload : Payload) (truncated : Bool)
    → SizesAgree host
    → filesystem_tail_op host cfg req ≡ ok (payload, truncated)
    → (given : Text) × (params : ReadParams) × (path : Text) × (decode_path_and_read host req
        ≡ ok (given, params))
      × (resolve_allowed_path host cfg given ≡ ok path)
      × TailResult host cfg path params payload truncated
unfolding filesystem_tail_op
filesystem_tail_end host cfg req payload truncated agree h =
    let ((given, params), decoded, h1) = bind-ok (decode_path_and_read host req) _ h in
    let (path, resolved, h2) = bind-ok (resolve_allowed_path host cfg given) _ h1 in
    let (file, e3, h3) =
      bind-ok (opened_or (host.open_file path) (api_error 500 tail_failed)) _ h2 in
    let (size, e4, h4) = bind-ok (some_or_fail file.size (api_error 500 tail_failed)) _ h3 in
    let most = bounded params.max_bytes cfg.max_tail_bytes in
    let (_, e5, h5) =
      bind-ok (refuse_if (not (file.seeks (size - most))) (api_error 500 tail_failed)) _ h4 in
    let (content, e6, h6) =
      bind-ok (some_or_fail (read_at file (size - most) most) (api_error 500 tail_failed)) _ h5 in
    let (bytes, found, same) = read_at-bytes file (size - most) most (some_or_fail-ok _ _ e6) in
    let opens = opened_or-ok (host.open_file path) _ e3 in
    let sized : size ≡ length bytes =
      some_inj (sym (some_or_fail-ok file.size _ e4) ∙ agree path file bytes opens found) in
    let (answered, flag) =
      tail_answer host path most bytes content (ap (λ n. n - most) sized) same (ok-injective h6) in
    (
      given,
      params,
      path,
      decoded,
      resolved,
      record {
        file = file;
        bytes = bytes;
        opens = opens;
        holds = found;
        result = answered;
        cut = flag;
      },
    )
