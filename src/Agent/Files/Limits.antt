-- ===== src/Agent/Files/Limits.antt =====
-- internal/agent/service.go: what the file operations return is of an accepted path and within the
-- limits of the configuration.
use sroiaaa.Base.{
  ℕ, ◌++◌, refl, sym, ◌∙◌, Result, err, take-drop, ◌-◌, ◌≤◌, Bool, not, List, [], ◌∷◌, ◌≡◌, ap,
  subst, arith, ltb, min, if◌then◌else◌, ok, refuse_if, length, take, drop, bind-ok, ok-injective,
  length-take,
}
use sroiaaa.Base.Int.{is_neg, to_nat}
use sroiaaa.Base.Text.{Text}
use sroiaaa.Agent.Types.{
  api_error, list_failed, read_failed, tail_failed, invalid_params, RequestEnvelope, OsError,
  FileInfo, DirEntry, Host, AgentConfig, Payload, capabilities, host, listing, stat, read, tail,
  processes,
}
use sroiaaa.Agent.Paths.{resolve_allowed_path}
use sroiaaa.Agent.Files.{
  some_or_fail, opened_or, decode_target, decode_path_and_list, decode_path_and_read, bounded,
  read_at, read_limit, stat_or_error, list_records, entry_record, encode_content, lines_of,
  filesystem_list_op, filesystem_stat_op, filesystem_read_op, filesystem_tail_op,
}
use sroiaaa.Agent.Files.Laws.{bounded-le, some_or_fail-ok, opened_or-ok, read_at-bytes}
use sroiaaa.Agent.Files.Genuine.{
  IsListing, IsStat, IsPart, Memᴰ-take, list_records-IsEntryOf, cut_part,
}

-- The path is what some requested path resolves to under the configuration.
abbrev pub Accepts : Host → AgentConfig → Text → Type 0
Accepts os cfg path = (given : Text) × (resolve_allowed_path os cfg given ≡ ok path)

-- The data is what the system holds at an accepted path, and no more of it than the configuration permits.
abbrev pub IsBounded : Host → AgentConfig → Payload → Type 0
IsBounded os cfg (capabilities names) = Unit {0}
IsBounded os cfg (host fields) = Unit {0}
IsBounded os cfg (listing path entries) =
    Accepts os cfg path × IsListing os path entries × (length entries ≤ cfg.max_list_entries)
IsBounded os cfg (stat entry) = Accepts os cfg entry.path × IsStat os entry
IsBounded os cfg (read path offset n content) =
    Accepts os cfg path × IsPart os path offset n content × (n ≤ cfg.max_read_bytes)
IsBounded os cfg (tail path start n content lines) =
    Accepts os cfg path × IsPart os path start n content × (n ≤ cfg.max_tail_bytes)
IsBounded os cfg (processes records n) = (n ≡ length records) × (n ≤ cfg.max_process_entries)

list_records-length :
    (os : Host) (dir : Text) (entries : List DirEntry)
    → length (list_records os dir entries) ≤ length entries
unfolding list_records
list_records-length os dir [] = omega arith
list_records-length os dir (entry ∷ entries) =
    let rest = list_records-length os dir entries in ground arith

pub cut_length :
    {A : Type 0} (most : ℕ) (xs : List A)
    → length (if ltb most (length xs) then take most xs else xs) ≤ most
cut_length most xs = ground (arith, length-take most xs)

within : {a b c : ℕ} → a ≤ b → b ≤ c → a ≤ c
within h k = omega arith

taken_length :
    {A : Type 0} (most : ℕ) (xs : List A) {ys : List A} → ys ≡ take most xs → length ys ≤ most
taken_length most xs e = omega (arith, ap length e, length-take most xs)

stat_or_error-ok :
    (r : Result OsError FileInfo) {info : FileInfo} → stat_or_error r ≡ ok info → r ≡ ok info
stat_or_error-ok (ok found) h = ap ok (ok-injective h)
stat_or_error-ok (err x) h = absurd (cc)

module _ (os : Host) (cfg : AgentConfig) (req : RequestEnvelope) {payload : Payload}
    {truncated : Bool} where
  pub list-IsBounded :
      filesystem_list_op os cfg req ≡ ok (payload, truncated) → IsBounded os cfg payload
  unfolding filesystem_list_op
  list-IsBounded h =
      let ((given, n), _, h1) = bind-ok (decode_path_and_list os req) _ h in
      let (path, resolved, h2) = bind-ok (resolve_allowed_path os cfg given) _ h1 in
      let (entries, e3, h3) =
        bind-ok (opened_or (os.read_dir path) (api_error 500 list_failed)) _ h2 in
      let most = bounded n cfg.max_list_entries in
      let kept = take (min (length entries) most) entries in
      let listing_of : IsListing os path (list_records os path kept) = record {
        found = entries;
        listed = opened_or-ok (os.read_dir path) _ e3;
        each =
            list_records-IsEntryOf os path entries kept
              (λ entry. Memᴰ-take (min (length entries) most) entries entry);
      } in
      let short : length (list_records os path kept) ≤ cfg.max_list_entries = omega (
        arith,
        list_records-length os path kept,
        length-take (min (length entries) most) entries,
        bounded-le n cfg.max_list_entries,
      ) in
      subst (IsBounded os cfg) (ap (λ r. r.0) (ok-injective h3))
        ((given, resolved), listing_of, short)

  pub stat-IsBounded :
      filesystem_stat_op os cfg req ≡ ok (payload, truncated) → IsBounded os cfg payload
  unfolding filesystem_stat_op
  stat-IsBounded h =
      let (given, _, h1) = bind-ok (decode_target os req) _ h in
      let (path, resolved, h2) = bind-ok (resolve_allowed_path os cfg given) _ h1 in
      let (info, e3, h3) = bind-ok (stat_or_error (os.lstat path)) _ h2 in
      subst (IsBounded os cfg) (ap (λ r. r.0) (ok-injective h3)) (
        unfold entry_record in
        ((given, resolved), record { info = stat_or_error-ok (os.lstat path) e3; target = refl }))

  pub read-IsBounded :
      filesystem_read_op os cfg req ≡ ok (payload, truncated) → IsBounded os cfg payload
  unfolding filesystem_read_op
  read-IsBounded h =
      let ((given, params), _, h1) = bind-ok (decode_path_and_read os req) _ h in
      let (path, resolved, h2) = bind-ok (resolve_allowed_path os cfg given) _ h1 in
      let (_, _, h3) =
        bind-ok (refuse_if (is_neg params.offset) (api_error 400 invalid_params)) _ h2 in
      let (file, e4, h4) =
        bind-ok (opened_or (os.open_file path) (api_error 500 read_failed)) _ h3 in
      let (_, _, h5) =
        bind-ok (refuse_if (not (file.seeks (to_nat params.offset))) (api_error 400 invalid_params))
          _ h4 in
      let most = bounded params.max_bytes cfg.max_read_bytes in
      let got = read_at file (to_nat params.offset) (read_limit most) in
      let (content, e6, h6) = bind-ok (some_or_fail got (api_error 500 read_failed)) _ h5 in
      let kept = if ltb most (length content) then take most content else content in
      let short : length kept ≤ cfg.max_read_bytes =
        within (cut_length most content) (bounded-le params.max_bytes cfg.max_read_bytes) in
      let (bytes, held, same) =
        read_at-bytes file (to_nat params.offset) (read_limit most) (some_or_fail-ok _ _ e6) in
      let found = drop (to_nat params.offset) bytes in
      let (after, split) = cut_part most found content (drop (read_limit most) found) (
        take-drop (read_limit most) found
        ∙ ap (λ l. l ++ drop (read_limit most) found) (sym same)) in
      let part : IsPart os path (to_nat params.offset) (length kept) (encode_content os kept) =
        record {
          file = file;
          bytes = bytes;
          got = kept;
          rest = after;
          opened = opened_or-ok (os.open_file path) _ e4;
          held = held;
          part = split;
          size = refl;
          written = refl;
        } in
      let proper : IsBounded os cfg
          (read path (to_nat params.offset) (length kept) (encode_content os kept)) =
        ((given, resolved), part, short) in
      subst (IsBounded os cfg) (ap (λ r. r.0) (ok-injective h6)) proper

  pub tail-IsBounded :
      filesystem_tail_op os cfg req ≡ ok (payload, truncated) → IsBounded os cfg payload
  unfolding filesystem_tail_op
  tail-IsBounded h =
      let ((given, params), _, h1) = bind-ok (decode_path_and_read os req) _ h in
      let (path, resolved, h2) = bind-ok (resolve_allowed_path os cfg given) _ h1 in
      let (file, e3, h3) =
        bind-ok (opened_or (os.open_file path) (api_error 500 tail_failed)) _ h2 in
      let (size, _, h4) = bind-ok (some_or_fail file.size (api_error 500 tail_failed)) _ h3 in
      let most = bounded params.max_bytes cfg.max_tail_bytes in
      let (_, _, h5) =
        bind-ok (refuse_if (not (file.seeks (size - most))) (api_error 500 tail_failed)) _ h4 in
      let (content, e6, h6) =
        bind-ok (some_or_fail (read_at file (size - most) most) (api_error 500 tail_failed)) _ h5 in
      let (bytes, held, same) = read_at-bytes file (size - most) most (some_or_fail-ok _ _ e6) in
      let short : length content ≤ cfg.max_tail_bytes =
        within (taken_length most (drop (size - most) bytes) same)
          (bounded-le params.max_bytes cfg.max_tail_bytes) in
      let found = drop (size - most) bytes in
      let part : IsPart os path (size - most) (length content) (encode_content os content) =
        record {
          file = file;
          bytes = bytes;
          got = content;
          rest = drop most found;
          opened = opened_or-ok (os.open_file path) _ e3;
          held = held;
          part = take-drop most found ∙ ap (λ l. l ++ drop most found) (sym same);
          size = refl;
          written = refl;
        } in
      let proper : IsBounded os cfg (
          tail path (size - most) (length content) (encode_content os content)
            (lines_of os content)) =
        ((given, resolved), part, short) in
      subst (IsBounded os cfg) (ap (λ r. r.0) (ok-injective h6)) proper
