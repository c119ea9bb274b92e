-- ===== src/Agent/Service/Laws.antt =====
-- internal/agent/service.go: what Execute lets an authorised caller do.
use mathlib.Core.List.{Memᴰ}
use sroiaaa.Base.{
  ◌≤◌, Bool, true, Option, none, some, List, ◌≡◌, ◌≢◌, refl, ap, subst, inl, inr, Result, ok, err,
  length, bind-ok, ok-injective, Bool-cases, All,
}
use sroiaaa.Base.Text.{Text, codes, member}
use sroiaaa.Base.Text.Laws.{member_sound}
use sroiaaa.Agent.Types.{
  Operation, capabilities_describe, host_info, filesystem_list, filesystem_stat, filesystem_read,
  filesystem_tail, process_list, known_operation, api_error, operation_disabled, RequestEnvelope,
  OsError, DirEntry, Host, AgentConfig, Payload, capabilities, host, listing, stat, read, tail,
  processes,
}
use sroiaaa.Agent.Paths.{new_service, canonical_root}
use sroiaaa.Agent.Paths.Laws.{Inside, IsAbs, KeepsAbs, resolve_allowed_path-Inside}
use sroiaaa.Agent.Files.{Outcome}
use sroiaaa.Agent.Files.Genuine.{IsListing, IsStat, IsPart}
use sroiaaa.Agent.Files.Limits.{
  Accepts, IsBounded, cut_length, list-IsBounded, stat-IsBounded, read-IsBounded, tail-IsBounded,
}
use sroiaaa.Agent.Service.{
  operation_enabled, capabilities_data, host_info_op, hostname_or_fail, process_list_op,
  process_records, sort_records, dispatch, run_operation, run_known, process_answer,
}

processes-IsBounded :
    (os : Host) (cfg : AgentConfig) (found : Result OsError (List DirEntry)) {payload : Payload}
    {truncated : Bool}
    → process_answer os cfg found ≡ ok (payload, truncated)
    → IsBounded os cfg payload
unfolding process_answer
processes-IsBounded os cfg (ok entries) h =
    subst (IsBounded os cfg) (ap (λ r. r.0) (ok-injective h)) (
      refl,
      cut_length cfg.max_process_entries (sort_records (process_records os cfg.proc_root entries)),
    )
processes-IsBounded os cfg (err x) h = cc

host_info-IsBounded :
    (os : Host) (cfg : AgentConfig) {payload : Payload} {truncated : Bool}
    → host_info_op os cfg ≡ ok (payload, truncated)
    → IsBounded os cfg payload
unfolding host_info_op
host_info-IsBounded os cfg h =
    let (name, _, h1) =
      bind-ok (hostname_or_fail (member (codes "hostname") cfg.host_info_fields) os.hostname) _ h in
    subst (IsBounded os cfg) (ap (λ r. r.0) (ok-injective h1)) tt

dispatch-IsBounded :
    (os : Host) (cfg : AgentConfig) (op : Operation) (req : RequestEnvelope) {payload : Payload}
    {truncated : Bool}
    → dispatch os cfg op req ≡ ok (payload, truncated)
    → IsBounded os cfg payload
unfolding dispatch process_list_op capabilities_data
dispatch-IsBounded os cfg capabilities_describe req h =
    subst (IsBounded os cfg) (ap (λ r. r.0) (ok-injective h)) tt
dispatch-IsBounded os cfg host_info req h = host_info-IsBounded os cfg h
dispatch-IsBounded os cfg filesystem_list req h = list-IsBounded os cfg req h
dispatch-IsBounded os cfg filesystem_stat req h = stat-IsBounded os cfg req h
dispatch-IsBounded os cfg filesystem_read req h = read-IsBounded os cfg req h
dispatch-IsBounded os cfg filesystem_tail req h = tail-IsBounded os cfg req h
dispatch-IsBounded os cfg process_list req h =
    processes-IsBounded os cfg (os.read_dir cfg.proc_root) h

-- The path lies in the canonical form of a configured root.
abbrev pub Granted : Host → AgentConfig → Text → Type 0
Granted os cfg path =
    (given : Text) × Memᴰ given cfg.allowed_roots × Inside path (canonical_root os given)

-- What a response may hold: what the system has at a granted path, within the limit of its amount.
abbrev pub Confined : Host → AgentConfig → Payload → Type 0
Confined os cfg (capabilities names) = Unit {0}
Confined os cfg (host values) = Unit {0}
Confined os cfg (listing path entries) =
    Granted os cfg path × IsListing os path entries × (length entries ≤ cfg.max_list_entries)
Confined os cfg (stat entry) = Granted os cfg entry.path × IsStat os entry
Confined os cfg (read path offset n content) =
    Granted os cfg path × IsPart os path offset n content × (n ≤ cfg.max_read_bytes)
Confined os cfg (tail path start n content lines) =
    Granted os cfg path × IsPart os path start n content × (n ≤ cfg.max_tail_bytes)
Confined os cfg (processes records n) = (n ≡ length records) × (n ≤ cfg.max_process_entries)

module _ (os : Host) (cfg : AgentConfig) (keeps : KeepsAbs os)
    (roots : All IsAbs cfg.allowed_roots) where
  granted : (path : Text) → Accepts os (new_service os cfg) path → Granted os cfg path
  granted path (asked, resolved) =
      let (target, given, _, _, _, listed, inside) =
        resolve_allowed_path-Inside os cfg asked path keeps roots resolved in
      (given, listed, inside)

  confined :
      (payload : Payload) → IsBounded os (new_service os cfg) payload → Confined os cfg payload
  unfolding new_service
  confined (capabilities names) h = tt
  confined (host values) h = tt
  confined (listing path entries) h = (granted path h.0, h.1, h.2)
  confined (stat entry) h = (granted entry.path h.0, h.1)
  confined (read path offset n content) h = (granted path h.0, h.1, h.2)
  confined (tail path start n content lines) h = (granted path h.0, h.1, h.2)
  confined (processes records n) h = h

run_known-ok :
    (os : Host) (cfg : AgentConfig) (req : RequestEnvelope) (known : Option Operation)
    {payload : Payload} {truncated : Bool}
    → run_known os cfg req known ≡ ok (payload, truncated)
    → (op : Operation) × (known ≡ some op)
      × (operation_enabled cfg req.operation ≡ true)
      × (dispatch os cfg op req ≡ ok (payload, truncated))
unfolding run_known
run_known-ok os cfg req none h = cc
run_known-ok os cfg req (some op) h = elim (Bool-cases (operation_enabled cfg req.operation)) [
  | inl e ↦ (op, refl, e, rw (e, run_known) at h)
  | inr e ↦ absurd (shut (rw (e, run_known) at h))
]
  where
    shut : {p : Payload × Bool} → ◌≢◌ {A = Outcome} (err (api_error 403 operation_disabled)) (ok p)
    shut k = cc

-- Where the configured roots are absolute and symbolic links of absolute paths resolve to absolute
-- paths: a request that the service answers with data names a compiled operation that the
-- configuration enables. What a stat, a listing, a read or a tail returns is of one path inside a
-- configured root: what Lstat says of it, records of entries of that directory under their names in
-- it, or bytes of the file at it from the offset on. No more bytes, entries or processes are returned
-- than the configuration permits.
pub run_operation-Confined :
    (os : Host) (cfg : AgentConfig) (req : RequestEnvelope) (payload : Payload) (truncated : Bool)
    → KeepsAbs os
    → All IsAbs cfg.allowed_roots
    → run_operation os (new_service os cfg) req ≡ ok (payload, truncated)
    → (op : Operation) × (known_operation req.operation ≡ some op)
      × Memᴰ req.operation cfg.enabled_operations
      × Confined os cfg payload
unfolding run_operation operation_enabled new_service
run_operation-Confined os cfg req payload truncated keeps roots h =
    let (op, known, enabled, ran) =
      run_known-ok os (new_service os cfg) req (known_operation req.operation) h in
    (
      op,
      known,
      member_sound req.operation cfg.enabled_operations enabled,
      confined os cfg keeps roots payload (dispatch-IsBounded os (new_service os cfg) op req ran),
    )
