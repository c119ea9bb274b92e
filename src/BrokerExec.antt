-- ===== src/BrokerExec.antt =====
-- cmd/sroiaaa-broker-exec/main.go: a plan from an untrusted caller is decoded, verified against the policy, and
-- executed by the connectors that it needs. Messages, the timeout and TLS warnings are left out.
pub mod Made
pub mod Laws
mod Tests
use mathlib.Core.List.{map}
use sroiaaa.Base.{
  ℕ, Bool, true, false, not, ◌||◌, Option, none, some, List, [], ◌∷◌, ◌++◌, Result, ok, err, ◌>>=◌,
  ◌>>◌, refuse_if, or_fail, if◌then◌else◌, any, all,
}
use sroiaaa.Base.Int.{ℤ, above, to_nat}
use sroiaaa.Base.Text.{Text, UnicodeTables, codes, is_empty, split, kept_parts}
use sroiaaa.Broker.Types.{
  Source, wazuh_api, zabbix_api, sroiaaa_agent, pegasus_db, request_tracker, RouteStep, RoutePlan,
  Policy, RouteError,
}
use sroiaaa.Broker.Decode.{JsonReads, decode_one_json, load_policy}
use sroiaaa.Broker.Since.{Instant, Calendar}
use sroiaaa.Broker.Router.{Router, new_router, verify}
use sroiaaa.Connector.{source_eq, Connector, Registry, Outcome, Failure, new_executor, execute_plan}

-- The flags.
pub record Options : Type 0 where
  pub policy_path : Text
  pub zabbix_endpoint : Text
  pub wazuh_endpoint : Text
  pub wazuh_insecure : Bool
  pub rt_endpoint : Text

-- The constructors of package connector, at the configuration that this command gives each.
pub record Makers (W E F : Type 0) : Type 0 where
  pub zabbix : (endpoint token : Text) → Option (Connector W E F)
  pub wazuh :
      (endpoint username password : Text)
      → (insecure : Bool) → (groups : List Text) → Option (Connector W E F)
  pub pegasus : (dsn : Text) → (max_rows max_bytes : ℕ) → Option (Connector W E F)
  pub rt : (endpoint token : Text) → (queues : List Text) → Option (Connector W E F)
  -- ParseSROIAAAAgents and NewSROIAAAConnector.
  pub agents : Text → Option (Connector W E F)

-- Why a run ends with an error; of an execution that failed, its failure.
pub data ExecError (F : Type 0) : Type 0 where
  bad_flags no_policy_path undecodable_plan no_steps unreadable_policy bad_policy plan_rejected :
      ExecError F
  zabbix_setup wazuh_setup pegasus_setup rt_setup agent_setup no_implementation : ExecError F
  duplicate encode_failed : ExecError F
  execute_failed : Failure F → ExecError F

-- The code that the process exits with.
abbrev pub exit_code : {F : Type 0} → ExecError F → ℕ
exit_code bad_flags = 2
exit_code no_policy_path = 2
exit_code zabbix_setup = 2
exit_code wazuh_setup = 2
exit_code pegasus_setup = 2
exit_code rt_setup = 2
exit_code agent_setup = 2
exit_code no_implementation = 2
exit_code _ = 1

abbrev pub some_or_refuse : {A E : Type 0} → Option A → E → Result E A
some_or_refuse (some a) e = ok a
some_or_refuse none e = err e

abbrev pub is_none_left : {A : Type 0} → List A → Bool
is_none_left [] = true
is_none_left (x ∷ xs) = false

unfoldable pub decode_plan : {F : Type 0} → JsonReads RoutePlan → Result (ExecError F) RoutePlan
decode_plan reads = do
  p ← some_or_refuse (decode_one_json reads) undecodable_plan
  refuse_if (is_none_left p.steps) no_steps
  ok p

-- splitList.
unfoldable pub split_list : Text → List Text
split_list value = kept_parts (split b',' value)

-- pegasusMaxRows and pegasusMaxBytes: 0 stands for the default of the connector.
unfoldable pub positive_setting : (Text → Option ℤ) → Text → ℕ
positive_setting atoi value =
    if is_empty value
    then 0
    else (elim (atoi value) [ some n ↦ if above n 0 then to_nat n else 0 | none ↦ 0 ])

unfoldable pub needs : List RouteStep → Source → Bool
needs steps source = any (λ step. source_eq source step.source) steps

abbrev pub implemented : Source → Bool
implemented wazuh_api = true
implemented zabbix_api = true
implemented sroiaaa_agent = true
implemented pegasus_db = true
implemented request_tracker = true
implemented (Source.other s) = false

-- A file that cannot be opened is `none`; one that is opened is decoded.
abbrev pub opened_policy : {F : Type 0} → Option (JsonReads Policy) → Result (ExecError F) Policy
opened_policy none = err unreadable_policy
opened_policy (some reads) = some_or_refuse (load_policy reads) unreadable_policy

module _ (tables : UnicodeTables) (cal : Calendar) where
  -- verifyPlan: the router that accepted the plan.
  unfoldable pub verify_plan :
      {F : Type 0}
      → (ℕ → Instant)
      → Option (JsonReads Policy)
      → RoutePlan
      → Result (ExecError F) Router
  verify_plan clock file p = do
    policy ← opened_policy file
    r ← or_fail (new_router tables policy) bad_policy
    or_fail (verify tables cal r clock p) plan_rejected
    ok r

module _ {W E F : Type 0} where
  -- A part of buildConnectors: the connector of one source, if the plan needs it.
  abbrev pub if_needed :
      Bool → Result (ExecError F) (Connector W E F) → Result (ExecError F) (List (Connector W E F))
  if_needed false made = ok []
  if_needed true made = made >>= λ c. ok (c ∷ [])

  module _ (makers : Makers W E F) (options : Options) (env : Text → Text)
      (atoi : Text → Option ℤ) where
    abbrev pub build_zabbix : Result (ExecError F) (Connector W E F)
    build_zabbix = do
      refuse_if (is_empty options.zabbix_endpoint) zabbix_setup
      let token = env (codes "ZABBIX_RO_TOKEN")
      refuse_if (is_empty token) zabbix_setup
      some_or_refuse (makers.zabbix options.zabbix_endpoint token) zabbix_setup

    abbrev pub build_wazuh : Result (ExecError F) (Connector W E F)
    build_wazuh = do
      refuse_if (is_empty options.wazuh_endpoint) wazuh_setup
      let username = env (codes "WAZUH_API_USERNAME")
      let password = env (codes "WAZUH_API_PASSWORD")
      refuse_if (is_empty username || is_empty password) wazuh_setup
      let groups = split_list (env (codes "SROIAAA_WAZUH_CRITICAL_GROUPS"))
      some_or_refuse
          (makers.wazuh options.wazuh_endpoint username password options.wazuh_insecure groups)
          wazuh_setup

    abbrev pub build_pegasus : Result (ExecError F) (Connector W E F)
    build_pegasus = do
      let dsn = env (codes "SROIAAA_PEGASUS_DSN")
      refuse_if (is_empty dsn) pegasus_setup
      let rows = positive_setting atoi (env (codes "SROIAAA_PEGASUS_MAX_ROWS"))
      let bytes = positive_setting atoi (env (codes "SROIAAA_PEGASUS_MAX_BYTES"))
      some_or_refuse (makers.pegasus dsn rows bytes) pegasus_setup

    abbrev pub build_rt : Result (ExecError F) (Connector W E F)
    build_rt = do
      refuse_if (is_empty options.rt_endpoint) rt_setup
      let token = env (codes "RT_API_TOKEN")
      refuse_if (is_empty token) rt_setup
      let queues = split_list (env (codes "SROIAAA_RT_QUEUES"))
      refuse_if (is_none_left queues) rt_setup
      some_or_refuse (makers.rt options.rt_endpoint token queues) rt_setup

    abbrev pub build_agents : Result (ExecError F) (Connector W E F)
    build_agents = some_or_refuse (makers.agents (env (codes "SROIAAA_AGENT_CONFIG"))) agent_setup

    unfoldable pub build_connectors : List RouteStep → Result (ExecError F) (List (Connector W E F))
    build_connectors steps = do
      zabbix ← if_needed (needs steps zabbix_api) build_zabbix
      wazuh ← if_needed (needs steps wazuh_api) build_wazuh
      pegasus ← if_needed (needs steps pegasus_db) build_pegasus
      rt ← if_needed (needs steps request_tracker) build_rt
      agents ← if_needed (needs steps sroiaaa_agent) build_agents
      refuse_if (not (all (λ step. implemented step.source) steps)) no_implementation
      ok (zabbix ++ (wazuh ++ (pegasus ++ (rt ++ agents))))

    -- What is printed and how the process exits, and the state that the connectors leave.
    abbrev pub report :
        (List E → Option Text) → List E → Option (Failure F) → Result (ExecError F) Text
    report encode evidence (some f) = err (execute_failed f)
    report encode evidence none = some_or_refuse (encode evidence) encode_failed

    module _ (tables : UnicodeTables) (cal : Calendar) where
      -- Everything before the execution: the plan and the registry.
      unfoldable pub prepare :
          (ℕ → Instant)
          → JsonReads RoutePlan
          → Option (JsonReads Policy)
          → Result (ExecError F) (RoutePlan × Registry W E F)
      prepare clock input file = do
        refuse_if (is_empty options.policy_path) no_policy_path
        p ← decode_plan input
        router ← verify_plan tables cal clock file p
        connectors ← build_connectors p.steps
        registry ← or_fail (new_executor (map some connectors)) duplicate
        ok (p, registry)

      abbrev pub run_prepared :
          (List E → Option Text)
          → Result (ExecError F) (RoutePlan × Registry W E F)
          → W
          → Result (ExecError F) Text × W
      run_prepared encode (err e) w = (err e, w)
      run_prepared encode (ok (p, registry)) w =
          let out = execute_plan registry p w in (report encode out.evidence out.failure, out.world)

      unfoldable pub run :
          (ℕ → Instant)
          → (List E → Option Text)
          → JsonReads RoutePlan
          → Option (JsonReads Policy)
          → W
          → Result (ExecError F) Text × W
      run clock encode input file w = run_prepared encode (prepare clock input file) w

  -- `none` is a command line that flag.Parse refuses.
  unfoldable pub run_command :
      Makers W E F
      → Option Options
      → (Text → Text)
      → (Text → Option ℤ)
      → UnicodeTables
      → Calendar
      → (ℕ → Instant)
      → (List E → Option Text)
      → JsonReads RoutePlan
      → Option (JsonReads Policy)
      → W
      → Result (ExecError F) Text × W
  run_command makers none env atoi tables cal clock encode input file w = (err bad_flags, w)
  run_command makers (some options) env atoi tables cal clock encode input file w =
      run makers options env atoi tables cal clock encode input file w
