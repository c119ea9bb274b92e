-- ===== src/BrokerExec/Laws.antt =====
-- cmd/sroiaaa-broker-exec/main.go: nothing is executed that Verify did not accept under the policy file.
use mathlib.Core.List.{map}
use sroiaaa.Base.{
  ℕ, inl, inr, ◌⊎◌, All, Option, none, some, List, ◌≡◌, refl, subst, Result, ok, err, bind-ok,
  ok-injective, refuse_if, or_fail, or_fail-ok,
}
use sroiaaa.Base.Int.{ℤ}
use sroiaaa.Base.Text.{Text, UnicodeTables, is_empty}
use sroiaaa.Broker.Types.{RoutePlan, Policy}
use sroiaaa.Broker.Decode.{JsonReads, load_policy}
use sroiaaa.Broker.Since.{Instant, Calendar}
use sroiaaa.Broker.Router.{Router, new_router, verify}
use sroiaaa.Connector.{Connector, Registry, Outcome, Failure, new_executor, execute_plan}
use sroiaaa.Connector.Registered.{Registers, new_executor-Registers}
use sroiaaa.Connector.Laws.{Stops, execute_plan-Stops}
use sroiaaa.BrokerExec.{
  Options, Makers, ExecError, execute_failed, encode_failed, no_policy_path, bad_policy,
  plan_rejected, duplicate, some_or_refuse, decode_plan, opened_policy, verify_plan,
  build_connectors, report, prepare, run_prepared, run,
}
use sroiaaa.BrokerExec.Made.{some_or_refuse-ok, IsMade, build_connectors-IsMade}

-- The plan is one that the policy of the file would have produced.
pub record IsVerified (tables : UnicodeTables) (cal : Calendar) (clock : ℕ → Instant)
    (file : Option (JsonReads Policy)) (p : RoutePlan) : Type 0 where
  pub reads : JsonReads Policy
  pub policy : Policy
  pub router : Router
  pub opened : file ≡ some reads
  pub loaded : load_policy reads ≡ some policy
  pub checked : new_router tables policy ≡ ok router
  pub accepted : verify tables cal router clock p ≡ ok tt

opened_policy-ok :
    {F : Type 0} (file : Option (JsonReads Policy)) {policy : Policy}
    → opened_policy {F = F} file ≡ ok policy
    → (reads : JsonReads Policy) × (file ≡ some reads) × (load_policy reads ≡ some policy)
opened_policy-ok none h = cc
opened_policy-ok (some reads) h = (reads, refl, some_or_refuse-ok (load_policy reads) _ h)

verify_plan-IsVerified :
    {F : Type 0} (tables : UnicodeTables) (cal : Calendar) (clock : ℕ → Instant)
    (file : Option (JsonReads Policy)) (p : RoutePlan) {r : Router}
    → verify_plan tables cal {F = F} clock file p ≡ ok r
    → IsVerified tables cal clock file p
unfolding verify_plan
verify_plan-IsVerified tables cal clock file p h =
    let (policy, e0, h1) = bind-ok (opened_policy file) _ h in
    let (r, e1, h2) = bind-ok (or_fail (new_router tables policy) bad_policy) _ h1 in
    let (_, e2, h3) = bind-ok (or_fail (verify tables cal r clock p) plan_rejected) _ h2 in
    let (reads, found, loaded) = opened_policy-ok file e0 in
    record {
      reads = reads;
      policy = policy;
      router = r;
      opened = found;
      loaded = loaded;
      checked = or_fail-ok (new_router tables policy) bad_policy e1;
      accepted = or_fail-ok (verify tables cal r clock p) plan_rejected e2;
    }

module _ {W E F : Type 0} (makers : Makers W E F) (options : Options) (env : Text → Text)
    (atoi : Text → Option ℤ) (tables : UnicodeTables) (cal : Calendar) where
  -- What stands before an execution.
  pub record Prepared (clock : ℕ → Instant) (input : JsonReads RoutePlan)
      (file : Option (JsonReads Policy)) (p : RoutePlan) (registry : Registry W E F) : Type 0 where
    pub built : List (Connector W E F)
    pub decoded : decode_plan {F = F} input ≡ ok p
    pub verified : IsVerified tables cal clock file p
    pub connectors : build_connectors makers options env atoi p.steps ≡ ok built
    pub registered : new_executor (map some built) ≡ ok registry

  pub prepare-Prepared :
      (clock : ℕ → Instant) (input : JsonReads RoutePlan) (file : Option (JsonReads Policy))
      (p : RoutePlan) (registry : Registry W E F)
      → prepare makers options env atoi tables cal clock input file ≡ ok (p, registry)
      → Prepared clock input file p registry
  unfolding prepare
  prepare-Prepared clock input file p registry h =
      let (_, _, h0) = bind-ok (refuse_if (is_empty options.policy_path) no_policy_path) _ h in
      let (q, e1, h1) = bind-ok (decode_plan input) _ h0 in
      let (r, e2, h2) = bind-ok (verify_plan tables cal clock file q) _ h1 in
      let (built, e3, h3) = bind-ok (build_connectors makers options env atoi q.steps) _ h2 in
      let (entries, e4, h4) = bind-ok (or_fail (new_executor (map some built)) duplicate) _ h3 in
      let same = ok-injective h4 in
      subst (λ (pr : RoutePlan × Registry W E F). Prepared clock input file pr.0 pr.1) same
        (record {
          built = built;
          decoded = e1;
          verified = verify_plan-IsVerified tables cal clock file q e2;
          connectors = e3;
          registered = or_fail-ok (new_executor (map some built)) duplicate e4;
        })

  -- How a run ends whose plan was executed: with the failure that stopped it, or with all the evidence.
  abbrev pub IsReported :
      (List E → Option Text) → Outcome W E F → Result (ExecError F) Text × W → Type 0
  IsReported encode out end =
      ((f : Failure F) × (out.failure ≡ some f) × (end ≡ (err (execute_failed f), out.world)))
      ⊎ ((out.failure ≡ none)
          × (end ≡ (some_or_refuse (encode out.evidence) encode_failed, out.world)))

  report-IsReported :
      (encode : List E → Option Text) (out : Outcome W E F)
      → IsReported encode out
          (report makers options env atoi encode out.evidence out.failure, out.world)
  report-IsReported encode out = by_failure out.failure refl
    where
      by_failure :
          (o : Option (Failure F))
          → out.failure ≡ o
          → IsReported encode out
              (report makers options env atoi encode out.evidence out.failure, out.world)
      by_failure (some f) e = inl (f, e, rw e refl)
      by_failure none e = inr (e, rw e refl)

  -- A run either fails and touches no source; or it executed a plan that was decoded whole from the input and
  -- that Verify accepts under the policy of the file, by a registry of exactly the connectors that were
  -- made for it, step by step up to a first failure, and reports that failure or all the evidence.
  pub data Ends (clock : ℕ → Instant) (encode : List E → Option Text) (input : JsonReads RoutePlan)
      (file : Option (JsonReads Policy)) (w : W) (end : Result (ExecError F) Text × W)
      : Type 0 where
    untouched : (e : ExecError F) → end ≡ (err e, w) → Ends clock encode input file w end
    executed :
        (p : RoutePlan) (registry : Registry W E F) (ready : Prepared clock input file p registry)
        → All (IsMade makers options env atoi p.steps) ready.built
        → Registers (map some ready.built) registry
        → Stops registry p.steps w (execute_plan registry p w)
        → IsReported encode (execute_plan registry p w) end
        → Ends clock encode input file w end

  -- Whatever the input, the policy file, the flags and the environment: a run either ends with an error and no
  -- connector was called; or it executed a plan that the input holds and that Verify accepts under the
  -- policy of the file, in order and up to the first failure, by exactly the connectors that package
  -- connector made of the flags and the environment for the sources that the plan names. It then ends
  -- with that failure as its error, or with all the evidence.
  pub run-Ends :
      (clock : ℕ → Instant) (encode : List E → Option Text) (input : JsonReads RoutePlan)
      (file : Option (JsonReads Policy)) (w : W)
      → Ends clock encode input file w
          (run makers options env atoi tables cal clock encode input file w)
  unfolding run
  run-Ends clock encode input file w =
      go (prepare makers options env atoi tables cal clock input file) refl
    where
      go :
          (o : Result (ExecError F) (RoutePlan × Registry W E F))
          → prepare makers options env atoi tables cal clock input file ≡ o
          → Ends clock encode input file w
              (run_prepared makers options env atoi tables cal encode o w)
      go (err e) h = untouched e refl
      go (ok (p, registry)) h =
          let ready = prepare-Prepared clock input file p registry h in
          executed p registry ready
            (build_connectors-IsMade makers options env atoi p.steps ready.connectors)
            (new_executor-Registers (map some ready.built) registry ready.registered)
            (execute_plan-Stops registry p w) (report-IsReported encode (execute_plan registry p w))
