-- ===== src/Orchestrator/Laws.antt =====
-- internal/orchestrator/session.go: what a tool call that the model proposes can lead to.
use sroiaaa.Base.{
  true, false, Option, none, some, List, ◌≡◌, ◌≢◌, refl, sym, ap, subst, ◌∙◌, Result, ok, err,
  ok-injective,
}
use sroiaaa.Base.Text.{Text, UnicodeTables}
use sroiaaa.Broker.Types.{RouteRequest, RoutePlan, RouteError}
use sroiaaa.Broker.Since.{Instant, Calendar}
use sroiaaa.Broker.Router.{Router, plan}
use sroiaaa.Connector.{Registry, Failure, Outcome, execute_plan}
use sroiaaa.Connector.Laws.{Runs, Stops, finished, broke, execute_plan-Stops}
use sroiaaa.Orchestrator.{
  is_retryable, allowed, Progress, refused, CallFailure, CallOutcome, after_execution, after_plan,
  after_decode, run_one_call,
}

module _ (tables : UnicodeTables) (cal : Calendar) {W E F : Type 0}
    (decode : Text → Option RouteRequest) (r : Router) (registry : Registry W E F) where
  -- How evidence comes about: a request that decodes, a plan that the router makes of it, and its steps run
  -- in order, each at the connector of its source; the audit event says so.
  pub record Evident (a b : Instant) (arguments : Text) (w : W) (out : CallOutcome W E F)
      (evidence : List E) : Type 0 where
    pub request : RouteRequest
    pub made : RoutePlan
    pub decoded : decode arguments ≡ some request
    pub planned : plan tables cal r a b request ≡ ok made
    pub ran : Runs registry made.steps w evidence out.world
    pub decision : out.progress.decision ≡ allowed
    pub logged : out.progress.plan ≡ some made

  -- Why the session ends: the router refused the request with a code that is no mistake of form, and no
  -- connector was called.
  pub record Final (a b : Instant) (arguments : Text) (w : W) (out : CallOutcome W E F)
      (failure : CallFailure F) : Type 0 where
    pub request : RouteRequest
    pub code : RouteError
    pub decoded : decode arguments ≡ some request
    pub planned : plan tables cal r a b request ≡ err code
    pub cause : failure.cause ≡ refused code
    pub settled : is_retryable code ≡ false
    pub untouched : out.world ≡ w

  not_finished : {f : Failure F} → ◌≢◌ {A = Option (Failure F)} (some f) none
  not_finished h = cc

  no_evidence :
      {x : CallFailure F} {es : List E} → ◌≢◌ {A = Result (CallFailure F) (List E)} (err x) (ok es)
  no_evidence h = cc

  -- A plan that ends without a failure ran.
  ran_whole :
      (p : RoutePlan) (w : W) (out : Outcome W E F)
      → Stops registry p.steps w out
      → out.failure ≡ none
      → Runs registry p.steps w out.evidence out.world
  ran_whole p w out (finished _ runs) h = runs
  ran_whole p w out (broke ran rest bad v f split runs fails flag) h =
      absurd (not_finished (sym flag ∙ h))

  executed-Evident :
      (s : Progress) (p : RoutePlan) (w : W) (got : List E) (failure : Option (Failure F)) (v : W)
      {evidence : List E}
      → (failure ≡ none → Runs registry p.steps w got v)
      → (after_execution s got failure v).result ≡ ok evidence
      → Runs registry p.steps w evidence (after_execution s got failure v).world
        × ((after_execution s got failure v).progress ≡ s)
  executed-Evident s p w got none v whole h =
      (subst (λ es. Runs registry p.steps w es v) (ok-injective h) (whole refl), refl)
  executed-Evident s p w got (some f) v whole h = absurd (no_evidence h)

  -- Whatever the model proposes and whatever the session did before: a call that gives evidence decoded to a
  -- request that the router made a plan of, and exactly the steps of that plan ran, in order, each at the
  -- connector registered for its source; the decision is recorded as allowed, with that plan.
  pub run_one_call-Evident :
      (a b : Instant) (arguments : Text) (s : Progress) (w : W) (evidence : List E)
      → (run_one_call tables cal decode r registry a b arguments s w).result ≡ ok evidence
      → Evident a b arguments w
          (run_one_call tables cal decode r registry a b arguments s w)
          evidence
  unfolding run_one_call
  run_one_call-Evident a b arguments s w evidence = decoding (decode arguments) refl
    where
      planning :
          (request : RouteRequest) (o : Result RouteError RoutePlan)
          → decode arguments ≡ some request
          → plan tables cal r a b request ≡ o
          → (after_plan registry o s w).result ≡ ok evidence
          → Evident a b arguments w (after_plan registry o s w) evidence
      planning request (err e) d p h = absurd (no_evidence h)
      planning request (ok made) d p h =
          let out = execute_plan registry made w in
          let (ran, same) =
            executed-Evident _ made w out.evidence out.failure out.world
              (ran_whole made w out (execute_plan-Stops registry made w)) h in
          record {
            request = request;
            made = made;
            decoded = d;
            planned = p;
            ran = ran;
            decision = ap (λ (q : Progress). q.decision) same;
            logged = ap (λ (q : Progress). q.plan) same;
          }

      decoding :
          (o : Option RouteRequest)
          → decode arguments ≡ o
          → (after_decode tables cal decode r registry a b o s w).result ≡ ok evidence
          → Evident a b arguments w (after_decode tables cal decode r registry a b o s w) evidence
      decoding none d h = absurd (no_evidence h)
      decoding (some request) d h = planning request (plan tables cal r a b request) d refl h

  -- A call after which the model may not try again was refused by the router, with a code that the session
  -- does not take for a mistake of form, and nothing was executed.
  pub run_one_call-Final :
      (a b : Instant) (arguments : Text) (s : Progress) (w : W) (failure : CallFailure F)
      → (run_one_call tables cal decode r registry a b arguments s w).result ≡ err failure
      → failure.recoverable ≡ false
      → Final a b arguments w (run_one_call tables cal decode r registry a b arguments s w) failure
  unfolding run_one_call
  run_one_call-Final a b arguments s w failure = decoding (decode arguments) refl
    where
      same_failure :
          {x : CallFailure F}
          → ◌≡◌ {A = Result (CallFailure F) (List E)} (err x) (err failure)
          → x ≡ failure
      same_failure h = cc

      lasting :
          {x : CallFailure F} → x.recoverable ≡ true → x ≡ failure → failure.recoverable ≢ false
      lasting t e n = clash (sym t ∙ ap (λ (y : CallFailure F). y.recoverable) e ∙ n)
        where
          clash : true ≢ false
          clash k = cc

      no_failure : {es : List E} → ◌≢◌ {A = Result (CallFailure F) (List E)} (ok es) (err failure)
      no_failure h = cc

      ending :
          (q : Progress) (got : List E) (o : Option (Failure F)) (v : W)
          → (after_execution q got o v).result ≡ err failure
          → failure.recoverable ≢ false
      ending q got none v h = absurd (no_failure h)
      ending q got (some f) v h = lasting refl (same_failure h)

      planning :
          (request : RouteRequest) (o : Result RouteError RoutePlan)
          → decode arguments ≡ some request
          → plan tables cal r a b request ≡ o
          → (after_plan registry o s w).result ≡ err failure
          → failure.recoverable ≡ false
          → Final a b arguments w (after_plan registry o s w) failure
      planning request (err e) d p h n =
          let same = same_failure h in
          record {
            request = request;
            code = e;
            decoded = d;
            planned = p;
            cause = ap (λ (y : CallFailure F). y.cause) (sym same);
            settled = ap (λ (y : CallFailure F). y.recoverable) same ∙ n;
            untouched = refl;
          }
      planning request (ok made) d p h n =
          let out = execute_plan registry made w in
          absurd (ending _ out.evidence out.failure out.world h n)

      decoding :
          (o : Option RouteRequest)
          → decode arguments ≡ o
          → (after_decode tables cal decode r registry a b o s w).result ≡ err failure
          → failure.recoverable ≡ false
          → Final a b arguments w (after_decode tables cal decode r registry a b o s w) failure
      decoding none d h n = absurd (lasting refl (same_failure h) n)
      decoding (some request) d h n = planning request (plan tables cal r a b request) d refl h n
