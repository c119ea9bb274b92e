-- ===== src/Connector/Zabbix/Filters.antt =====
-- internal/connector/zabbix.go: every request that an execution sends asks about the rows of its step.
use sroiaaa.Base.{
  any, ℕ, false, not, ◌&&◌, Option, List, [], ◌∷◌, ◌≡◌, refl, arith, ok, if-cases, length, leb,
}
use sroiaaa.Base.Int.{ℤ, pos, eq_nat, ◌+ℤ◌}
use sroiaaa.Base.Text.{Text, UnicodeTables, is_empty, put, text_eq, member}
use sroiaaa.Broker.Types.{RouteStep}
use sroiaaa.Connector.Attempt.{Attempt}
use sroiaaa.Connector.Attempt.Effects.{
  Sends, Sent-more, done-Sends, fail_if-Sends, found-Sends, bind-Sends, lifted-bind-Sends,
  send_request-Sends,
}
use sroiaaa.Connector.Evidence.{Evidence}
use sroiaaa.Connector.Zabbix.Selectors.{
  Params, Method, trigger_get, event_get, host_get, page_keys, count_keys, time_keys, without,
}
use sroiaaa.Connector.Zabbix.Selectors.Laws.{Keeps, put-Keeps, without-Keeps}
use sroiaaa.Connector.Zabbix.Calls.{
  ZabbixRequest, zabbix_request, Envelope, ZabbixHost, raw_call, call_for, count_params,
  count_matching, level_params, level_names, count_each, exact_census, census_params, census,
  host_census_params, host_census, known_params, host_exists, max_census_rows,
}
use sroiaaa.Connector.Zabbix.{
  with_hosts, with_comparison, with_known, execute_triggers, execute_events, execute_method,
  zabbix_execute,
}
use sroiaaa.Connector.Zabbix.Queries.{Moment, zabbix_limit, triggers_of, events_of}

module _ (tables : UnicodeTables) (step : RouteStep) where
  -- The queries of a step: its host, its bounds and its selectors, as the method spells them.
  pub data IsQuery : Method → Params → Type 0 where
    of_triggers :
        (limit : ℕ) (since until : Option Moment) (params : Params)
        → triggers_of tables step limit since until ≡ ok params
        → IsQuery trigger_get params
    of_events :
        (limit : ℕ) (from till : Option Moment) (params : Params)
        → events_of tables step limit from till ≡ ok params
        → IsQuery event_get params

  -- A request about the rows of the step: of its method, with the same filters as its query, its bounds in
  -- time included; or, where the step has such a bound, the count of its query without them; or the
  -- question whether its host is known.
  pub data IsAbout : ZabbixRequest → Type 0 where
    rows :
        (method : Method) (query params : Params)
        → IsQuery method query
        → Keeps query params
        → IsAbout (zabbix_request method params)
    comparison :
        (query : Params)
        → (is_empty step.since && is_empty step.until) ≡ false
        → IsQuery trigger_get query
        → IsAbout (zabbix_request trigger_get (count_params (without time_keys query)))
    known : IsAbout (zabbix_request host_get (known_params step.host))

  module _ {W : Type 0} (host : ZabbixHost W) where
    abbrev Asks : {A : Type 0} → ℕ → Attempt W A → Type 0
    Asks = Sends host.http IsAbout

    raw_call-Asks :
        (method : Method) (params : Params)
        → IsAbout (zabbix_request method params)
        → Asks 1 (raw_call host method params)
    unfolding raw_call
    raw_call-Asks method params h =
        bind-Sends host.http IsAbout {k = 1} _ _ (fail_if-Sends host.http IsAbout _ _) (λ _.
          bind-Sends host.http IsAbout {k = 1} _ _ (fail_if-Sends host.http IsAbout _ _) (λ _.
            bind-Sends host.http IsAbout {k = 0} _ _ (send_request-Sends host.http IsAbout _ h)
              (λ reply.
                bind-Sends host.http IsAbout {k = 0} _ _ (fail_if-Sends host.http IsAbout _ _) (λ _.
                  bind-Sends host.http IsAbout {k = 0} _ _ (found-Sends host.http IsAbout _ _)
                    (λ body.
                      bind-Sends host.http IsAbout {k = 0} _ _ (fail_if-Sends host.http IsAbout _ _)
                        (λ _. done-Sends host.http IsAbout _))))))

    call_for-Asks :
        {A : Type 0} (decode : List ℕ → Option (Envelope A)) (method : Method) (params : Params)
        → IsAbout (zabbix_request method params)
        → Asks 1 (call_for host decode method params)
    unfolding call_for
    call_for-Asks decode method params h =
        bind-Sends host.http IsAbout {k = 0} _ _ (raw_call-Asks method params h) (λ body.
          bind-Sends host.http IsAbout {k = 0} _ _ (found-Sends host.http IsAbout _ _) (λ envelope.
            bind-Sends host.http IsAbout {k = 0} _ _ (fail_if-Sends host.http IsAbout _ _)
              (λ _. done-Sends host.http IsAbout _)))

    count-Asks :
        (method : Method) (params : Params)
        → IsAbout (zabbix_request method (count_params params))
        → Asks 1 (count_matching host method params)
    unfolding count_matching
    count-Asks method params h =
        bind-Sends host.http IsAbout {k = 0} _ _
          (call_for-Asks host.decode_count method (count_params params) h)
          (λ result. found-Sends host.http IsAbout _ _)

    module _ (method : Method) (query : Params) (of_step : IsQuery method query) where
      count_matching-Asks :
          (params : Params) → Keeps query params → Asks 1 (count_matching host method params)
      unfolding member text_eq any
      count_matching-Asks params h = count-Asks method params (
          rows method query _ of_step
            (put-Keeps query _ _ _ refl (without-Keeps query params count_keys refl h)))

      count_each-Asks :
          (levels : List (ℕ × Text)) (total : ℤ) (counts : List (Text × ℤ))
          → Asks (length levels) (count_each host method query levels total counts)
      unfolding count_each member text_eq any
      count_each-Asks [] total counts w = done-Sends host.http IsAbout _ w
      count_each-Asks ((level, name) ∷ levels) total counts w =
          Sent-more host.http IsAbout (omega arith) (
            bind-Sends host.http IsAbout {k = length levels} _ _
              (count_matching-Asks (level_params method level query) (
                put-Keeps query _ _ _ refl (
                  put-Keeps query _ _ _ refl
                    (without-Keeps query query count_keys refl (λ key m. refl)))))
              (λ count. count_each-Asks levels (total +ℤ count) (put name count counts)) w)

      census-Asks : Asks 7 (census host method query)
      unfolding census exact_census member text_eq any
      census-Asks =
          bind-Sends host.http IsAbout {k = 6} _ _
            (call_for-Asks host.decode_levels method (census_params method query) (
              rows method query _ of_step (
                put-Keeps query _ _ _ refl (
                  put-Keeps query _ _ _ refl
                    (without-Keeps query query page_keys refl (λ key m. refl))))))
            (λ found_rows.
              if-cases (Asks 6) (leb max_census_rows (length found_rows))
                (λ _. count_each-Asks level_names (pos 0) [])
                (λ _ w.
                  Sent-more host.http IsAbout (omega arith) (done-Sends host.http IsAbout _ w)))

      host_census-Asks : Asks 1 (host_census host method query)
      unfolding host_census member text_eq any
      host_census-Asks =
          bind-Sends host.http IsAbout {k = 0} _ _
            (call_for-Asks host.decode_hosts method (host_census_params method query) (
              rows method query _ of_step (
                put-Keeps query _ _ _ refl (
                  put-Keeps query _ _ _ refl (
                    put-Keeps query _ _ _ refl (
                      put-Keeps query _ _ _ refl (
                        put-Keeps query _ _ _ refl
                          (without-Keeps query query count_keys refl (λ key m. refl)))))))))
            (λ found_rows. done-Sends host.http IsAbout _)

    host_exists-Asks : Asks 1 (host_exists host step.host)
    unfolding host_exists
    host_exists-Asks =
        bind-Sends host.http IsAbout {k = 0} _ _
          (raw_call-Asks host_get (known_params step.host) known)
          (λ body.
            bind-Sends host.http IsAbout {k = 0} _ _ (found-Sends host.http IsAbout _ _)
              (λ count. done-Sends host.http IsAbout _))

    module _ (parse : Text → Option Moment) (endpoint : Text) where
      with_known-Asks :
          (total : ℤ) (summary : List (Text × ℤ))
          → Asks 1 (with_known tables host parse endpoint step total summary)
      unfolding with_known
      with_known-Asks total summary =
          if-cases (Asks 1) (not (is_empty step.host) && eq_nat total 0)
            (λ _.
              bind-Sends host.http IsAbout {k = 0} _ _ host_exists-Asks
                (λ known. done-Sends host.http IsAbout _))
            (λ _ w. Sent-more host.http IsAbout (omega arith) (done-Sends host.http IsAbout _ w))

      with_hosts-Asks :
          (method : Method) (query : Params) (total : ℤ) (e : Evidence)
          → IsQuery method query
          → Asks 1 (with_hosts tables host parse endpoint method query total e)
      unfolding with_hosts
      with_hosts-Asks method query total e of_step =
          if-cases (Asks 1) e.truncated
            (λ _.
              bind-Sends host.http IsAbout {k = 0} _ _ (host_census-Asks method query of_step)
                (λ r. done-Sends host.http IsAbout _))
            (λ _ w. Sent-more host.http IsAbout (omega arith) (done-Sends host.http IsAbout _ w))

      with_comparison-Asks :
          (query : Params) (bounded : ℤ) (e : Evidence)
          → IsQuery trigger_get query
          → Asks 1 (with_comparison tables host parse endpoint step query bounded e)
      unfolding with_comparison
      with_comparison-Asks query bounded e of_step =
          if-cases (Asks 1) (is_empty step.since && is_empty step.until)
            (λ _ w. Sent-more host.http IsAbout (omega arith) (done-Sends host.http IsAbout _ w))
            (λ bounded_step.
              bind-Sends host.http IsAbout {k = 0} _ _
                (count-Asks trigger_get _ (comparison query bounded_step of_step))
                (λ total. done-Sends host.http IsAbout _))

      execute_triggers-Asks :
          (limit : ℕ) → Asks 11 (execute_triggers tables host parse endpoint step limit)
      unfolding execute_triggers
      execute_triggers-Asks limit = lifted-bind-Sends host.http IsAbout _ _ (λ since _.
          lifted-bind-Sends host.http IsAbout _ _ (λ until _.
            lifted-bind-Sends host.http IsAbout _ _ (λ params made.
              let of_step = of_triggers limit since until params made in
              bind-Sends host.http IsAbout {k = 10} _ _
                (call_for-Asks _ trigger_get params
                  (rows trigger_get params params of_step (λ key m. refl)))
                (λ triggers.
                  bind-Sends host.http IsAbout {k = 3} _ _ (census-Asks trigger_get params of_step)
                    (λ counted.
                      bind-Sends host.http IsAbout {k = 2} _ _ (with_known-Asks counted.0 _)
                        (λ summary.
                          bind-Sends host.http IsAbout {k = 1} _ _
                            (with_hosts-Asks trigger_get params counted.0 _ of_step)
                            (λ e. with_comparison-Asks params counted.0 e of_step)))))))

      execute_events-Asks :
          (limit : ℕ) → Asks 11 (execute_events tables host parse endpoint step limit)
      unfolding execute_events
      execute_events-Asks limit = lifted-bind-Sends host.http IsAbout _ _ (λ from _.
          lifted-bind-Sends host.http IsAbout _ _ (λ till _.
            lifted-bind-Sends host.http IsAbout _ _ (λ params made w.
              let of_step = of_events limit from till params made in
              Sent-more host.http IsAbout (omega arith) (
                bind-Sends host.http IsAbout {k = 8} _ _
                  (call_for-Asks _ event_get params
                    (rows event_get params params of_step (λ key m. refl)))
                  (λ events.
                    bind-Sends host.http IsAbout {k = 1} _ _ (census-Asks event_get params of_step)
                      (λ counted. with_hosts-Asks event_get params counted.0 _ of_step))
                  w))))

      pub zabbix_execute-Asks : Asks 11 (zabbix_execute tables host parse endpoint step)
      unfolding zabbix_execute
      zabbix_execute-Asks =
          bind-Sends host.http IsAbout {k = 11} _ _ (fail_if-Sends host.http IsAbout _ _) (λ _.
            bind-Sends host.http IsAbout {k = 11} _ _ (found-Sends host.http IsAbout _ _)
              (λ method. by_method method))
        where
          by_method :
              (method : Method)
              → Asks 11
                  (execute_method tables host parse endpoint method step (zabbix_limit step.limit))
          by_method event_get = execute_events-Asks (zabbix_limit step.limit)
          by_method trigger_get = execute_triggers-Asks (zabbix_limit step.limit)
          by_method host_get = execute_triggers-Asks (zabbix_limit step.limit)
