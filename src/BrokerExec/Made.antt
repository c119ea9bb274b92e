-- ===== src/BrokerExec/Made.antt =====
-- cmd/sroiaaa-broker-exec/main.go: which connectors buildConnectors makes.
use sroiaaa.Base.{
  not, all, ◌||◌, Bool, true, false, [], ◌∷◌, All, All-append, Option, none, some, List, ◌≡◌, refl,
  ap, subst, Result, ok, bind-ok, ok-injective, refuse_if,
}
use sroiaaa.Base.Int.{ℤ}
use sroiaaa.Base.Text.{Text, codes, is_empty}
use sroiaaa.Broker.Types.{
  wazuh_api, zabbix_api, sroiaaa_agent, pegasus_db, request_tracker, RouteStep,
}
use sroiaaa.Connector.{Connector}
use sroiaaa.BrokerExec.{
  Options, Makers, ExecError, agent_setup, is_none_left, implemented, zabbix_setup, wazuh_setup,
  pegasus_setup, rt_setup, no_implementation, needs, split_list, positive_setting, if_needed,
  build_zabbix, build_wazuh, build_pegasus, build_rt, some_or_refuse, build_connectors,
}

pub some_or_refuse-ok :
    {A E : Type 0} (o : Option A) (e : E) {a : A} → some_or_refuse o e ≡ ok a → o ≡ some a
some_or_refuse-ok (some b) e h = ap some (ok-injective h)
some_or_refuse-ok none e h = cc

module _ {W E F : Type 0} (makers : Makers W E F) (options : Options) (env : Text → Text)
    (atoi : Text → Option ℤ) where
  -- A connector that a part of buildConnectors made: the one that package connector gives for the
  -- endpoint of the flags and the secrets of the environment, of a source that a step names.
  pub data IsMade (steps : List RouteStep) (c : Connector W E F) : Type 0 where
    of_zabbix :
        needs steps zabbix_api ≡ true
        → makers.zabbix options.zabbix_endpoint (env (codes "ZABBIX_RO_TOKEN")) ≡ some c
        → IsMade steps c
    of_wazuh :
        needs steps wazuh_api ≡ true
        → makers.wazuh options.wazuh_endpoint
            (env (codes "WAZUH_API_USERNAME"))
            (env (codes "WAZUH_API_PASSWORD"))
            options.wazuh_insecure
            (split_list (env (codes "SROIAAA_WAZUH_CRITICAL_GROUPS")))
          ≡ some c
        → IsMade steps c
    of_pegasus :
        needs steps pegasus_db ≡ true
        → makers.pegasus
            (env (codes "SROIAAA_PEGASUS_DSN"))
            (positive_setting atoi (env (codes "SROIAAA_PEGASUS_MAX_ROWS")))
            (positive_setting atoi (env (codes "SROIAAA_PEGASUS_MAX_BYTES")))
          ≡ some c
        → IsMade steps c
    of_rt :
        needs steps request_tracker ≡ true
        → makers.rt options.rt_endpoint
            (env (codes "RT_API_TOKEN"))
            (split_list (env (codes "SROIAAA_RT_QUEUES")))
          ≡ some c
        → IsMade steps c
    of_agents :
        needs steps sroiaaa_agent ≡ true
        → makers.agents (env (codes "SROIAAA_AGENT_CONFIG")) ≡ some c
        → IsMade steps c

  if_needed-All :
      (P : Connector W E F → Type 0) (b : Bool) (made : Result (ExecError F) (Connector W E F))
      {cs : List (Connector W E F)}
      → if_needed b made ≡ ok cs
      → ((c : Connector W E F) → b ≡ true → made ≡ ok c → P c)
      → All P cs
  if_needed-All P false made h k = subst (All P) (ok-injective h) tt
  if_needed-All P true made h k =
      let (c, e, h1) = bind-ok made (λ c. ok (c ∷ [])) h in
      subst (All P) (ok-injective h1) (k c refl e, tt)

  build_zabbix-IsMade :
      (steps : List RouteStep) (c : Connector W E F)
      → needs steps zabbix_api ≡ true
      → build_zabbix makers options env atoi ≡ ok c
      → IsMade steps c
  build_zabbix-IsMade steps c n k =
      let (_, _, k1) = bind-ok (refuse_if (is_empty options.zabbix_endpoint) zabbix_setup) _ k in
      let (_, _, k2) =
        bind-ok (refuse_if (is_empty (env (codes "ZABBIX_RO_TOKEN"))) zabbix_setup) _ k1 in
      of_zabbix n (some_or_refuse-ok _ zabbix_setup k2)

  build_wazuh-IsMade :
      (steps : List RouteStep) (c : Connector W E F)
      → needs steps wazuh_api ≡ true
      → build_wazuh makers options env atoi ≡ ok c
      → IsMade steps c
  build_wazuh-IsMade steps c n k =
      let (_, _, k1) = bind-ok (refuse_if (is_empty options.wazuh_endpoint) wazuh_setup) _ k in
      let (_, _, k2) =
        bind-ok
          (refuse_if
            (is_empty (env (codes "WAZUH_API_USERNAME"))
              || is_empty (env (codes "WAZUH_API_PASSWORD")))
            wazuh_setup)
          _ k1 in
      of_wazuh n (some_or_refuse-ok _ wazuh_setup k2)

  build_pegasus-IsMade :
      (steps : List RouteStep) (c : Connector W E F)
      → needs steps pegasus_db ≡ true
      → build_pegasus makers options env atoi ≡ ok c
      → IsMade steps c
  build_pegasus-IsMade steps c n k =
      let (_, _, k1) =
        bind-ok (refuse_if (is_empty (env (codes "SROIAAA_PEGASUS_DSN"))) pegasus_setup) _ k in
      of_pegasus n (some_or_refuse-ok _ pegasus_setup k1)

  build_rt-IsMade :
      (steps : List RouteStep) (c : Connector W E F)
      → needs steps request_tracker ≡ true
      → build_rt makers options env atoi ≡ ok c
      → IsMade steps c
  build_rt-IsMade steps c n k =
      let (_, _, k1) = bind-ok (refuse_if (is_empty options.rt_endpoint) rt_setup) _ k in
      let (_, _, k2) = bind-ok (refuse_if (is_empty (env (codes "RT_API_TOKEN"))) rt_setup) _ k1 in
      let (_, _, k3) =
        bind-ok (refuse_if (is_none_left (split_list (env (codes "SROIAAA_RT_QUEUES")))) rt_setup) _
          k2 in
      of_rt n (some_or_refuse-ok _ rt_setup k3)

  pub build_connectors-IsMade :
      (steps : List RouteStep) {built : List (Connector W E F)}
      → build_connectors makers options env atoi steps ≡ ok built
      → All (IsMade steps) built
  unfolding build_connectors
  build_connectors-IsMade steps h =
      let (zabbix, e0, h0) = bind-ok (if_needed (needs steps zabbix_api) _) _ h in
      let (wazuh, e1, h1) = bind-ok (if_needed (needs steps wazuh_api) _) _ h0 in
      let (pegasus, e2, h2) = bind-ok (if_needed (needs steps pegasus_db) _) _ h1 in
      let (rt, e3, h3) = bind-ok (if_needed (needs steps request_tracker) _) _ h2 in
      let (agents, e4, h4) = bind-ok (if_needed (needs steps sroiaaa_agent) _) _ h3 in
      let (_, _, h5) =
        bind-ok (refuse_if (not (all (λ step. implemented step.source) steps)) no_implementation) _
          h4 in
      subst (All (IsMade steps)) (ok-injective h5) (
        All-append (IsMade steps) zabbix _ (if_needed-All _ _ _ e0 (build_zabbix-IsMade steps)) (
          All-append (IsMade steps) wazuh _ (if_needed-All _ _ _ e1 (build_wazuh-IsMade steps)) (
            All-append (IsMade steps) pegasus _
              (if_needed-All _ _ _ e2 (build_pegasus-IsMade steps))
              (All-append (IsMade steps) rt agents (if_needed-All _ _ _ e3 (build_rt-IsMade steps))
                (if_needed-All _ _ _ e4
                  (λ c n k. of_agents n (some_or_refuse-ok _ agent_setup k)))))))
