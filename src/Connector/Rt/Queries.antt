-- ===== src/Connector/Rt/Queries.antt =====
-- internal/connector/rt.go: the requests that an execution sends.
use sroiaaa.Base.{
  ℕ, ◌+◌, ◌≤◌, Bool, true, false, Option, none, some, List, [], ◌∷◌, ◌≡◌, refl, sym, ap, subst,
  arith, Result, ok, err, ok-injective, if-cases, ltb, ◌==◌, length, All,
}
use sroiaaa.Base.Int.{ℤ}
use sroiaaa.Base.Text.{Text, codes, member, is_empty, kept_parts}
use sroiaaa.Base.Text.Laws.{text_eq_refl}
use sroiaaa.Broker.Types.{RouteStep}
use sroiaaa.Connector.Attempt.{Attempt}
use sroiaaa.Connector.Attempt.Effects.{
  Sent, Sends, Sent-more, done-Sends, lifted-Sends, fail_if-Sends, found-Sends, bind-Sends,
  round_trip-Sends,
}
use sroiaaa.Connector.Rt.{
  max_rt_queue_census, tickets_path, RtConfig, RtConnector, RtConfigError, checked_url, after_url,
  rt_connector, new_rt_connector, RtRequest, RtHost, rt_date_bound, get_ok, count_values, search,
  counted, census, queue_census, owner_census, with_queues, with_owners, rt_execute,
}
use sroiaaa.Connector.Rt.Query.{ticket_search_query}
use sroiaaa.Connector.Rt.Tickets.Owners.{owners_on_page-OwnersOf}

-- A search of tickets, for the host of the step, in queues of the allowlist and in at least one.
pub record IsSearch (queues : List Text) (step : RouteStep) (q : RtRequest) : Type 0 where
  pub owner : Text
  pub since : Text
  pub until : Text
  pub searched : List Text
  pub others : List (Text × Text)
  pub at_tickets : q.path ≡ tickets_path
  pub searches :
      q.values ≡ (codes "query", ticket_search_query step.host owner since until searched) ∷ others
  pub allowed : All (λ queue. member queue queues ≡ true) searched
  pub some_queue : 1 ≤ length searched

all_members :
    (queues part : List Text)
    → ((queue : Text) → member queue part ≡ true → member queue queues ≡ true)
    → All (λ queue. member queue queues ≡ true) part
unfolding member
all_members queues [] h = tt
all_members queues (queue ∷ part) h =
    let self = text_eq_refl queue in
    (h queue (ground arith), all_members queues part (λ q m. h q (ground arith)))

All-map :
    (P Q : Text → Type 0)
    → ((name : Text) → P name → Q name)
    → (names : List Text) → All P names
    → All Q names
All-map P Q f [] h = tt
All-map P Q f (name ∷ names) h = (f name h.0, All-map P Q f names h.1)

all_units : (names : List Text) → All (λ o. Unit {0}) names
all_units [] = tt
all_units (name ∷ names) = (tt, all_units names)

module _ {W : Type 0} (host : RtHost W) (c : RtConnector) (step : RouteStep) where
  abbrev Searches : {A : Type 0} → ℕ → Attempt W A → Type 0
  Searches = Sends host.http (IsSearch c.queues step)

  get_ok-Searches :
      (values : List (Text × Text))
      → IsSearch c.queues step (record { path = tickets_path; values = values })
      → Searches 1 (get_ok host c values)
  unfolding get_ok
  get_ok-Searches values h =
      bind-Sends host.http _ {k = 0} _ _ (round_trip-Sends host.http _ c.max_response_bytes _ h)
        (λ reply.
          bind-Sends host.http _ {k = 0} _ _ (fail_if-Sends host.http _ _ _)
            (λ _. done-Sends host.http _ _))

  whole_list :
      (owner since until : Text) (others : List (Text × Text))
      → 1 ≤ length c.queues
      → IsSearch c.queues step (record {
        path = tickets_path;
        values = (codes "query", ticket_search_query step.host owner since until c.queues) ∷ others;
      })
  whole_list owner since until others h = record {
    owner = owner;
    since = since;
    until = until;
    searched = c.queues;
    others = others;
    at_tickets = refl;
    searches = refl;
    allowed = all_members c.queues c.queues (λ q m. m);
    some_queue = h;
  }

  one_queue :
      (queue since until : Text) (others : List (Text × Text))
      → member queue c.queues ≡ true
      → IsSearch c.queues step (record {
        path = tickets_path;
        values =
            (codes "query", ticket_search_query step.host [] since until (queue ∷ [])) ∷ others;
      })
  one_queue queue since until others h = record {
    owner = [];
    since = since;
    until = until;
    searched = queue ∷ [];
    others = others;
    at_tickets = refl;
    searches = refl;
    allowed = (h, tt);
    some_queue = omega arith;
  }

  census-Searches :
      (query : Text → Text) (names : List Text) (counts : List (Text × ℕ))
      → All
          (λ name.
            IsSearch c.queues step
              (record { path = tickets_path; values = count_values host c (query name) }))
          names
      → Searches (length names) (census host c query names counts)
  unfolding census
  census-Searches query [] counts h w = done-Sends host.http _ counts w
  census-Searches query (name ∷ names) counts h w = Sent-more host.http _ (omega arith) (
      bind-Sends host.http _ {k = 0 + length names} _ _ (get_ok-Searches _ h.0)
        (λ body.
          bind-Sends host.http _ _ _ (found-Sends host.http _ _ _)
            (λ total. census-Searches query names (counted name total counts) h.1))
        w)

  queue_census-Searches :
      (since until : Text) → Searches (length c.queues) (queue_census host c step.host since until)
  unfolding queue_census
  queue_census-Searches since until = census-Searches _ c.queues [] (
      All-map _ _ (λ queue h. one_queue queue since until _ h) c.queues
        (all_members c.queues c.queues (λ q m. m)))

  owner_census-Searches :
      (owners : List Text) (since until : Text)
      → 1 ≤ length c.queues
      → Searches (length owners) (owner_census host c owners step.host since until)
  unfolding owner_census
  owner_census-Searches owners since until h = census-Searches _ owners [] (
      All-map (λ o. Unit {0}) _ (λ owner _. whole_list owner since until _ h) owners
        (all_units owners))

  with_queues-Searches :
      (since until : Text) → Searches 20 (with_queues host c step.host since until)
  unfolding with_queues
  with_queues-Searches since until =
      if-cases (Searches 20) (ltb max_rt_queue_census (length c.queues))
        (λ _ w. Sent-more host.http _ (omega arith) (done-Sends host.http _ _ w))
        (λ e w. Sent-more host.http _ (ground (arith, e)) (
          bind-Sends host.http _ {k = 0} _ _ (queue_census-Searches since until)
            (λ counts. done-Sends host.http _ _) w))

  with_owners-Searches :
      (owners : List Text × Bool) (since until : Text) (total : ℤ)
      → length owners.0 ≤ 20
      → 1 ≤ length c.queues
      → Searches 20 (with_owners host c owners step.host since until total)
  with_owners-Searches ([], capped) since until total few h w =
      Sent-more host.http _ (omega arith) (done-Sends host.http _ _ w)
  with_owners-Searches (owner ∷ owners, capped) since until total few h w =
      Sent-more host.http _ (omega (arith, few)) (
        bind-Sends host.http _ {k = 0} _ _ (owner_census-Searches (owner ∷ owners) since until h)
          (λ counts. done-Sends host.http _ _) w)

  search-Searches :
      (since until : Text) (limit : ℤ)
      → 1 ≤ length c.queues
      → Searches 1 (search host c (ticket_search_query step.host [] since until c.queues) limit)
  unfolding search
  search-Searches since until limit h =
      bind-Sends host.http _ {k = 0} _ _ (get_ok-Searches _ (whole_list [] since until _ h))
        (λ body. bind-Sends host.http _ {k = 0} _ _ (found-Sends host.http _ _ _) (λ envelope.
          bind-Sends host.http _ {k = 0} _ _ (lifted-Sends host.http _ _)
            (λ tickets. done-Sends host.http _ _)))

  date_bound-Searches : (value : Text) → Searches 0 (rt_date_bound host value)
  unfolding rt_date_bound
  date_bound-Searches [] = done-Sends host.http _ []
  date_bound-Searches (d ∷ s) =
      bind-Sends host.http _ {k = 0} _ _ (found-Sends host.http _ _ _)
        (λ moment. done-Sends host.http _ _)

  rt_execute-Searches : 1 ≤ length c.queues → Searches 41 (rt_execute host c step)
  unfolding rt_execute
  rt_execute-Searches h = bind-Sends host.http _ {k = 41} _ _ (fail_if-Sends host.http _ _ _) (λ _.
      bind-Sends host.http _ {k = 41} _ _ (fail_if-Sends host.http _ _ _) (λ _.
        bind-Sends host.http _ {k = 41} _ _ (date_bound-Searches step.since) (λ since.
          bind-Sends host.http _ {k = 41} _ _ (date_bound-Searches step.until) (λ until.
            bind-Sends host.http _ {k = 40} _ _ (search-Searches since until _ h) (λ page.
              bind-Sends host.http _ {k = 20} _ _ (with_queues-Searches since until) (λ queues.
                bind-Sends host.http _ {k = 0} _ _
                  (with_owners-Searches _ since until page.1 (owners_on_page-OwnersOf page.0).few h)
                  (λ owners. done-Sends host.http _ _)))))))

-- The queues of a connector that was made.
abbrev IsMade : RtConfig → Result RtConfigError RtConnector → Type 0
IsMade config r =
    (c : RtConnector)
    → r ≡ ok c
    → (c.queues ≡ kept_parts config.queues) × (1 ≤ length (kept_parts config.queues))

refused-IsMade : (config : RtConfig) (e : RtConfigError) → IsMade config (err e)
refused-IsMade config e c h = absurd (cc)

new_rt_connector-IsMade :
    (parse_url : Text → Option (Text × Text)) (config : RtConfig)
    → IsMade config (new_rt_connector parse_url config)
unfolding new_rt_connector
new_rt_connector-IsMade parse_url config =
    if-cases (IsMade config) (is_empty config.endpoint) (λ _. refused-IsMade config _)
      (λ _. at_url (checked_url (parse_url config.endpoint)))
  where
    kept : length (kept_parts config.queues) == 0 ≡ false → IsMade config (ok (rt_connector config))
    kept n c h = (ap (λ (d : RtConnector). d.queues) (sym (ok-injective h)), ground (arith, n))

    at_url : (o : Option RtConfigError) → IsMade config (after_url config o)
    at_url (some e) = refused-IsMade config e
    at_url none =
        if-cases (IsMade config) (is_empty config.token) (λ _. refused-IsMade config _)
          (λ _.
            if-cases (IsMade config) (length (kept_parts config.queues) == 0)
              (λ _. refused-IsMade config _) kept)

-- Whatever RT answers: an execution sends at most 41 requests and does nothing else. Each is a search of the
-- tickets path for the host of the step, in at least one queue, all of them on the allowlist of the configuration.
pub rt_execute-Sent :
    {W : Type 0} (host : RtHost W) (parse_url : Text → Option (Text × Text)) (config : RtConfig)
    (c : RtConnector) (step : RouteStep) (w : W)
    → new_rt_connector parse_url config ≡ ok c
    → Sent host.http (IsSearch (kept_parts config.queues) step) 41 w (rt_execute host c step w).1
rt_execute-Sent host parse_url config c step w h =
    let (same, some_queue) = new_rt_connector-IsMade parse_url config c h in
    subst (λ queues. Sent host.http (IsSearch queues step) 41 w (rt_execute host c step w).1) same
      (rt_execute-Searches host c step (subst (λ queues. 1 ≤ length queues) (sym same) some_queue)
        w)
