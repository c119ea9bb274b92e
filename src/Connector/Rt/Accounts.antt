-- ===== src/Connector/Rt/Accounts.antt =====
-- internal/connector/rt.go: what the counts of an evidence account for.
use mathlib.Core.List.{map}
use sroiaaa.Base.{
  ℕ, ok, Bool, true, false, some, List, [], ◌∷◌, ◌≡◌, ◌⊎◌, inl, inr, refl, subst, some_inj,
  if◌then◌else◌, if-cases, ltb, any, length,
}
use sroiaaa.Base.Int.{ℤ, above}
use sroiaaa.Base.Text.{Text, codes, lookup, text_eq}
use sroiaaa.Broker.Types.{RouteStep}
use sroiaaa.Connector.Attempt.Laws.{
  Ensures, done-Ensures, bind-Ensures, skip-Ensures, Gave, known-Ensures, found-Ensures,
  lifted_known-Ensures,
}
use sroiaaa.Connector.Evidence.{
  sum_counts, EvidenceItem, Warning, queue_census_skipped, owners_capped, owners_floor, Evidence,
}
use sroiaaa.Connector.Rt.{
  max_rt_queue_census, RtConnector, SearchJson, get_ok, search_values, search, rt_limit, RtHost,
  Added, with_queues, owner_warnings, with_owners, rt_evidence, rt_execute,
}
use sroiaaa.Connector.Rt.Tickets.{RtTicket, decode_tickets, normalize_ticket, owners_on_page}

abbrev pub is_owner_warning : Warning → Bool
is_owner_warning (owners_capped accounted total) = true
is_owner_warning (owners_floor accounted total) = true
is_owner_warning _ = false

abbrev pub is_queue_warning : Warning → Bool
is_queue_warning (queue_census_skipped queues) = true
is_queue_warning _ = false

-- The items and the total of a page are those of a response that RT gave to a search of this query.
pub record IsPage {W : Type 0} (host : RtHost W) (c : RtConnector) (step : RouteStep) (query : Text)
    (items : List EvidenceItem) (total : ℤ) : Type 0 where
  pub body : List ℕ
  pub envelope : SearchJson
  pub tickets : List RtTicket
  pub asked : Gave (get_ok host c (search_values host c query (rt_limit step.limit))) body
  pub decoded : host.decode_search body ≡ some envelope
  pub read : decode_tickets envelope.items ≡ ok tickets
  pub items_eq : items ≡ map normalize_ticket tickets
  pub total_eq : total ≡ envelope.total

-- What an evidence of tickets says of RT and of itself is so.
pub record IsHonest {W : Type 0} (host : RtHost W) (c : RtConnector) (step : RouteStep)
    (e : Evidence) : Type 0 where
  pub page : IsPage host c step e.query e.items e.total_available
  pub counted : e.item_count ≡ length e.items
  pub truncated : e.truncated ≡ above e.total_available (length e.items)
  -- No breakdown by queue, and a warning of it; or the breakdown.
  pub by_queue :
      (any is_queue_warning e.warnings ≡ true)
      ⊎ ((counts : List (Text × ℕ)) × (lookup (codes "tickets_by_queue") e.breakdown ≡ some counts))
  -- A breakdown by owner without a warning of it counts as many tickets as there are.
  pub by_owner :
      (counts : List (Text × ℕ))
      → lookup (codes "tickets_by_owner") e.breakdown ≡ some counts
      → any is_owner_warning e.warnings ≡ false
      → above e.total_available (sum_counts counts) ≡ false

data QueuesAdded : Added → Type 0 where
  skipped : (queues : ℕ) → QueuesAdded (queue_census_skipped queues ∷ [], [])
  by_queue : (counts : List (Text × ℕ)) → QueuesAdded ([], (codes "tickets_by_queue", counts) ∷ [])

data OwnersAdded (total : ℤ) : Added → Type 0 where
  no_owner : OwnersAdded total ([], [])
  by_owner :
      (capped : Bool) (counts : List (Text × ℕ))
      → OwnersAdded total
          (owner_warnings capped (sum_counts counts) total, (codes "tickets_by_owner", counts) ∷ [])

owner_warnings-exact :
    (capped : Bool) (accounted : ℕ) (total : ℤ)
    → any is_owner_warning (owner_warnings capped accounted total) ≡ false
    → above total accounted ≡ false
unfolding any
owner_warnings-exact true accounted total h = cc
owner_warnings-exact false accounted total h = go (above total accounted) h
  where
    go :
        (b : Bool)
        → any is_owner_warning (if b then owners_floor accounted total ∷ [] else []) ≡ false
        → b ≡ false
    go true k = cc
    go false k = refl

owner_warnings-queue :
    (capped : Bool) (accounted : ℕ) (total : ℤ)
    → any is_queue_warning (owner_warnings capped accounted total) ≡ false
unfolding any
owner_warnings-queue true accounted total = refl
owner_warnings-queue false accounted total =
    if-cases (λ ws. any is_queue_warning ws ≡ false) (above total accounted) (λ _. refl) (λ _. refl)

module _ {W : Type 0} (host : RtHost W) (c : RtConnector) (step : RouteStep) where
  search-IsPage :
      (query : Text)
      → Ensures
          (λ page. IsPage host c step query page.0 page.1)
          (search host c query (rt_limit step.limit))
  unfolding search
  search-IsPage query = known-Ensures _ _ _ (λ body asked.
      found-Ensures _ _ _ _ (λ envelope decoded. lifted_known-Ensures _ _ _ (λ tickets read.
        done-Ensures _ _ (record {
          body = body;
          envelope = envelope;
          tickets = tickets;
          asked = asked;
          decoded = decoded;
          read = read;
          items_eq = refl;
          total_eq = refl;
        }))))

  with_queues-Added :
      (name since until : Text) → Ensures QueuesAdded (with_queues host c name since until)
  unfolding with_queues
  with_queues-Added name since until =
      if-cases (Ensures QueuesAdded) (ltb max_rt_queue_census (length c.queues))
        (λ _. done-Ensures _ _ (skipped (length c.queues)))
        (λ _. skip-Ensures _ _ _ (λ counts. done-Ensures _ _ (by_queue counts)))

  with_owners-Added :
      (owners : List Text × Bool) (name since until : Text) (total : ℤ)
      → Ensures (OwnersAdded total) (with_owners host c owners name since until total)
  with_owners-Added ([], capped) name since until total = done-Ensures _ _ no_owner
  with_owners-Added (owner ∷ owners, capped) name since until total =
      skip-Ensures _ _ _ (λ counts. done-Ensures _ _ (by_owner capped counts))

  rt_evidence-IsHonest :
      (query : Text) (page : List EvidenceItem × ℤ) (queues owners : Added)
      → IsPage host c step query page.0 page.1
      → QueuesAdded queues
      → OwnersAdded page.1 owners
      → IsHonest host c step (rt_evidence host c step query page queues owners)
  unfolding any lookup text_eq
  rt_evidence-IsHonest query (items, total) _ _ page (skipped n) no_owner = record {
    page = page;
    counted = refl;
    truncated = refl;
    by_queue = inl refl;
    by_owner = λ counts h. absurd (cc);
  }
  rt_evidence-IsHonest query (items, total) _ _ page (skipped n) (by_owner capped counts) = record {
    page = page;
    counted = refl;
    truncated = refl;
    by_queue = inl refl;
    by_owner = λ found h k.
        subst (λ n. above total (sum_counts n) ≡ false) (some_inj h)
          (owner_warnings-exact capped (sum_counts counts) total k);
  }
  rt_evidence-IsHonest query (items, total) _ _ page (by_queue counts) no_owner = record {
    page = page;
    counted = refl;
    truncated = refl;
    by_queue = inr (counts, refl);
    by_owner = λ counts h. absurd (cc);
  }
  rt_evidence-IsHonest query (items, total) _ _ page (by_queue queues) (by_owner capped counts) =
      record {
        page = page;
        counted = refl;
        truncated = refl;
        by_queue = inr (queues, refl);
        by_owner = λ found h k.
            subst (λ n. above total (sum_counts n) ≡ false) (some_inj h)
              (owner_warnings-exact capped (sum_counts counts) total k);
      }

  -- Whatever RT answers, the evidence of an execution that succeeds says of itself what is so: its items and
  -- its total are those of a response of RT to a search of its query; it is marked as truncated exactly if
  -- RT's total is above its count of items; a breakdown by queue that is missing has a warning, and a
  -- breakdown by owner without a warning counts at least as many tickets as RT says there are.
  pub rt_execute-IsHonest : Ensures (IsHonest host c step) (rt_execute host c step)
  unfolding rt_execute
  rt_execute-IsHonest = skip-Ensures _ _ _ (λ _. skip-Ensures _ _ _ (λ _.
      skip-Ensures _ _ _ (λ since. skip-Ensures _ _ _ (λ until.
        bind-Ensures (λ page. IsPage host c step _ page.0 page.1) _ _ _ (search-IsPage _)
          (λ page i.
            bind-Ensures QueuesAdded _ _ _ (with_queues-Added step.host since until) (λ queues q.
              bind-Ensures (OwnersAdded page.1) _ _ _
                (with_owners-Added (owners_on_page page.0) step.host since until page.1)
                (λ owners o.
                  done-Ensures _ _ (rt_evidence-IsHonest _ page queues owners i q o))))))))
