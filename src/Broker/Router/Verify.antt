-- ===== src/Broker/Router/Verify.antt =====
-- internal/broker/router.go: Verify accepts the plans that Plan makes, and no other.
use mathlib.Core.List.{Memᴰ}
use sroiaaa.Base.{
  ℕ, ◌+◌, true, false, some, List, [], ◌∷◌, ◌≡◌, inl, inr, refl, ap, arith, Result, ok, err,
  Bool-cases,
}
use sroiaaa.Base.Text.{Text, UnicodeTables}
use sroiaaa.Broker.Types.{
  Intent, RouteRequest, RouteStep, RoutePlan, RouteError, RoutePlan-discrete,
}
use sroiaaa.Broker.Since.{Instant, Calendar}
use sroiaaa.Broker.Router.Shape.{plan_inv}
use sroiaaa.Broker.Router.{
  Router, plan, candidate_requests, live_requests, produces, verify_candidates, verify_steps,
  verify,
}

module _ (tables : UnicodeTables) (cal : Calendar) where
  produces_sound :
      (m : Result RouteError RoutePlan) (p : RoutePlan) → produces tables cal m p ≡ true → m ≡ ok p
  produces_sound (err e) p h = absurd (cc)
  produces_sound (ok q) p h = go (RoutePlan-discrete q p) h
    where
      go :
          (d : Dec (q ≡ p))
          → elim d [ yes _ ↦ true | no _ ↦ false ] ≡ true
          → ◌≡◌ {A = Result RouteError RoutePlan} (ok q) (ok p)
      go (yes e) h = ap ok e
      go (no n) h = absurd (cc)

  pub produces_self : (p : RoutePlan) → produces tables cal (ok p) p ≡ true
  produces_self p = go (RoutePlan-discrete p p)
    where
      go : (d : Dec (p ≡ p)) → elim d [ yes _ ↦ true | no _ ↦ false ] ≡ true
      go (yes e) = refl
      go (no n) = absurd (n refl)

  -- The request that stands behind an accepted plan.
  pub record Reproduced (r : Router) (clock : ℕ → Instant) (p : RoutePlan) (cs : List RouteRequest)
      : Type 0 where
    pub request : RouteRequest
    pub listed : Memᴰ request cs
    pub reading : ℕ
    pub made : plan tables cal r (clock reading) (clock (reading + 1)) request ≡ ok p

  verify_candidates_sound :
      (r : Router) (clock : ℕ → Instant) (k : ℕ) (p : RoutePlan) (cs : List RouteRequest)
      → verify_candidates tables cal r clock k p cs ≡ ok tt
      → Reproduced r clock p cs
  unfolding verify_candidates
  verify_candidates_sound r clock k p [] h = absurd (cc)
  verify_candidates_sound r clock k p (c ∷ cs) h =
      elim (Bool-cases (produces tables cal (plan tables cal r (clock k) (clock (k + 1)) c) p)) [
        | inl e ↦ record {
          request = c;
          listed = Memᴰ.head refl;
          reading = k;
          made = produces_sound (plan tables cal r (clock k) (clock (k + 1)) c) p e;
        }
        | inr e ↦
            let later = verify_candidates_sound r clock (k + 2) p cs (rw e at h) in
            record {
              request = later.request;
              listed = Memᴰ.tail later.listed;
              reading = later.reading;
              made = later.made;
            }
      ]

  -- One candidate that gives the plan at every reading is enough.
  pub verify_candidates_complete :
      (r : Router) (clock : ℕ → Instant) (p : RoutePlan) (c : RouteRequest) (k : ℕ)
      (cs : List RouteRequest)
      → Memᴰ c cs
      → ((n : ℕ) → plan tables cal r (clock n) (clock (n + 1)) c ≡ ok p)
      → verify_candidates tables cal r clock k p cs ≡ ok tt
  unfolding verify_candidates
  verify_candidates_complete r clock p c k [] x h = elim x [ ]
  verify_candidates_complete r clock p c k (d ∷ cs) (Memᴰ.head e) h =
      rw (← e, h k, produces_self p) refl
  verify_candidates_complete r clock p c k (d ∷ cs) (Memᴰ.tail t) h =
      ground (arith, verify_candidates_complete r clock p c (k + 2) cs t h)

  live_requests-intent :
      (i : Intent) (host : Text) (aliases : List Text) (c : RouteRequest)
      → Memᴰ c (live_requests i host (some aliases))
      → c.intent ≡ i
  live_requests-intent i host [] c x = elim x [ ]
  live_requests-intent i host (a ∷ more) c (Memᴰ.head e) = ap (λ (q : RouteRequest). q.intent) e
  live_requests-intent i host (a ∷ more) c (Memᴰ.tail t) = live_requests-intent i host more c t

  -- A plan that Verify accepts is one that Plan makes, from some request of the plan's intent, at the
  -- instants at which Verify read the clock.
  pub verify_sound :
      (r : Router) (clock : ℕ → Instant) (p : RoutePlan)
      → verify tables cal r clock p ≡ ok tt
      → (request : RouteRequest) × (n : ℕ) × (plan tables cal r (clock n) (clock (n + 1)) request
          ≡ ok p)
        × (request.intent ≡ p.intent)
  unfolding verify verify_steps
  verify_sound r clock p h = go p.steps h
    where
      go :
          (steps : List RouteStep)
          → verify_steps tables cal r clock p steps ≡ ok tt
          → (request : RouteRequest) × (n : ℕ) × (plan tables cal r
                (clock n)
                (clock (n + 1))
                request
              ≡ ok p)
            × (request.intent ≡ p.intent)
      go [] h = absurd (cc)
      go (step ∷ steps) h =
          let found = verify_candidates_sound r clock 0 p (candidate_requests r p.intent step) h in
          let inv =
            plan_inv tables cal r (clock found.reading) (clock (found.reading + 1)) found.request p
              found.made in
          (found.request, found.reading, found.made, ap (λ (q : RoutePlan). q.intent) inv.made)
