-- ===== src/Connector/Attempt/Effects.antt =====
-- What an attempt does to the world outside: the requests that it sends, in order.
use sroiaaa.Base.{
  ℕ, zero, ◌+◌, ◌≤◌, Bool, true, false, Option, none, some, List, [], ◌∷◌, ◌++◌, ◌≡◌, refl, sym, ap,
  ◌∙◌, arith, Result, ok, err, length, length-append, All, All-append,
}
use sroiaaa.Connector.Evidence.{ConnectorError}
use sroiaaa.Connector.Attempt.{
  Attempt, done, fail, after, ◌>>=◌, fail_if, found, lifted, Reply, Http, sent, send_request,
  round_trip,
}

module _ {W Q : Type 0} (http : Http W Q) where
  -- What the requests leave of a world.
  abbrev pub replay : List Q → W → W
  replay [] w = w
  replay (q ∷ qs) w = replay qs (http.send q w).1

  pub replay-append : (qs rs : List Q) (w : W) → replay (qs ++ rs) w ≡ replay rs (replay qs w)
  replay-append [] rs w = refl
  replay-append (q ∷ qs) rs w = replay-append qs rs (http.send q w).1

  module _ (P : Q → Type 0) where
    -- At most n requests were sent, all of which satisfy P, and nothing else happened.
    pub record Sent (n : ℕ) (w v : W) : Type 0 where
      pub requests : List Q
      pub allowed : All P requests
      pub few : length requests ≤ n
      pub effect : v ≡ replay requests w

    abbrev pub Sends : {A : Type 0} → ℕ → Attempt W A → Type 0
    Sends n m = (w : W) → Sent n w (m w).1

    pub nothing-Sent : (n : ℕ) (w : W) → Sent n w w
    nothing-Sent n w = record { requests = []; allowed = tt; few = omega arith; effect = refl }

    pub fail_if-Sends : (b : Bool) (e : ConnectorError) → Sends zero (fail_if {W = W} b e)
    unfolding fail_if done fail
    fail_if-Sends true e w = nothing-Sent zero w
    fail_if-Sends false e w = nothing-Sent zero w

    pub found-Sends :
        {A : Type 0} (o : Option A) (e : ConnectorError) → Sends zero (found {W = W} o e)
    unfolding found done fail
    found-Sends none e w = nothing-Sent zero w
    found-Sends (some a) e w = nothing-Sent zero w

    pub Sent-append : {n k : ℕ} {u v w : W} → Sent n u v → Sent k v w → Sent (n + k) u w
    Sent-append h k = record {
      requests = h.requests ++ k.requests;
      allowed = All-append P h.requests k.requests h.allowed k.allowed;
      few = (let both = length-append h.requests k.requests in omega (arith, both, h.few, k.few));
      effect =
          k.effect ∙ ap (replay k.requests) h.effect ∙ sym (replay-append h.requests k.requests _);
    }

    pub Sent-more : {n k : ℕ} {u v : W} → n ≤ k → Sent n u v → Sent k u v
    Sent-more le h = record {
      requests = h.requests;
      allowed = h.allowed;
      few = omega (arith, le, h.few);
      effect = h.effect;
    }

    pub bind-Sends :
        {A B : Type 0} {n k : ℕ} (m : Attempt W A) (f : A → Attempt W B)
        → Sends n m
        → ((a : A) → Sends k (f a))
        → Sends (n + k) (m >>= f)
    unfolding ◌>>=◌
    bind-Sends {n = n} {k = k} m f h g w = go (m w) (h w)
      where
        go : (r : Result ConnectorError _ × W) → Sent n w r.1 → Sent (n + k) w (after f r).1
        go (ok a, v) s = Sent-append s (g a v)
        go (err e, v) s = Sent-more (omega arith) s

    pub done-Sends : {A : Type 0} (a : A) → Sends zero (done {W = W} a)
    unfolding done
    done-Sends a w = nothing-Sent zero w

    pub lifted-Sends : {A : Type 0} (r : Result ConnectorError A) → Sends zero (lifted {W = W} r)
    unfolding lifted
    lifted-Sends r w = nothing-Sent zero w

    pub send_request-Sends : (q : Q) → P q → Sends 1 (send_request http q)
    unfolding send_request
    send_request-Sends q p w = record {
      requests = q ∷ [];
      allowed = (p, tt);
      few = omega arith;
      effect = sym (reached (http.send q w));
    }
      where
        reached : (r : Option Reply × W) → r.1 ≡ (sent http q w r).1
        reached (none, v) = refl
        reached (some reply, v) = refl

    pub round_trip-Sends : (max : ℕ) (q : Q) → P q → Sends 1 (round_trip http max q)
    unfolding round_trip
    round_trip-Sends max q p = bind-Sends _ _ (fail_if-Sends _ _) (λ _.
        bind-Sends {k = 0} _ _ (send_request-Sends q p) (λ reply.
          bind-Sends {k = 0} _ _ (found-Sends _ _)
            (λ body. bind-Sends {k = 0} _ _ (fail_if-Sends _ _) (λ _. done-Sends _))))

    -- After a pure step, what it gave is known.
    pub lifted-bind-Sends :
        {A B : Type 0} {k : ℕ} (r : Result ConnectorError A) (f : A → Attempt W B)
        → ((a : A) → r ≡ ok a → Sends k (f a))
        → Sends k (lifted r >>= f)
    unfolding ◌>>=◌ lifted
    lifted-bind-Sends (ok a) f h w = h a refl w
    lifted-bind-Sends (err e) f h w = nothing-Sent _ w

    pub found-bind-Sends :
        {A B : Type 0} {k : ℕ} (o : Option A) (e : ConnectorError) (f : A → Attempt W B)
        → ((a : A) → o ≡ some a → Sends k (f a))
        → Sends k (found o e >>= f)
    unfolding ◌>>=◌ found done fail
    found-bind-Sends (some a) e f h w = h a refl w
    found-bind-Sends none e f h w = nothing-Sent _ w

  All-map : (P R : Q → Type 0) → ((q : Q) → P q → R q) → (qs : List Q) → All P qs → All R qs
  All-map P R f [] h = tt
  All-map P R f (q ∷ qs) h = (f q h.0, All-map P R f qs h.1)

  pub map-Sent :
      (P R : Q → Type 0) → ((q : Q) → P q → R q) → {n : ℕ} {w v : W} → Sent P n w v → Sent R n w v
  map-Sent P R f h = record {
    requests = h.requests;
    allowed = All-map P R f h.requests h.allowed;
    few = h.few;
    effect = h.effect;
  }
