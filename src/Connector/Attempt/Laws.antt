-- ===== src/Connector/Attempt/Laws.antt =====
-- What the result of an attempt that succeeds satisfies.
use sroiaaa.Base.{◌≡◌, refl, ◌⊎◌, inl, Bool, true, false, Result, ok, err, Option, none, some}
use sroiaaa.Connector.Evidence.{ConnectorError}
use sroiaaa.Connector.Attempt.{◌>>◌, fail, found, fail_if, lifted, Attempt, done, after, ◌>>=◌}

abbrev pub Holds : {A : Type 0} → (A → Type 0) → Result ConnectorError A → Type 0
Holds P (ok a) = P a
Holds P (err e) = Unit

-- If it succeeds, then with a result in P.
abbrev pub Ensures : {W A : Type 0} → (A → Type 0) → Attempt W A → Type 0
Ensures {W = W} P m = (w : W) → Holds P (m w).0

abbrev pub Anything : {A : Type 0} → A → Type 0
Anything a = Unit {0}

Anything-Holds : {A : Type 0} (r : Result ConnectorError A) → Holds Anything r
Anything-Holds (ok a) = tt
Anything-Holds (err e) = tt

pub map-Holds :
    {A : Type 0} (Q P : A → Type 0) (r : Result ConnectorError A)
    → ((a : A) → Q a → P a)
    → Holds Q r
    → Holds P r
map-Holds Q P (ok a) f k = f a k
map-Holds Q P (err e) f k = tt

pub map-Ensures :
    {W A : Type 0} (Q P : A → Type 0) (m : Attempt W A)
    → ((a : A) → Q a → P a)
    → Ensures Q m
    → Ensures P m
map-Ensures Q P m f h w = map-Holds Q P (m w).0 f (h w)

pub done-Ensures : {W A : Type 0} (P : A → Type 0) (a : A) → P a → Ensures P (done {W = W} a)
unfolding done
done-Ensures P a h w = h

pub bind-Ensures :
    {W A B : Type 0} (Q : A → Type 0) (P : B → Type 0) (m : Attempt W A) (f : A → Attempt W B)
    → Ensures Q m
    → ((a : A) → Q a → Ensures P (f a))
    → Ensures P (m >>= f)
unfolding ◌>>=◌
bind-Ensures {W = W} {A = A} Q P m f h k w = go (m w) (h w)
  where
    go : (r : Result ConnectorError A × W) → Holds Q r.0 → Holds P (after f r).0
    go (ok a, v) s = k a s v
    go (err e, v) s = tt

-- In some state of the world, the attempt gives this result.
abbrev pub Gave : {W A : Type 0} → Attempt W A → A → Type 0
Gave {W = W} m a = (w : W) × (v : W) × (m w ≡ (ok a, v))

-- A step of which its result is known to be one that it gave.
pub known-Ensures :
    {W A B : Type 0} (P : B → Type 0) (m : Attempt W A) (f : A → Attempt W B)
    → ((a : A) → Gave m a → Ensures P (f a))
    → Ensures P (m >>= f)
unfolding ◌>>=◌
known-Ensures {W = W} {A = A} P m f k w = go (m w) refl
  where
    go : (r : Result ConnectorError A × W) → m w ≡ r → Holds P (after f r).0
    go (ok a, v) e = k a (w, v, e) v
    go (err e, v) _ = tt

-- A step that looks a value up.
pub found-Ensures :
    {W A B : Type 0} (P : B → Type 0) (o : Option A) (fault : ConnectorError) (f : A → Attempt W B)
    → ((a : A) → o ≡ some a → Ensures P (f a))
    → Ensures P (found o fault >>= f)
unfolding ◌>>=◌ found done fail
found-Ensures P none fault f k w = tt
found-Ensures P (some a) fault f k w = k a refl w

-- A step that is already computed.
pub lifted_known-Ensures :
    {W A B : Type 0} (P : B → Type 0) (r : Result ConnectorError A) (f : A → Attempt W B)
    → ((a : A) → r ≡ ok a → Ensures P (f a))
    → Ensures P (lifted r >>= f)
unfolding ◌>>=◌ lifted
lifted_known-Ensures P (err e) f k w = tt
lifted_known-Ensures P (ok a) f k w = k a refl w

-- A step of which nothing is needed.
pub skip-Ensures :
    {W A B : Type 0} (P : B → Type 0) (m : Attempt W A) (f : A → Attempt W B)
    → ((a : A) → Ensures P (f a))
    → Ensures P (m >>= f)
skip-Ensures P m f k = bind-Ensures Anything P m f (λ w. Anything-Holds (m w).0) (λ a _. k a)

pub lifted-Ensures :
    {W A : Type 0} (P : A → Type 0) (r : Result ConnectorError A)
    → Holds P r
    → Ensures P (lifted {W = W} r)
unfolding lifted
lifted-Ensures P r h w = h

-- Nothing happened, and the attempt failed; or its result satisfies P, after G was seen to hold.
abbrev pub Guarded :
    {W A : Type 0} → Type 0 → (A → Type 0) → W → Result ConnectorError A × W → Type 0
Guarded {A = A} G P w out = (((e : ConnectorError) × (out ≡ (err e, w))) ⊎ (G × Holds P out.0))

pub fail_if-Guarded :
    {W A G : Type 0} (P : A → Type 0) (b : Bool) (e : ConnectorError) (m : Attempt W A) (w : W)
    → (b ≡ false → Guarded G P w (m w))
    → Guarded G P w ((fail_if b e >> m) w)
unfolding ◌>>=◌ fail_if done fail
fail_if-Guarded P true e m w h = inl (e, refl)
fail_if-Guarded P false e m w h = h refl
