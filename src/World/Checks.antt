-- ===== src/World/Checks.antt =====
-- The part of a handler that reads and decides before it writes.
use quick_bite_order_service.Common.{
  Bool, List, Option, [], false, none, refl, some, subst, sym, true, ℕ, ◌∙◌, ◌∷◌, ◌≡◌,
}
use quick_bite_order_service.Errors.{AppError, Result, err, ok, or_throw}
use quick_bite_order_service.World.Frame.{Keeps, Tables}
use quick_bite_order_service.World.Monad.{M, bind_result, call, call_on, lift, query, when, ◌>>=◌}
use quick_bite_order_service.World.Rules.{Ensures}
use quick_bite_order_service.World.State.{Db, World}

-- The tables and the time stay, and if the part returns `a`, then `P a`.
abbrev pub Checks : {A : Type 0} → (A → Type 0) → World → Result A × World → Type 0
Checks P w (ok a, v) = (v.db ≡ w.db) × (v.now ≡ w.now) × P a
Checks P w (err _, v) = v.db ≡ w.db

pub Checks-bind :
    {A B : Type 0} (P : A → Type 0) (Q : B → Type 0) (w : World) (k : A → M B)
    (r : Result A × World)
    → Checks P w r
    → ((a : A) (v : World) → v.db ≡ w.db → v.now ≡ w.now → P a → Checks Q w (k a v))
    → Checks Q w (bind_result k r)
Checks-bind P Q w k (ok a, v) (d, t, p) h = h a v d t p
Checks-bind P Q w k (err e, v) d h = d

pub Checks-lift :
    {A B : Type 0} (Q : B → Type 0) (w v : World) (k : A → M B) (r : Result A)
    → v.db ≡ w.db
    → ((a : A) → r ≡ ok a → Checks Q w (k a v))
    → Checks Q w (bind_result k (lift r v))
Checks-lift Q w v k (ok a) d h = h a refl
Checks-lift Q w v k (err e) d h = d

pub Checks-Keeps :
    {A B : Type 0} (Q : B → Type 0) (w v : World) (k : A → M B) (r : Result A × World)
    → v.db ≡ w.db
    → v.now ≡ w.now
    → Keeps v r
    → ((a : A) (u : World) → u.db ≡ w.db → u.now ≡ w.now → Checks Q w (k a u))
    → Checks Q w (bind_result k r)
Checks-Keeps Q w v k (ok a, u) d t (d', t') h = h a u (d' ∙ d) (t' ∙ t)
Checks-Keeps Q w v k (err e, u) d t (d', t') h = d' ∙ d

Checks-query_on :
    {A B : Type 0} (Q : B → Type 0) (w : World) (f : ℕ → Db → A) (k : A → M B) (l : List Bool)
    → ((fs : List Bool) → Checks Q w (k (f w.now w.db) (record w { faults = fs })))
    → Checks Q w (bind_result k (call_on (λ v. (ok (f v.now v.db), v)) l w))
Checks-query_on Q w f k [] h = h []
Checks-query_on Q w f k (true ∷ fs) h = refl
Checks-query_on Q w f k (false ∷ fs) h = h fs

-- A query at the start.
pub Checks-query :
    {A B : Type 0} (Q : B → Type 0) (w : World) (f : ℕ → Db → A) (k : A → M B)
    → ((fs : List Bool) → Checks Q w (k (f w.now w.db) (record w { faults = fs })))
    → Checks Q w ((query f >>= k) w)
unfolding call
Checks-query Q w f k h = Checks-query_on Q w f k w.faults h

-- The writes after the check.
pub Checks-Tables :
    {A B : Type 0} (P : A → Type 0) (T : Db → Type 0) (w : World) (k : A → M B)
    (r : Result A × World)
    → Checks P w r
    → T w.db
    → ((a : A) (v : World) → v.db ≡ w.db → v.now ≡ w.now → P a → Tables T (k a v))
    → Tables T (bind_result k r)
Checks-Tables P T w k (ok a, v) (d, t, p) h f = f a v d t p
Checks-Tables P T w k (err e, v) d h f = subst T (sym d) h

pub Checks-Ensures :
    {A B : Type 0} (P : A → Type 0) (Q : B → World → Type 0) (w : World) (k : A → M B)
    (r : Result A × World)
    → Checks P w r
    → ((a : A) (v : World) → v.db ≡ w.db → v.now ≡ w.now → P a → Ensures Q (k a v))
    → Ensures Q (bind_result k r)
Checks-Ensures P Q w k (ok a, v) (d, t, p) f = f a v d t p
Checks-Ensures P Q w k (err e, v) d f = tt

pub when-Keeps : (b : Bool) (m : M (Unit {0})) (w : World) → Keeps w (m w) → Keeps w (when b m w)
when-Keeps true m w h = h
when-Keeps false m w h = (refl, refl)

query_on-Checks :
    {A : Type 0} (w : World) (f : ℕ → Db → A) (l : List Bool)
    → Checks (λ a. f w.now w.db ≡ a) w (call_on (λ v. (ok (f v.now v.db), v)) l w)
query_on-Checks w f [] = (refl, refl, refl)
query_on-Checks w f (true ∷ fs) = refl
query_on-Checks w f (false ∷ fs) = (refl, refl, refl)

pub query-Checks :
    {A : Type 0} (w : World) (f : ℕ → Db → A) → Checks (λ a. f w.now w.db ≡ a) w (query f w)
unfolding call
query-Checks w f = query_on-Checks w f w.faults

-- `const x = await find(…); if (!x) throw e;`, then the rest.
pub found-Tables :
    {A B : Type 0} (T : Db → Type 0) (w : World) (f : ℕ → Db → Option A) (e : AppError)
    (k : A → M B)
    → T w.db
    → ((a : A) (v : World) → v.db ≡ w.db → v.now ≡ w.now → f w.now w.db ≡ some a → Tables T (k a v))
    → Tables T ((query f >>= λ found. lift (or_throw found e) >>= k) w)
found-Tables {A} T w f e k base h =
    Checks-Tables (λ a. f w.now w.db ≡ a) T w (λ found. lift (or_throw found e) >>= k) (query f w)
      (query-Checks w f) base there
  where
    there :
        (found : Option A) (v : World)
        → v.db ≡ w.db
        → v.now ≡ w.now
        → f w.now w.db ≡ found
        → Tables T ((lift (or_throw found e) >>= k) v)
    there none v d t q = subst T (sym d) base
    there (some a) v d t q = h a v d t q
