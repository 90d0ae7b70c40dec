-- ===== src/World/Progress.antt =====
-- When every I/O call succeeds, a handler gets to its end.
use quick_bite_order_service.Common.{
  Bool, List, Option, [], false, if◌then◌else◌, none, refl, some, subst, sym, true, ℕ, ◌≡◌,
}
use quick_bite_order_service.Errors.{AppError, Result, err, ok}
use quick_bite_order_service.World.Frame.{Keeps}
use quick_bite_order_service.World.Monad.{
  M, bind_result, call, call_on, catch_result, checked, commit_or_rollback, ignore_result,
  optional_result, or_refuse, rollback, statement, transaction, when, ◌>>=◌, ◌>>◌,
}
use quick_bite_order_service.World.Rules.{at_tables}
use quick_bite_order_service.World.State.{Db, World}

-- The handler returns, `Q` holds of its result, and still no call is to fail.
abbrev pub Returns : {A : Type 0} → (A → World → Type 0) → Result A × World → Type 0
Returns Q (ok a, w) = (w.faults ≡ []) × Q a w
Returns Q (err _, _) = ⊥

pub Returns-bind :
    {A B : Type 0} (P : A → World → Type 0) (Q : B → World → Type 0) (k : A → M B)
    (r : Result A × World)
    → Returns P r
    → ((a : A) (w : World) → w.faults ≡ [] → P a w → Returns Q (k a w))
    → Returns Q (bind_result k r)
Returns-bind P Q k (ok a, w) (f, p) h = h a w f p
Returns-bind P Q k (err e, w) p h = absurd p

pub Returns-call :
    {A B : Type 0} (Q : B → World → Type 0) (f : World → Result A × World) (k : A → M B) (w : World)
    → w.faults ≡ []
    → Returns Q (bind_result k (f (record w { faults = [] })))
    → Returns Q ((call f >>= k) w)
unfolding call
Returns-call Q f k w calm h = subst (λ l. Returns Q (bind_result k (call_on f l w))) (sym calm) h

pub Returns-when :
    {B : Type 0} (Q : B → World → Type 0) (b : Bool) (f : ℕ → Db → Unit {0} × Db) (k : M B)
    (w : World)
    → w.faults ≡ []
    → ((fs : List Bool)
        → fs ≡ []
        → Returns Q (k (at_tables w fs (if b then (f w.now w.db).1 else w.db))))
    → Returns Q ((when b (statement f) >> k) w)
Returns-when Q true f k w calm h = Returns-call Q _ _ w calm (h [] refl)
Returns-when Q false f k w calm h = h w.faults calm

refused_or-Returns :
    {A B : Type 0} (Q : B → World → Type 0) (r : Option (A × Db)) (k : A → M B) (w : World) {a : A}
    {d : Db}
    → r ≡ some (a, d)
    → Returns Q (k a (record w { db = d }))
    → Returns Q (bind_result k (or_refuse w r))
refused_or-Returns Q r k w e h = subst (λ x. Returns Q (bind_result k (or_refuse w x))) (sym e) h

pub Returns-checked :
    {A B : Type 0} (Q : B → World → Type 0) (f : ℕ → Db → Option (A × Db)) (k : A → M B) (w : World)
    {a : A} {d : Db}
    → w.faults ≡ []
    → f w.now w.db ≡ some (a, d)
    → Returns Q (k a (at_tables w [] d))
    → Returns Q ((checked f >>= k) w)
Returns-checked Q f k w calm e h =
    Returns-call Q (λ v. or_refuse v (f v.now v.db)) k w calm
      (refused_or-Returns Q (f w.now w.db) k (record w { faults = [] }) e h)

commit-Returns :
    {A : Type 0} (Q : A → World → Type 0) (old : Db) (r : Result A × World)
    → Returns Q r
    → ((a : A) (v : World) → Q a v → Q a (record v { faults = [] }))
    → Returns Q (commit_or_rollback old r)
unfolding call
commit-Returns Q old (ok a, w) (calm, q) h =
    subst (λ l. Returns Q (catch_result (rollback old) (call_on (λ v. (ok a, v)) l w))) (sym calm)
      (refl, h a w q)
commit-Returns Q old (err e, w) p h = absurd p

-- A transaction whose body returns commits.
pub Returns-transaction :
    {A B : Type 0} (P : A → World → Type 0) (Q : B → World → Type 0) (body : M A) (k : A → M B)
    (w : World)
    → w.faults ≡ []
    → Returns P (body (record w { faults = [] }))
    → ((a : A) (v : World) → P a v → P a (record v { faults = [] }))
    → ((a : A) (v : World) → v.faults ≡ [] → P a v → Returns Q (k a v))
    → Returns Q ((transaction body >>= k) w)
unfolding transaction
Returns-transaction P Q body k w calm b same h =
    Returns-bind P Q k (transaction body w)
      (Returns-call P (λ v. (ok tt, v)) (λ _ v. commit_or_rollback v.db (body v)) w calm
        (commit-Returns P w.db (body (record w { faults = [] })) b same))
      h

-- No call is to fail after the handler, however it ends.
abbrev pub Calm : {A : Type 0} → Result A × World → Type 0
Calm (_, w) = w.faults ≡ []

pub bind-Calm :
    {A B : Type 0} (k : A → M B) (r : Result A × World)
    → Calm r
    → ((a : A) (w : World) → w.faults ≡ [] → Calm (k a w))
    → Calm (bind_result k r)
bind-Calm k (ok a, w) p h = h a w p
bind-Calm k (err e, w) p h = p

pub call-Calm :
    {A : Type 0} (f : World → Result A × World) (w : World)
    → w.faults ≡ []
    → Calm (f (record w { faults = [] }))
    → Calm (call f w)
unfolding call
call-Calm f w calm h = subst (λ l. Calm (call_on f l w)) (sym calm) h

pub ignore-Calm : {A : Type 0} (r : Result A × World) → Calm r → Calm (ignore_result r)
ignore-Calm (r, w) p = p

-- `m.catch(() => null)`, then the rest.
pub Returns-or_null :
    {A B : Type 0} (Q : B → World → Type 0) (k : Option A → M B) (w : World) (r : Result A × World)
    → Calm r
    → Keeps w r
    → ((a : Option A) (v : World) → v.faults ≡ [] → v.db ≡ w.db → Returns Q (k a v))
    → Returns Q (bind_result k (optional_result r))
Returns-or_null Q k w (ok a, v) calm (d, t) h = h (some a) v calm d
Returns-or_null Q k w (err e, v) calm (d, t) h = h none v calm d

pub result_of_Returns :
    {A : Type 0} (Q : A → World → Type 0) (r : Result A × World)
    → Returns Q r
    → (a : A) × (v : World) × (r ≡ (ok a, v))
result_of_Returns Q (ok a, v) p = (a, v, refl)
result_of_Returns Q (err e, v) p = absurd p

-- A call at the end.
pub last_call-Returns :
    {A : Type 0} (Q : A → World → Type 0) (f : World → Result A × World) (w : World)
    → w.faults ≡ []
    → Returns Q (f (record w { faults = [] }))
    → Returns Q (call f w)
unfolding call
last_call-Returns Q f w calm h = subst (λ l. Returns Q (call_on f l w)) (sym calm) h

-- `try { return await m; } catch …`
pub catch-Returns :
    {A : Type 0} (Q : A → World → Type 0) (f : AppError → M A) (r : Result A × World)
    → Returns Q r
    → Returns Q (catch_result f r)
catch-Returns Q f (ok a, v) h = h
catch-Returns Q f (err e, v) h = absurd h

-- A weaker post-condition.
pub Returns-weaken :
    {A : Type 0} (P Q : A → World → Type 0) (r : Result A × World)
    → Returns P r
    → ((a : A) (v : World) → P a v → Q a v)
    → Returns Q r
Returns-weaken P Q (ok a, v) (calm, p) h = (calm, h a v p)
Returns-weaken P Q (err e, v) p h = absurd p
