-- ===== src/World/Rules.antt =====
-- Rules for reasoning about handlers: what holds when one returns, and what a transaction that throws
-- leaves behind.
use quick_bite_order_service.Common.{
  Bool, List, Option, [], false, if◌then◌else◌, none, refl, some, true, ℕ, ◌∷◌, ◌≡◌,
}
use quick_bite_order_service.Errors.{AppError, Result, err, ok, unexpected}
use quick_bite_order_service.World.Monad.{
  M, bind_result, call, call_on, catch_result, checked, commit_or_rollback, lift, or_refuse, pure,
  rollback, statement, transaction, when, ◌>>=◌, ◌>>◌,
}
use quick_bite_order_service.World.State.{Db, World}

-- `Q` holds of the result and the world of a handler that returns; one that throws owes nothing.
abbrev pub Ensures : {A : Type 0} → (A → World → Type 0) → Result A × World → Type 0
Ensures Q (ok a, w) = Q a w
Ensures Q (err _, _) = Unit

abbrev pub at_tables : World → List Bool → Db → World
at_tables w fs d = record w { faults = fs; db = d }

-- One call, then the rest.
bind_call_on :
    {A B : Type 0} (Q : B → World → Type 0) (f : World → Result A × World) (k : A → M B)
    (l : List Bool) (w : World)
    → ((fs : List Bool) → Ensures Q (bind_result k (f (record w { faults = fs }))))
    → Ensures Q (bind_result k (call_on f l w))
bind_call_on Q f k [] w h = h []
bind_call_on Q f k (true ∷ fs) w h = tt
bind_call_on Q f k (false ∷ fs) w h = h fs

pub bind_call :
    {A B : Type 0} (Q : B → World → Type 0) (f : World → Result A × World) (k : A → M B) (w : World)
    → ((fs : List Bool) → Ensures Q (bind_result k (f (record w { faults = fs }))))
    → Ensures Q ((call f >>= k) w)
unfolding call
bind_call Q f k w h = bind_call_on Q f k w.faults w h

-- A handler whose parts are shut: any post-condition of the first part serves the rest.
pub bind-Ensures :
    {A B : Type 0} (P : A → World → Type 0) (Q : B → World → Type 0) (k : A → M B)
    (r : Result A × World)
    → Ensures P r
    → ((a : A) (w : World) → P a w → Ensures Q (k a w))
    → Ensures Q (bind_result k r)
bind-Ensures P Q k (ok a, w) p h = h a w p
bind-Ensures P Q k (err e, w) p h = tt

-- `if (b) await statement;`, then the rest.
pub bind_when :
    {B : Type 0} (Q : B → World → Type 0) (b : Bool) (f : ℕ → Db → Unit {0} × Db) (k : M B)
    (w : World)
    → ((fs : List Bool) → Ensures Q (k (at_tables w fs (if b then (f w.now w.db).1 else w.db))))
    → Ensures Q ((when b (statement f) >> k) w)
bind_when Q true f k w h = bind_call Q _ _ w h
bind_when Q false f k w h = h w.faults

or_refuse-Ensures :
    {A B : Type 0} (Q : B → World → Type 0) (r : Option (A × Db)) (k : A → M B) (w : World)
    → ((a : A) (d : Db) → r ≡ some (a, d) → Ensures Q (k a (record w { db = d })))
    → Ensures Q (bind_result k (or_refuse w r))
or_refuse-Ensures Q none k w h = tt
or_refuse-Ensures Q (some (a, d)) k w h = h a d refl

-- A statement that the database may refuse, then the rest.
pub bind_checked :
    {A B : Type 0} (Q : B → World → Type 0) (f : ℕ → Db → Option (A × Db)) (k : A → M B) (w : World)
    → ((fs : List Bool) (a : A) (d : Db)
        → f w.now w.db ≡ some (a, d)
        → Ensures Q (k a (at_tables w fs d)))
    → Ensures Q ((checked f >>= k) w)
bind_checked Q f k w h =
    bind_call Q (λ v. or_refuse v (f v.now v.db)) k w
      (λ fs. or_refuse-Ensures Q (f w.now w.db) k (record w { faults = fs }) (h fs))

-- Whatever fails, a transaction that throws leaves the tables as they were.
abbrev pub Atomic : {A : Type 0} → Db → Result A × World → Type 0
Atomic old (ok _, _) = Unit
Atomic old (err _, w) = w.db ≡ old

rollback-Atomic :
    (A : Type 0) (old : Db) (e : AppError) (l : List Bool) (w : World)
    → Atomic {A = A} old (call_on (λ v. (err e, v)) l (record w { db = old }))
rollback-Atomic A old e [] w = refl
rollback-Atomic A old e (true ∷ fs) w = refl
rollback-Atomic A old e (false ∷ fs) w = refl

commit-Atomic :
    {A : Type 0} (old : Db) (a : A) (l : List Bool) (w : World)
    → Atomic old (catch_result (rollback old) (call_on (λ v. (ok a, v)) l w))
unfolding call
commit-Atomic old a [] w = tt
commit-Atomic {A} old a (true ∷ fs) w =
    rollback-Atomic A old unexpected fs (record w { faults = fs })
commit-Atomic old a (false ∷ fs) w = tt

commit_or_rollback-Atomic :
    {A : Type 0} (old : Db) (r : Result A × World) → Atomic old (commit_or_rollback old r)
unfolding call
commit_or_rollback-Atomic old (ok a, w) = commit-Atomic old a w.faults w
commit_or_rollback-Atomic {A} old (err e, w) = rollback-Atomic A old e w.faults w

begin-Atomic :
    {A : Type 0} (body : M A) (l : List Bool) (w : World)
    → Atomic w.db
        (bind_result (λ u v. commit_or_rollback v.db (body v)) (call_on (λ v. (ok tt, v)) l w))
begin-Atomic body [] w = commit_or_rollback-Atomic w.db (body (record w { faults = [] }))
begin-Atomic body (true ∷ fs) w = refl
begin-Atomic body (false ∷ fs) w = commit_or_rollback-Atomic w.db (body (record w { faults = fs }))

pub transaction-Atomic : {A : Type 0} (body : M A) (w : World) → Atomic w.db (transaction body w)
unfolding transaction
transaction-Atomic body w = begin-Atomic body w.faults w

-- A transaction that returns has run its body to the end.
commit-Ensures :
    {A : Type 0} (Q : A → World → Type 0) (old : Db) (a : A) (l : List Bool) (w : World)
    → ((fs : List Bool) → Q a (record w { faults = fs }))
    → Ensures Q (catch_result (rollback old) (call_on (λ v. (ok a, v)) l w))
unfolding call
commit-Ensures Q old a [] w h = h []
commit-Ensures Q old a (true ∷ []) w h = tt
commit-Ensures Q old a (true ∷ true ∷ fs) w h = tt
commit-Ensures Q old a (true ∷ false ∷ fs) w h = tt
commit-Ensures Q old a (false ∷ fs) w h = h fs

rollback-Ensures :
    {A : Type 0} (Q : A → World → Type 0) (e : AppError) (l : List Bool) (w : World)
    → Ensures Q (call_on (λ v. (err e, v)) l w)
rollback-Ensures Q e [] w = tt
rollback-Ensures Q e (true ∷ fs) w = tt
rollback-Ensures Q e (false ∷ fs) w = tt

commit_or_rollback-Ensures :
    {A : Type 0} (Q : A → World → Type 0) (old : Db) (r : Result A × World)
    → Ensures (λ a w. (fs : List Bool) → Q a (record w { faults = fs })) r
    → Ensures Q (commit_or_rollback old r)
unfolding call
commit_or_rollback-Ensures Q old (ok a, w) h = commit-Ensures Q old a w.faults w h
commit_or_rollback-Ensures Q old (err e, w) h =
    rollback-Ensures Q e w.faults (record w { db = old })

pub transaction-Ensures :
    {A : Type 0} (Q : A → World → Type 0) (body : M A) (w : World)
    → ((fs : List Bool)
        → Ensures
            (λ a v. (gs : List Bool) → Q a (record v { faults = gs }))
            (body (record w { faults = fs })))
    → Ensures Q (transaction body w)
unfolding transaction
transaction-Ensures Q body w h =
    bind_call Q (λ v. (ok tt, v)) (λ _ v. commit_or_rollback v.db (body v)) w
      (λ fs. commit_or_rollback-Ensures Q w.db (body (record w { faults = fs })) (h fs))

-- A handler whose last part is `r`.
pub then_pure :
    {A : Type 0} (Q : A → World → Type 0) (r : Result A × World)
    → Ensures Q (bind_result pure r)
    → Ensures Q r
then_pure Q (ok a, v) h = h
then_pure Q (err e, v) h = tt

-- A call at the end.
pub last_call :
    {A : Type 0} (Q : A → World → Type 0) (f : World → Result A × World) (w : World)
    → ((fs : List Bool) → Ensures Q (bind_result pure (f (record w { faults = fs }))))
    → Ensures Q (call f w)
last_call Q f w h = then_pure Q (call f w) (bind_call Q f pure w h)

pub lift-Ensures :
    {A B : Type 0} (Q : B → World → Type 0) (r : Result A) (k : A → M B) (w : World)
    → ((a : A) → r ≡ ok a → Ensures Q (k a w))
    → Ensures Q (bind_result k (lift r w))
lift-Ensures Q (ok a) k w h = h a refl
lift-Ensures Q (err e) k w h = tt
