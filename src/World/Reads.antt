-- ===== src/World/Reads.antt =====
-- The part of a handler that only reads: nothing of the world moves but the schedule of faults.
use quick_bite_order_service.Common.{Bool, List, [], ap, false, refl, subst, sym, true, ℕ, ◌∷◌, ◌≡◌}
use quick_bite_order_service.Errors.{Result, err, ok}
use quick_bite_order_service.World.Checks.{Checks}
use quick_bite_order_service.World.Frame.{Keeps, Refused, Tables}
use quick_bite_order_service.World.Monad.{M, bind_result, call, call_on, command, lift, ◌>>=◌}
use quick_bite_order_service.World.Rules.{Ensures}
use quick_bite_order_service.World.State.{Db, Redis, World}

abbrev pub at_faults : World → List Bool → World
at_faults w fs = record w { faults = fs }

abbrev pub OnOk : {A : Type 0} → (A → Type 0) → Result A → Type 0
OnOk P (ok a) = P a
OnOk P (err _) = Unit

-- The part leaves the world as it was, and if it returns `a`, then `P a`.
abbrev pub Reads : {A : Type 0} → (A → Type 0) → World → Result A × World → Type 0
Reads P w (r, v) = (fs : List Bool) × (v ≡ at_faults w fs) × OnOk P r

reading_on :
    {A : Type 0} (w : World) (g : ℕ → Redis → A) (l : List Bool)
    → Reads
        (λ a. a ≡ g w.now w.redis)
        w
        (call_on (λ v. (ok (g v.now v.redis), record v { redis = v.redis })) l w)
reading_on w g [] = ([], refl, refl)
reading_on w g (true ∷ fs) = (fs, refl, tt)
reading_on w g (false ∷ fs) = (fs, refl, refl)

-- A command that only reads.
pub command-Reads :
    {A : Type 0} (w : World) (g : ℕ → Redis → A)
    → Reads (λ a. a ≡ g w.now w.redis) w (command (λ now r. (g now r, r)) w)
unfolding call
command-Reads w g = reading_on w g w.faults

answer_on :
    {A : Type 0} (w : World) (g : World → A) (l : List Bool)
    → ((fs : List Bool) → g (at_faults w fs) ≡ g w)
    → Reads (λ a. a ≡ g w) w (call_on (λ v. (ok (g v), v)) l w)
answer_on w g [] h = ([], refl, h [])
answer_on w g (true ∷ fs) h = (fs, refl, tt)
answer_on w g (false ∷ fs) h = (fs, refl, h fs)

-- A query, on whichever tables.
pub answer-Reads :
    {A : Type 0} (w : World) (g : World → A)
    → ((fs : List Bool) → g (at_faults w fs) ≡ g w)
    → Reads (λ a. a ≡ g w) w (call (λ v. (ok (g v), v)) w)
unfolding call
answer-Reads w g h = answer_on w g w.faults h

pub lift-Reads : {A : Type 0} (w : World) (r : Result A) → Reads (λ a. r ≡ ok a) w (lift r w)
lift-Reads w (ok a) = (w.faults, refl, refl)
lift-Reads w (err e) = (w.faults, refl, tt)

pub Reads-bind :
    {A B : Type 0} (P : A → Type 0) (Q : B → Type 0) (w : World) (k : A → M B)
    (r : Result A × World)
    → Reads P w r
    → ((a : A) (fs : List Bool) → P a → Reads Q (at_faults w fs) (k a (at_faults w fs)))
    → Reads Q w (bind_result k r)
Reads-bind P Q w k (ok a, v) (fs, same, p) h = subst (λ x. Reads Q w (k a x)) (sym same) (h a fs p)
Reads-bind P Q w k (err e, v) (fs, same, p) h = (fs, same, tt)

-- A part that reads, then the rest, which starts in the world as it was.
pub Reads-Tables :
    {A B : Type 0} (P : A → Type 0) (T : Db → Type 0) (w : World) (k : A → M B)
    (r : Result A × World)
    → Reads P w r
    → T w.db
    → ((a : A) (fs : List Bool) → P a → Tables T (k a (at_faults w fs)))
    → Tables T (bind_result k r)
Reads-Tables P T w k (ok a, v) (fs, same, p) t h =
    subst (λ x. Tables T (k a x)) (sym same) (h a fs p)
Reads-Tables P T w k (err e, v) (fs, same, p) t h = subst (λ x. T x.db) (sym same) t

pub Reads-Ensures :
    {A B : Type 0} (P : A → Type 0) (Q : B → World → Type 0) (w : World) (k : A → M B)
    (r : Result A × World)
    → Reads P w r
    → ((a : A) (fs : List Bool) → P a → Ensures Q (k a (at_faults w fs)))
    → Ensures Q (bind_result k r)
Reads-Ensures P Q w k (ok a, v) (fs, same, p) h =
    subst (λ x. Ensures Q (k a x)) (sym same) (h a fs p)
Reads-Ensures P Q w k (err e, v) p h = tt

on_call-Tables :
    {A B : Type 0} (T : Db → Type 0) (f : World → Result A × World) (k : A → M B) (l : List Bool)
    (w : World)
    → T w.db
    → ((fs : List Bool) → Tables T (bind_result k (f (at_faults w fs))))
    → Tables T (bind_result k (call_on f l w))
on_call-Tables T f k [] w t h = h []
on_call-Tables T f k (true ∷ fs) w t h = t
on_call-Tables T f k (false ∷ fs) w t h = h fs

-- One call, then the rest.
pub call-Tables :
    {A B : Type 0} (T : Db → Type 0) (f : World → Result A × World) (k : A → M B) (w : World)
    → T w.db
    → ((fs : List Bool) → Tables T (bind_result k (f (at_faults w fs))))
    → Tables T ((call f >>= k) w)
unfolding call
call-Tables T f k w t h = on_call-Tables T f k w.faults w t h

pub lift-Tables :
    {A B : Type 0} (T : Db → Type 0) (r : Result A) (k : A → M B) (w : World)
    → T w.db
    → ((a : A) → r ≡ ok a → Tables T (k a w))
    → Tables T (bind_result k (lift r w))
lift-Tables T (ok a) k w t h = h a refl
lift-Tables T (err e) k w t h = t

-- A part that returns only what cannot be.
pub Checks-Refused :
    {A B : Type 0} (P : A → Type 0) (w : World) (k : A → M B) (r : Result A × World)
    → Checks P w r
    → ((a : A) → P a → ⊥)
    → Refused w.db (bind_result k r)
Checks-Refused P w k (ok a, v) (d, t, p) h = absurd (h a p)
Checks-Refused P w k (err e, v) d h = d

-- A part that reads, then one that is refused.
pub Reads-Refused :
    {A B : Type 0} (P : A → Type 0) (w : World) (k : A → M B) (r : Result A × World)
    → Reads P w r
    → ((a : A) (fs : List Bool) → Refused w.db (k a (at_faults w fs)))
    → Refused w.db (bind_result k r)
Reads-Refused P w k (ok a, v) (fs, same, p) h =
    subst (λ x. Refused w.db (k a x)) (sym same) (h a fs)
Reads-Refused P w k (err e, v) (fs, same, p) h = ap (λ x. x.db) same

pub Reads-weaken :
    {A : Type 0} (P Q : A → Type 0) (w : World) (r : Result A × World)
    → Reads P w r
    → ((a : A) → P a → Q a)
    → Reads Q w r
Reads-weaken P Q w (ok a, v) (fs, same, p) h = (fs, same, h a p)
Reads-weaken P Q w (err e, v) (fs, same, p) h = (fs, same, tt)

pub Reads-Keeps :
    {A : Type 0} (P : A → Type 0) (w : World) (r : Result A × World) → Reads P w r → Keeps w r
Reads-Keeps P w (r, v) (fs, same, p) = (ap (λ x. x.db) same, ap (λ x. x.now) same)
