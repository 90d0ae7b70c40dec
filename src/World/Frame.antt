-- ===== src/World/Frame.antt =====
-- What a handler does to the tables whether it returns or throws.
use quick_bite_order_service.Common.{
  Bool, List, [], false, refl, subst, sym, true, ℕ, ◌∙◌, ◌∷◌, ◌≡◌,
}
use quick_bite_order_service.Errors.{Result, err, ok}
use quick_bite_order_service.World.Monad.{
  M, bind_result, call, call_on, command, ignore_result, optional_result, query, transaction, ◌>>=◌,
}
use quick_bite_order_service.World.Rules.{Atomic, Ensures, transaction-Atomic, transaction-Ensures}
use quick_bite_order_service.World.State.{Db, Redis, World}

-- The tables at the end satisfy `P`, whichever way the handler ends.
abbrev pub Tables : {A : Type 0} → (Db → Type 0) → Result A × World → Type 0
Tables P (_, w) = P w.db

-- Neither the tables nor the time of the request change.
abbrev pub Keeps : {A : Type 0} → World → Result A × World → Type 0
Keeps w (_, v) = (v.db ≡ w.db) × (v.now ≡ w.now)

call_on-Keeps :
    {A : Type 0} (f : World → Result A × World) (l : List Bool) (w : World)
    → ((fs : List Bool) → Keeps w (f (record w { faults = fs })))
    → Keeps w (call_on f l w)
call_on-Keeps f [] w h = h []
call_on-Keeps f (true ∷ fs) w h = (refl, refl)
call_on-Keeps f (false ∷ fs) w h = h fs

pub call-Keeps :
    {A : Type 0} (f : World → Result A × World) (w : World)
    → ((fs : List Bool) → Keeps w (f (record w { faults = fs })))
    → Keeps w (call f w)
unfolding call
call-Keeps f w h = call_on-Keeps f w.faults w h

pub bind-Keeps :
    {A B : Type 0} (w : World) (k : A → M B) (r : Result A × World)
    → Keeps w r
    → ((a : A) (v : World) → Keeps v (k a v))
    → Keeps w (bind_result k r)
bind-Keeps w k (ok a, v) (d, t) h = let (d', t') = h a v in (d' ∙ d, t' ∙ t)
bind-Keeps w k (err e, v) p h = p

pub command-Keeps : {A : Type 0} (f : ℕ → Redis → A × Redis) (w : World) → Keeps w (command f w)
command-Keeps f w = call-Keeps _ w (λ fs. (refl, refl))

pub query-Keeps : {A : Type 0} (f : ℕ → Db → A) (w : World) → Keeps w (query f w)
query-Keeps f w = call-Keeps _ w (λ fs. (refl, refl))

pub bind-Tables :
    {A B : Type 0} (P : Db → Type 0) (k : A → M B) (r : Result A × World)
    → Tables P r
    → ((a : A) (v : World) → P v.db → Tables P (k a v))
    → Tables P (bind_result k r)
bind-Tables P k (ok a, v) p h = h a v p
bind-Tables P k (err e, v) p h = p

-- A part that keeps the tables, then the rest.
pub bind-Keeps-Tables :
    {A B : Type 0} (P : Db → Type 0) (w : World) (k : A → M B) (r : Result A × World)
    → Keeps w r
    → P w.db
    → ((a : A) (v : World) → v.db ≡ w.db → v.now ≡ w.now → Tables P (k a v))
    → Tables P (bind_result k r)
bind-Keeps-Tables P w k (ok a, v) (d, t) p h = h a v d t
bind-Keeps-Tables P w k (err e, v) (d, t) p h = subst P (sym d) p

pub Tables-of_Keeps :
    {A : Type 0} (P : Db → Type 0) (w : World) (r : Result A × World)
    → Keeps w r
    → P w.db
    → Tables P r
Tables-of_Keeps P w (_, v) (d, t) p = subst P (sym d) p

-- A part that keeps the tables, then the rest, if the whole returns.
pub bind-Keeps-Ensures :
    {A B : Type 0} (Q : B → World → Type 0) (w : World) (k : A → M B) (r : Result A × World)
    → Keeps w r
    → ((a : A) (v : World) → v.db ≡ w.db → v.now ≡ w.now → Ensures Q (k a v))
    → Ensures Q (bind_result k r)
bind-Keeps-Ensures Q w k (ok a, v) (d, t) h = h a v d t
bind-Keeps-Ensures Q w k (err e, v) p h = tt

either_way :
    {A : Type 0} (P : Db → Type 0) (old : Db) (r : Result A × World)
    → Atomic old r
    → Ensures (λ a v. P v.db) r
    → P old
    → Tables P r
either_way P old (ok a, v) atomic p q = p
either_way P old (err e, v) atomic p q = subst P (sym atomic) q

-- A transaction leaves the tables as they were, or as its body left them.
pub transaction-Tables :
    {A : Type 0} (P : Db → Type 0) (body : M A) (w : World)
    → P w.db
    → ((fs : List Bool)
        → Ensures (λ a v. (gs : List Bool) → P v.db) (body (record w { faults = fs })))
    → Tables P (transaction body w)
transaction-Tables P body w p h =
    either_way P w.db (transaction body w) (transaction-Atomic body w)
      (transaction-Ensures (λ a v. P v.db) body w h) p

-- A weaker post-condition.
pub weaken :
    {A : Type 0} (P Q : A → World → Type 0) (r : Result A × World)
    → Ensures P r
    → ((a : A) (v : World) → P a v → Q a v)
    → Ensures Q r
weaken P Q (ok a, v) p h = h a v p
weaken P Q (err e, v) p h = tt

pub of_Ensures :
    {A : Type 0} (Q : A → World → Type 0) {a : A} {v : World} (r : Result A × World)
    → Ensures Q r
    → r ≡ (ok a, v)
    → Q a v
of_Ensures Q r h e = subst (Ensures Q) e h

pub or_null-Keeps :
    {A : Type 0} (w : World) (r : Result A × World) → Keeps w r → Keeps w (optional_result r)
or_null-Keeps w (ok a, v) p = p
or_null-Keeps w (err e, v) p = p

pub ignore-Keeps :
    {A : Type 0} (w : World) (r : Result A × World) → Keeps w r → Keeps w (ignore_result r)
ignore-Keeps w (r, v) p = p

-- Two parts in a row.
pub then-Keeps :
    {A B : Type 0} (m : M A) (k : A → M B)
    → ((w : World) → Keeps w (m w))
    → ((a : A) (w : World) → Keeps w (k a w))
    → (w : World) → Keeps w ((m >>= k) w)
then-Keeps m k h j w = bind-Keeps w k (m w) (h w) j

-- The call throws, and the tables are `old`.
abbrev pub Refused : {A : Type 0} → Db → Result A × World → Type 0
Refused old (ok _, _) = ⊥
Refused old (err _, w) = w.db ≡ old

pub Refused-Tables :
    {A : Type 0} (old : Db) (r : Result A × World)
    → Tables (λ d. d ≡ old) r
    → Ensures (λ _ _. ⊥) r
    → Refused old r
Refused-Tables old (ok a, v) d e = e
Refused-Tables old (err e, v) d _ = d

-- What a part that keeps the tables ends with, if it returns.
pub Ensures-of_Keeps :
    {A : Type 0} (P : Db → Type 0) (w : World) (r : Result A × World)
    → Keeps w r
    → P w.db
    → Ensures (λ _ v. P v.db) r
Ensures-of_Keeps P w (ok a, v) (d, t) p = subst P (sym d) p
Ensures-of_Keeps P w (err e, v) (d, t) p = tt
