-- ===== src/World/Stays.antt =====
-- Properties of the tables that every step of a handler keeps.
use quick_bite_order_service.Common.{
  Bool, List, Option, [], false, none, refl, some, true, ℕ, ◌∷◌, ◌≡◌,
}
use quick_bite_order_service.Errors.{AppError, Result, err, ok}
use quick_bite_order_service.World.Frame.{
  Keeps, Tables, Tables-of_Keeps, bind-Tables, transaction-Tables,
}
use quick_bite_order_service.World.Monad.{
  M, call, call_on, catch, catch_result, checked, ignore_errors, ignore_result, or_refuse,
  statement, transaction, when, ◌>>=◌,
}
use quick_bite_order_service.World.Rules.{Ensures}
use quick_bite_order_service.World.State.{Db, World}

-- Started where `P` holds of the tables, the handler ends where `P` holds, whichever way.
abbrev pub Stays : {A : Type 0} → (Db → Type 0) → M A → Type 0
Stays P m = (w : World) → P w.db → Tables P (m w)

module _ (P : Db → Type 0) where
  pub Stays-bind :
      {A B : Type 0} (m : M A) (k : A → M B)
      → Stays P m
      → ((a : A) → Stays P (k a))
      → Stays P (m >>= k)
  Stays-bind m k h j w p = bind-Tables P k (m w) (h w p) (λ a v q. j a v q)

  on_call :
      {A : Type 0} (f : World → Result A × World) (l : List Bool) (w : World)
      → P w.db
      → ((fs : List Bool) → Tables P (f (record w { faults = fs })))
      → Tables P (call_on f l w)
  on_call f [] w p h = h []
  on_call f (true ∷ fs) w p h = p
  on_call f (false ∷ fs) w p h = h fs

  pub Stays-call :
      {A : Type 0} (f : World → Result A × World)
      → ((w : World) → P w.db → Tables P (f w))
      → Stays P (call f)
  unfolding call
  Stays-call f h w p = on_call f w.faults w p (λ fs. h (record w { faults = fs }) p)

  pub Stays-statement :
      {A : Type 0} (f : ℕ → Db → A × Db)
      → ((now : ℕ) (d : Db) → P d → P (f now d).1)
      → Stays P (statement f)
  Stays-statement f h = Stays-call _ (λ w p. h w.now w.db p)

  refused_or :
      {A : Type 0} (r : Option (A × Db)) (w : World)
      → P w.db
      → ((a : A) (d : Db) → r ≡ some (a, d) → P d)
      → Tables P (or_refuse w r)
  refused_or none w p h = p
  refused_or (some (a, d)) w p h = h a d refl

  pub Stays-checked :
      {A : Type 0} (f : ℕ → Db → Option (A × Db))
      → ((now : ℕ) (d : Db) (a : A) (d' : Db) → f now d ≡ some (a, d') → P d → P d')
      → Stays P (checked f)
  Stays-checked f h =
      Stays-call _ (λ w p. refused_or (f w.now w.db) w p (λ a d e. h w.now w.db a d e p))

  pub Stays-Keeps : {A : Type 0} (m : M A) → ((w : World) → Keeps w (m w)) → Stays P m
  Stays-Keeps m h w p = Tables-of_Keeps P w (m w) (h w) p

  pub Stays-when : (b : Bool) (m : M (Unit {0})) → Stays P m → Stays P (when b m)
  Stays-when true m h = h
  Stays-when false m h = λ w p. p

  caught :
      {A : Type 0} (f : AppError → M A) (r : Result A × World)
      → Tables P r
      → ((e : AppError) → Stays P (f e))
      → Tables P (catch_result f r)
  caught f (ok a, w) p h = p
  caught f (err e, w) p h = h e w p

  pub Stays-catch :
      {A : Type 0} (m : M A) (f : AppError → M A)
      → Stays P m
      → ((e : AppError) → Stays P (f e))
      → Stays P (catch m f)
  Stays-catch m f h j w p = caught f (m w) (h w p) j

  body_ends :
      {A : Type 0} (r : Result A × World)
      → Tables P r
      → Ensures (λ a v. (gs : List Bool) → P v.db) r
  body_ends (ok a, v) p = λ gs. p
  body_ends (err e, v) p = tt

  pub Stays-transaction : {A : Type 0} (body : M A) → Stays P body → Stays P (transaction body)
  Stays-transaction body h w p =
      transaction-Tables P body w p
        (λ fs. body_ends (body (record w { faults = fs })) (h (record w { faults = fs }) p))

  pub ignored : {A : Type 0} (r : Result A × World) → Tables P r → Tables P (ignore_result r)
  ignored (_, v) q = q

  pub Stays-ignore : {A : Type 0} (m : M A) → Stays P m → Stays P (ignore_errors m)
  Stays-ignore m h w p = ignored (m w) (h w p)
