-- ===== src/World/Monad.antt =====
-- A handler reads and changes the world and may throw. Every I/O call asks the schedule of faults
-- first; what was changed before a throw stays changed, but for the statements of a transaction.
use quick_bite_order_service.Common.{Bool, List, Option, [], false, none, some, true, ℕ, ◌∷◌}
use quick_bite_order_service.Errors.{AppError, Result, err, ok, unexpected}
use quick_bite_order_service.World.State.{Db, Message, Redis, Room, World}

abbrev pub M : Type 0 → Type 0
M A = World → Result A × World

abbrev pub pure : {A : Type 0} → A → M A
pure a w = (ok a, w)

abbrev pub throw : {A : Type 0} → AppError → M A
throw e w = (err e, w)

abbrev pub bind_result : {A B : Type 0} → (A → M B) → Result A × World → Result B × World
bind_result f (ok a, w) = f a w
bind_result f (err e, w) = (err e, w)

infixl 5 ◌>>=◌ ◌>>◌
abbrev pub ◌>>=◌ : {A B : Type 0} → M A → (A → M B) → M B
◌>>=◌ m f w = bind_result f (m w)

abbrev pub ◌>>◌ : {A B : Type 0} → M A → M B → M B
m >> k = m >>= λ _. k

-- A call that reaches another process: it fails if the schedule says so.
abbrev pub call_on :
    {A : Type 0} → (World → Result A × World) → List Bool → World → Result A × World
call_on f [] w = f (record w { faults = [] })
call_on f (true ∷ fs) w = (err unexpected, record w { faults = fs })
call_on f (false ∷ fs) w = f (record w { faults = fs })

unfoldable pub call : {A : Type 0} → (World → Result A × World) → M A
call f w = call_on f w.faults w

-- `Date.now()`
abbrev pub clock : M ℕ
clock w = (ok w.now, w)

-- A statement on the tables.
abbrev pub query : {A : Type 0} → (ℕ → Db → A) → M A
query f = call (λ w. (ok (f w.now w.db), w))

-- A query on the archive.
abbrev pub archive_query : {A : Type 0} → (ℕ → Db → A) → M A
archive_query f = call (λ w. (ok (f w.now w.archive), w))

abbrev pub statement : {A : Type 0} → (ℕ → Db → A × Db) → M A
statement f = call (λ w. (ok (f w.now w.db).0, record w { db = (f w.now w.db).1 }))

-- A statement that the database may refuse.
abbrev pub or_refuse : {A : Type 0} → World → Option (A × Db) → Result A × World
or_refuse w none = (err unexpected, w)
or_refuse w (some (a, d)) = (ok a, record w { db = d })

abbrev pub checked : {A : Type 0} → (ℕ → Db → Option (A × Db)) → M A
checked f = call (λ w. or_refuse w (f w.now w.db))

-- A command to Redis.
abbrev pub command : {A : Type 0} → (ℕ → Redis → A × Redis) → M A
command f = call (λ w. (ok (f w.now w.redis).0, record w { redis = (f w.now w.redis).1 }))

-- `io.to(room).emit(…)` returns at once.
abbrev pub emit : Room → Message → M (Unit {0})
emit room message w = (ok tt, record w { sent = (room, message) ∷ w.sent })

abbrev pub lift : {A : Type 0} → Result A → M A
lift r w = (r, w)

-- `if (b) await m;`
abbrev pub when : Bool → M (Unit {0}) → M (Unit {0})
when true m = m
when false m = pure tt

abbrev pub ignore_result : {A : Type 0} → Result A × World → Result (Unit {0}) × World
ignore_result (_, w) = (ok tt, w)

-- `try { await m; } catch {}`
abbrev pub ignore_errors : {A : Type 0} → M A → M (Unit {0})
ignore_errors m w = ignore_result (m w)

abbrev pub optional_result : {A : Type 0} → Result A × World → Result (Option A) × World
optional_result (ok a, w) = (ok (some a), w)
optional_result (err _, w) = (ok none, w)

-- `m.catch(() => null)`
abbrev pub or_null : {A : Type 0} → M A → M (Option A)
or_null m w = optional_result (m w)

abbrev pub catch_result : {A : Type 0} → (AppError → M A) → Result A × World → Result A × World
catch_result f (ok a, w) = (ok a, w)
catch_result f (err e, w) = f e w

-- `try { return await m; } catch (err) { … }`
abbrev pub catch : {A : Type 0} → M A → (AppError → M A) → M A
catch m f w = catch_result f (m w)

-- The tables after `rollback()`, which may itself throw.
abbrev pub rollback : {A : Type 0} → Db → AppError → M A
rollback old e w = call (λ v. (err e, v)) (record w { db = old })

-- `commit()`: if it throws, the code rolls back, and the tables are as they were.
abbrev pub commit_or_rollback : {A : Type 0} → Db → Result A × World → Result A × World
commit_or_rollback old (ok a, w) = catch_result (rollback old) (call (λ v. (ok a, v)) w)
commit_or_rollback old (err e, w) = rollback old e w

-- `const trx = await conn.transaction(); try { …; await trx.commit(); } catch (err) { await
-- trx.rollback(); throw err; }`
unfoldable pub transaction : {A : Type 0} → M A → M A
unfolding call
transaction body = call (λ w. (ok tt, w)) >>= λ _ w. commit_or_rollback w.db (body w)
