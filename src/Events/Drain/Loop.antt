-- ===== src/Events/Drain/Loop.antt =====
-- The loop of a pass over the rows that it has claimed.
use mathlib.Core.List.{append_assoc, append-nil}
use quick_bite_order_service.Common.{
  Bool, List, Option, String, [], ap, false, head_of, inl, inr, length, map, nat_eq, none, refl,
  some, string_eq, suc, sym, take, true, update, ℕ, ◌++◌, ◌==◌, ◌∙◌, ◌∷◌, ◌≡◌, ◌⊎◌,
}
use quick_bite_order_service.Errors.{AppError, Result, ok, unexpected}
use quick_bite_order_service.Events.Drain.{drain_rows, envelope, error_result}
use quick_bite_order_service.Events.Model.{Envelope, OutboxRow}
use quick_bite_order_service.Events.Repository.{bump, mark_failed, with_outbox}
use quick_bite_order_service.Events.Repository.Queue.{drop}
use quick_bite_order_service.Order.Model.{actor_eq, status_eq}
use quick_bite_order_service.World.Frame.{weaken}
use quick_bite_order_service.World.Monad.{M, bind_result, call, call_on, pure, statement, ◌>>◌}
use quick_bite_order_service.World.Rules.{Ensures, bind_call}
use quick_bite_order_service.World.State.{Db, World}

-- The broker's messages, the latest first, once the rows are published in order.
abbrev pub publish_all : String → ℕ → List OutboxRow → List Envelope → List Envelope
publish_all region now [] published = published
publish_all region now (r ∷ rows) published =
    publish_all region now rows (envelope region now r ∷ published)

module _ (describe : AppError → String) (region : String) where
  -- The loop got through all rows, or stopped at one, whose failure is recorded.
  abbrev pub Stopped : List OutboxRow → ℕ → Db → Db → Type 0
  Stopped rows n d d' =
      (d' ≡ d) × (n ≡ length rows)
      ⊎ ((row : OutboxRow) × (e : AppError) × (head_of (drop n rows) ≡ some row)
          × (d' ≡ with_outbox d (update (λ r. r.id == row.id) (bump (describe e)) d.outbox.rows)))

  pub record Drawn (rows : List OutboxRow) (done : List ℕ) (w : World) (ids : List ℕ) (v : World)
      : Type 0 where
    pub count : ℕ
    pub ids_are : ids ≡ done ++ take count (map (λ r. r.id) rows)
    pub published : v.published ≡ publish_all region w.now (take count rows) w.published
    pub stopped : Stopped rows count w.db v.db
    pub same_now : v.now ≡ w.now

  one_more :
      (row : OutboxRow) (rows : List OutboxRow) (done : List ℕ) (w : World) (fs : List Bool)
      (r : Result (List ℕ) × World)
      → Ensures
          (Drawn rows
            (done ++ row.id ∷ [])
            (record w { faults = fs; published = envelope region w.now row ∷ w.published }))
          r
      → Ensures (Drawn (row ∷ rows) done w) r
  one_more row rows done w fs r h = weaken _ (Drawn (row ∷ rows) done w) r h λ ids v d. record {
    count = suc d.count;
    ids_are = d.ids_are ∙ append_assoc done (row.id ∷ []) (take d.count (map (λ x. x.id) rows));
    published = d.published;
    stopped = elim d.stopped [ inl (same, all) ↦ inl (same, ap suc all) | inr stop ↦ inr stop ];
    same_now = d.same_now;
  }

  failed_at :
      (row : OutboxRow) (rows : List OutboxRow) (done : List ℕ) (w : World) (fs : List Bool)
      (e : AppError)
      → Ensures
          (Drawn (row ∷ rows) done w)
          ((statement (mark_failed row.id (describe e)) >> pure done) (record w { faults = fs }))
  unfolding mark_failed
  failed_at row rows done w fs e =
      bind_call (Drawn (row ∷ rows) done w) _ (λ _. pure done) (record w { faults = fs })
        λ gs. record {
          count = 0;
          ids_are = sym (append-nil done);
          published = refl;
          stopped = inr (row, e, refl, refl);
          same_now = refl;
        }

  -- What follows an attempt to publish a row.
  abbrev go_on : OutboxRow → List OutboxRow → List ℕ → Option AppError → M (List ℕ)
  go_on row rows done problem = elim problem [
    | none ↦ drain_rows describe region rows (done ++ row.id ∷ [])
    | some e ↦ statement (mark_failed row.id (describe e)) >> pure done
  ]

  attempted :
      (row : OutboxRow) (rows : List OutboxRow) (done : List ℕ) (w : World) (l : List Bool)
      → ((v : World)
          → Ensures
              (Drawn rows (done ++ row.id ∷ []) v)
              (drain_rows describe region rows (done ++ row.id ∷ []) v))
      → Ensures (Drawn (row ∷ rows) done w) (
          bind_result (go_on row rows done) (
            error_result (
              call_on
                (λ x. (ok tt, record x { published = envelope region x.now row ∷ x.published }))
                l
                w)))
  attempted row rows done w [] ih =
      let v = record w { faults = []; published = envelope region w.now row ∷ w.published } in
      one_more row rows done w [] (drain_rows describe region rows (done ++ row.id ∷ []) v) (ih v)
  attempted row rows done w (true ∷ fs) ih = failed_at row rows done w fs unexpected
  attempted row rows done w (false ∷ fs) ih =
      let v = record w { faults = fs; published = envelope region w.now row ∷ w.published } in
      one_more row rows done w fs (drain_rows describe region rows (done ++ row.id ∷ []) v) (ih v)

  pub drain_rows-Drawn :
      (rows : List OutboxRow) (done : List ℕ) (w : World)
      → Ensures (Drawn rows done w) (drain_rows describe region rows done w)
  unfolding drain_rows call
  drain_rows-Drawn [] done w = record {
    count = 0;
    ids_are = sym (append-nil done);
    published = refl;
    stopped = inl (refl, refl);
    same_now = refl;
  }
  drain_rows-Drawn (row ∷ rows) done w =
      attempted row rows done w w.faults (λ v. drain_rows-Drawn rows (done ++ row.id ∷ []) v)
