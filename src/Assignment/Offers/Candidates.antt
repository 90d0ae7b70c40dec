-- ===== src/Assignment/Offers/Candidates.antt =====
-- Whom `findCandidates` finds.
use mathlib.Core.List.{append_assoc, append-nil}
use quick_bite_order_service.Assignment.Config.{CacheServer, DeliveryConfig}
use quick_bite_order_service.Assignment.Offers.{filter_candidates, find_candidates, is_present}
use quick_bite_order_service.Common.{
  Bool, List, [], arith, contains, false, if◌then◌else◌, keep, leb, length, length-append, nat_eq,
  not, refl, string_eq, subst, suc, sym, take, true, zero, ℕ, ℤ, ◌&&◌, ◌*◌, ◌++◌, ◌+◌, ◌∙◌, ◌∷◌,
  ◌≡◌,
}
use quick_bite_order_service.Order.Model.{actor_eq, status_eq}
use quick_bite_order_service.World.Monad.{command, pure, ◌>>=◌}
use quick_bite_order_service.World.Reads.{Reads, Reads-bind, Reads-weaken, at_faults, command-Reads}
use quick_bite_order_service.World.State.{Redis, World}

-- Online and not busy.
abbrev pub is_available : ℕ → Redis → ℕ → Bool
is_available now r a = is_present a now r && not (contains r.busy a)

-- The loop pushes before it compares, so it collects one agent even where the setting is 0.
abbrev pub cap : ℕ → ℕ
cap zero = 1
cap (suc n) = suc n

cap_le : (limit len room : ℕ) → len + suc room ≡ cap limit → leb limit (len + 1) ≡ true → room ≡ 0
cap_le zero len room e h = omega arith
cap_le (suc n) len room e h = ground arith

cap_gt :
    (limit len room : ℕ)
    → len + suc room ≡ cap limit
    → leb limit (len + 1) ≡ false
    → (less : ℕ) × (room ≡ suc less)
cap_gt zero len room e h = ground arith
cap_gt (suc n) len zero e h = ground arith
cap_gt (suc n) len (suc room) e h = (room, refl)

module _ (limit : ℕ) where
  -- What the loop returns, with `room` for more after the next one.
  abbrev Collects : ℕ → Redis → List ℕ → List ℕ → ℕ → List ℕ → Type 0
  Collects now r result rest room l = l ≡ result ++ take (suc room) (keep (is_available now r) rest)

  -- One more agent, who does not count, or does.
  skip :
      (now : ℕ) (r : Redis) (a : ℕ) (result rest : List ℕ) (room : ℕ) (l : List ℕ)
      → is_available now r a ≡ false
      → Collects now r result rest room l
      → Collects now r result (a ∷ rest) room l
  skip now r a result rest room l off h = rw off h

  push :
      (now : ℕ) (r : Redis) (a : ℕ) (result rest : List ℕ) (room : ℕ) (l : List ℕ)
      → is_available now r a ≡ true
      → Collects now r (result ++ a ∷ []) rest room l
      → Collects now r result (a ∷ rest) (suc room) l
  push now r a result rest room l on h =
      rw on (h ∙ append_assoc result (a ∷ []) (take (suc room) (keep (is_available now r) rest)))

  stop :
      (now : ℕ) (r : Redis) (a : ℕ) (result rest : List ℕ) (room : ℕ)
      → is_available now r a ≡ true
      → room ≡ 0
      → Collects now r result (a ∷ rest) room (result ++ a ∷ [])
  stop now r a result rest room on full = rw on (rw full refl)

  -- The loop does its work on the agents `rest`.
  abbrev Works : List ℕ → Type 0
  Works rest =
      (result : List ℕ) (room : ℕ) (w : World)
      → length result + suc room ≡ cap limit
      → Reads (Collects w.now w.redis result rest room) w (filter_candidates limit rest result w)

  after_busy :
      (a : ℕ) (rest result : List ℕ) (room : ℕ) (w : World) (c full : Bool)
      → Works rest
      → length result + suc room ≡ cap limit
      → true ≡ is_present a w.now w.redis
      → c ≡ contains w.redis.busy a
      → leb limit (length (result ++ a ∷ [])) ≡ full
      → Reads (Collects w.now w.redis result (a ∷ rest) room) w (
          (if c
              then filter_candidates limit rest result
              else if full
              then pure (result ++ a ∷ [])
              else filter_candidates limit rest (result ++ a ∷ []))
            w)
  after_busy a rest result room w true full ih e is_b is_c f =
      Reads-weaken _ _ w (filter_candidates limit rest result w) (ih result room w e)
        (λ l. skip w.now w.redis a result rest room l (ground (arith, is_c)))
  after_busy a rest result room w false true ih e is_b is_c f = (
    w.faults,
    refl,
    stop w.now w.redis a result rest room (ground (arith, is_b, is_c))
        (cap_le limit (length result) room e (ground (arith, f, length-append result (a ∷ [])))),
  )
  after_busy a rest result room w false false ih e is_b is_c f =
      let (less, more) =
        cap_gt limit (length result) room e (ground (arith, f, length-append result (a ∷ []))) in
      subst
        (λ n.
          Reads (Collects w.now w.redis result (a ∷ rest) n) w
            (filter_candidates limit rest (result ++ a ∷ []) w))
        (sym more)
        (Reads-weaken _ _ w (filter_candidates limit rest (result ++ a ∷ []) w)
          (ih (result ++ a ∷ []) less w (omega (arith, length-append result (a ∷ []), e, more)))
          (λ l. push w.now w.redis a result rest less l (ground (arith, is_b, is_c))))

  after_present :
      (a : ℕ) (rest result : List ℕ) (room : ℕ) (w : World) (b : Bool)
      → Works rest
      → length result + suc room ≡ cap limit
      → b ≡ is_present a w.now w.redis
      → Reads (Collects w.now w.redis result (a ∷ rest) room) w (
          (if not b
              then filter_candidates limit rest result
              else (command (λ now r. (contains r.busy a, r)) >>= λ occupied.
                  if occupied
                  then filter_candidates limit rest result
                  else if leb limit (length (result ++ a ∷ []))
                  then pure (result ++ a ∷ [])
                  else filter_candidates limit rest (result ++ a ∷ [])))
            w)
  after_present a rest result room w false ih e is_b =
      Reads-weaken _ _ w (filter_candidates limit rest result w) (ih result room w e)
        (λ l. skip w.now w.redis a result rest room l (rw (sym is_b) refl))
  after_present a rest result room w true ih e is_b =
      Reads-bind (λ c. c ≡ contains w.redis.busy a) (Collects w.now w.redis result (a ∷ rest) room)
        w _ _ (command-Reads w (λ now r. contains r.busy a))
        λ c fs is_c.
          after_busy a rest result room (at_faults w fs) c (leb limit (length (result ++ a ∷ [])))
            ih e is_b is_c refl

  filter_candidates-Works : (rest : List ℕ) → Works rest
  unfolding filter_candidates
  filter_candidates-Works [] result room w e = (w.faults, refl, sym (append-nil result))
  filter_candidates-Works (a ∷ rest) result room w e =
      Reads-bind (λ b. b ≡ is_present a w.now w.redis)
        (Collects w.now w.redis result (a ∷ rest) room) w _ _
        (command-Reads w (λ now r. is_present a now r))
        λ b fs is_b.
          after_present a rest result room (at_faults w fs) b (filter_candidates-Works rest) e is_b

-- What `findCandidates` answers: of the agents near the branch, the nearest first, those online and not
-- busy, up to the number that the settings allow, or one where they allow none.
abbrev pub chosen : CacheServer → DeliveryConfig → ℤ → ℤ → ℕ → Redis → List ℕ
chosen server config lng lat now r = take (cap config.candidates) (
    keep (is_available now r)
      (server.nearest r.geo lng lat config.radius_meters (config.candidates * 4)))

cap_split : (n : ℕ) → (room : ℕ) × (suc room ≡ cap n)
cap_split zero = (0, refl)
cap_split (suc n) = (n, refl)

-- A search for candidates changes nothing, and if it returns, then with the nearest agents that are online
-- and not busy, as many as the settings allow.
pub find_candidates-Reads :
    (server : CacheServer) (config : DeliveryConfig) (lng lat : ℤ) (w : World)
    → Reads
        (λ l. l ≡ chosen server config lng lat w.now w.redis)
        w
        (find_candidates server config lng lat w)
unfolding find_candidates
find_candidates-Reads server config lng lat w =
    let near = λ (now : ℕ) (r : Redis).
      server.nearest r.geo lng lat config.radius_meters (config.candidates * 4) in
    let (room, e) = cap_split config.candidates in
    Reads-bind (λ raw. raw ≡ near w.now w.redis)
      (λ l. l ≡ chosen server config lng lat w.now w.redis) w _ _ (command-Reads w near)
      λ raw fs is_raw.
        Reads-weaken _ _ (at_faults w fs)
          (filter_candidates config.candidates raw [] (at_faults w fs))
          (filter_candidates-Works config.candidates raw [] room (at_faults w fs)
            (omega (arith, e)))
          λ l h. h ∙ rw (is_raw, e) refl
