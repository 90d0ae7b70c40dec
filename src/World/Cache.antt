-- ===== src/World/Cache.antt =====
-- The commands of the cache provider: `src/pkg/cache/cache.interface.ts` and `redis.ts`, on one family
-- of keys. Times are in milliseconds and lifetimes in seconds, as in the source.
use mathlib.Core.Option.{get_or}
use quick_bite_order_service.Common.{
  Bool, Dict, Eq, Option, arith, beq_refl, erase, false, if◌then◌else◌, insert, is_some, lookup,
  lookup-erase, lookup-insert, ltb, nat_eq, none, refl, some, string_eq, true, ℕ, ◌*◌, ◌+◌, ◌<◌,
  ◌==◌, ◌∙◌, ◌≡◌,
}
use quick_bite_order_service.Order.Model.{actor_eq, status_eq}
use quick_bite_order_service.World.State.{Entry}

-- An entry counts until it expires.
abbrev pub current : {V : Type 0} → ℕ → Option (Entry V) → Option V
current now none = none
current now (some entry) = elim entry.expires_at [
  | none ↦ some entry.value
  | some at ↦ if ltb now at then some entry.value else none
]

-- `get`
abbrev pub live {ℓ} : {K : Type ℓ} {V : Type 0} ⦃e : Eq K⦄ → ℕ → K → Dict K (Entry V) → Option V
live now k d = current now (lookup k d)

-- `ttlSeconds ? … : …`: a lifetime of 0 is none.
abbrev pub expiry : ℕ → ℕ → Option ℕ
expiry now ttl = if ttl == 0 then none else some (now + ttl * 1000)

module _ {ℓ} {K : Type ℓ} {V : Type 0} ⦃e : Eq K⦄ where
  -- `set`
  abbrev pub set : ℕ → K → V → ℕ → Dict K (Entry V) → Dict K (Entry V)
  set now k v ttl d = insert k (record { value = v; expires_at = expiry now ttl }) d

  -- `trySet`: true if the key was not there.
  abbrev pub try_set : ℕ → K → V → ℕ → Dict K (Entry V) → Bool × Dict K (Entry V)
  try_set now k v ttl d = if is_some (live now k d) then (false, d) else (true, set now k v ttl d)

  -- The instant at which the key expires, if it is there and does.
  abbrev pub expires : ℕ → K → Dict K (Entry V) → Option ℕ
  expires now k d =
      if is_some (live now k d)
      then elim (lookup k d) [ none ↦ none | some entry ↦ entry.expires_at ]
      else none

  -- `expire`: nothing happens to a key that is not there.
  abbrev pub expire : ℕ → K → ℕ → Dict K (Entry V) → Dict K (Entry V)
  expire now k ttl d = elim (live now k d) [
    | none ↦ d
    | some v ↦ insert k (record { value = v; expires_at = some (now + ttl * 1000) }) d
  ]

  -- `hsetWithTtl` of all fields: without a lifetime the one of the key stays.
  abbrev pub hset_with_ttl : ℕ → K → V → ℕ → Dict K (Entry V) → Dict K (Entry V)
  hset_with_ttl now k v ttl d =
      let at = if ttl == 0 then expires now k d else some (now + ttl * 1000) in
      insert k (record { value = v; expires_at = at }) d

  pub live-set :
      (now : ℕ) (k j : K) (v : V) (ttl : ℕ) (d : Dict K (Entry V))
      → live now j (set now k v ttl d) ≡ (if k == j then some v else live now j d)
  live-set now k j v ttl d =
      let entry : Entry V = record { value = v; expires_at = expiry now ttl } in
      rw (live, lookup-insert k j entry d) (ground arith)

  pub live-erase :
      (now : ℕ) (k j : K) (d : Dict K (Entry V))
      → live now j (erase k d) ≡ (if k == j then none else live now j d)
  live-erase now k j d = rw (live, lookup-erase k j d) (ground arith)

module _ {ℓ} {K : Type ℓ} {V : Type 0} ⦃e : Eq K⦄ where
  -- Who sets the key found it free.
  pub try_set-free :
      (now : ℕ) (k : K) (v : V) (ttl : ℕ) (d : Dict K (Entry V))
      → (try_set now k v ttl d).0 ≡ true
      → live now k d ≡ none
  try_set-free now k v ttl d h = ground arith

  pub try_set-fresh :
      (now : ℕ) (k : K) (v : V) (ttl : ℕ) (d : Dict K (Entry V))
      → live now k d ≡ none
      → try_set now k v ttl d ≡ (true, set now k v ttl d)
  try_set-fresh now k v ttl d h = rw h refl

  -- A key that is there refuses.
  pub try_set-taken :
      (now : ℕ) (k : K) (v w : V) (ttl : ℕ) (d : Dict K (Entry V))
      → live now k d ≡ some w
      → try_set now k v ttl d ≡ (false, d)
  try_set-taken now k v w ttl d h = ground arith

-- `incr`: a key that is not there counts from 0 and does not expire.
abbrev pub incr {ℓ} : {K : Type ℓ} ⦃e : Eq K⦄ → ℕ → K → Dict K (Entry ℕ) → Dict K (Entry ℕ)
incr now k d = elim (live now k d) [
  | none ↦ insert k (record { value = 1; expires_at = none }) d
  | some n ↦ insert k (record { value = n + 1; expires_at = expires now k d }) d
]

-- A value written with the end of one that counts counts.
renewed :
    {V : Type 0} (now : ℕ) (o : Option (Entry V)) (v w : V)
    → current now o ≡ some v
    → current now (
        some (record {
          value = w;
          expires_at =
              if is_some (current now o)
              then elim o [ none ↦ none | some entry ↦ entry.expires_at ]
              else none;
        }))
      ≡ some w
renewed now none v w h = cc
renewed now (some entry) v w h = ground arith

module _ {ℓ} {K : Type ℓ} {V : Type 0} ⦃e : Eq K⦄ where
  live-insert_same :
      (now : ℕ) (k : K) (entry : Entry V) (d : Dict K (Entry V))
      → live now k (insert k entry d) ≡ current now (some entry)
  live-insert_same now k entry d = rw (live, lookup-insert k k entry d) (rw (beq_refl k) refl)

  -- The key keeps its value.
  pub live-expire :
      (now : ℕ) (k : K) (ttl : ℕ) (d : Dict K (Entry V))
      → 0 < ttl
      → live now k (expire now k ttl d) ≡ live now k d
  live-expire now k ttl d long = by_value (live now k d) refl
    where
      by_value : (o : Option V) → live now k d ≡ o → live now k (expire now k ttl d) ≡ live now k d
      by_value none h = rw (expire, h) h
      by_value (some v) h =
          let entry : Entry V = record { value = v; expires_at = some (now + ttl * 1000) } in
          rw (expire, h) (live-insert_same now k entry d ∙ ground arith)

-- `incr` adds one to what was there.
pub live-incr {ℓ} :
    {K : Type ℓ} ⦃e : Eq K⦄ (now : ℕ) (k : K) (d : Dict K (Entry ℕ))
    → live now k (incr now k d) ≡ some (get_or (live now k d) 0 + 1)
live-incr {K = K} ⦃e⦄ now k d = by_value (live now k d) refl
  where
    by_value :
        (o : Option ℕ)
        → live now k d ≡ o
        → live now k (incr now k d) ≡ some (get_or (live now k d) 0 + 1)
    by_value none h =
        let entry : Entry ℕ = record { value = 1; expires_at = none } in
        rw (incr, h) (live-insert_same now k entry d)
    by_value (some n) h =
        let entry : Entry ℕ = record { value = n + 1; expires_at = expires now k d } in
        rw (incr, h) (live-insert_same now k entry d ∙ renewed now (lookup k d) n (n + 1) h)
