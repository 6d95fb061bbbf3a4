-- ===== src/Services/RateClient/Cache.antt =====
-- app/services/rate_client.py: the cache.
use mathlib.Core.Path.{subst}
use txn_event_processor.Prelude.{
  leb, Bool, true, false, sym, ltb, ap, ◌∙◌, if◌then◌else◌, eq_iff, ℕ, ◌+◌, String, Option, none,
  some, ◌≡◌, inl, inr, refl, arith,
}
use txn_event_processor.Prelude.Dict.{lookup, lookup-insert}
use txn_event_processor.Core.Errors.{Exn}
use txn_event_processor.Action.{pure, ◌>>=◌, ok, err, run-cases, Result-cases}
use txn_event_processor.Money.{Decimal}
use txn_event_processor.Services.External.{External, Response}
use txn_event_processor.Services.World.{World}
use txn_event_processor.Services.RateClient.{
  RateClient, or_fetch, if_fresh, cached, store, request, fetch, get_rate, rate_of,
}

module _ (x : External) (self : RateClient) (currency : String) where
  if_fresh-cache :
      (entry : Option (Decimal × ℕ)) (w : World x) → (if_fresh x self entry w).1.cache ≡ w.cache
  unfolding if_fresh
  if_fresh-cache none w = refl
  if_fresh-cache (some (rate, expires_at)) w = ground arith

  pub cached-cache : (w : World x) → (cached x self currency w).1.cache ≡ w.cache
  unfolding cached
  cached-cache w = if_fresh-cache (lookup currency w.cache) w

  pub request-cache : (w : World x) → (request x self currency w).1.cache ≡ w.cache
  unfolding request
  request-cache w = ground arith

  store_raises :
      (rate : Decimal) (w : World x) (e : Exn)
      → (store x self currency rate w).0 ≡ err e
      → (store x self currency rate w).1.cache ≡ w.cache
  unfolding store
  store_raises rate w e h = ground arith

  fetch_raises :
      (w : World x) (e : Exn)
      → (fetch x self currency w).0 ≡ err e
      → (fetch x self currency w).1.cache ≡ w.cache
  unfolding fetch
  fetch_raises w e h =
      let same = request-cache w in
      elim (run-cases (request x self currency) w) [
        | inr (y, u, q) ↦ ground arith
        | inl (r, u, q) ↦ elim (Result-cases (rate_of x currency r)) [
          | inr (y, z) ↦ ground arith
          | inl (rate, z) ↦ elim (run-cases (store x self currency rate) u) [
            | inr (y, v, k) ↦ ground (arith, store_raises rate u y)
            | inl (_, v, k) ↦ absurd (ground arith)
          ]
        ]
      ]

  -- A rate lookup that raises leaves the cache as it was: failures are never cached.
  pub get_rate_raises :
      (w : World x) (e : Exn)
      → (get_rate x self currency w).0 ≡ err e
      → (get_rate x self currency w).1.cache ≡ w.cache
  unfolding get_rate
  get_rate_raises w e h =
      let same = cached-cache w in
      elim (run-cases (cached x self currency) w) [
        | inr (y, u, q) ↦ ground arith
        | inl (some rate, u, q) ↦ absurd (ground arith)
        | inl (none, u, q) ↦ ground (arith, fetch_raises u e)
      ]

  request_clock : (w : World x) → (request x self currency w).1.time ≡ w.time
  unfolding request
  request_clock w = ground arith

  request-time :
      (w u : World x) (r : Response) → request x self currency w ≡ (ok r, u) → u.time ≡ w.time
  request-time w u r h = ap (λ z. z.1.time) (sym h) ∙ request_clock w

  store_entry :
      (rate : Decimal) (w v : World x) (start : ℕ) (t : x.T)
      → x.monotonic w.time ≡ (ok start, t)
      → store x self currency rate w ≡ (ok tt, v)
      → lookup currency v.cache ≡ some (rate, start + self.cache_ttl_s)
  unfolding store
  store_entry rate w v start t p h = ground (
    arith,
    eq_iff currency currency,
    lookup-insert currency currency (rate, start + self.cache_ttl_s) w.cache,
  )

  fetch_entry :
      (w v : World x) (rate : Decimal) (start : ℕ) (t : x.T)
      → x.monotonic w.time ≡ (ok start, t)
      → fetch x self currency w ≡ (ok rate, v)
      → lookup currency v.cache ≡ some (rate, start + self.cache_ttl_s)
  unfolding fetch
  fetch_entry w v rate start t p h = elim (run-cases (request x self currency) w) [
    | inr (y, u, q) ↦ absurd (ground arith)
    | inl (r, u, q) ↦ elim (Result-cases (rate_of x currency r)) [
      | inr (y, z) ↦ absurd (ground arith)
      | inl (found, z) ↦ elim (run-cases (store x self currency found) u) [
        | inr (y, k, l) ↦ absurd (ground arith)
        | inl (_, k, l) ↦
            let same : found ≡ rate = ground arith in
            let end : k ≡ v = ground arith in
            let clock : u.time ≡ w.time = request-time w u r q in
            let c = store_entry found u k start t (ap x.monotonic clock ∙ p) l in
            subst (λ s. lookup currency s.cache ≡ some (rate, start + self.cache_ttl_s)) end
              (subst (λ a. lookup currency k.cache ≡ some (a, start + self.cache_ttl_s)) same c)
      ]
    ]
  ]

  before_after :
      (rate : Decimal) (e n : ℕ)
      → (if leb e n then none else some rate) ≡ (if ltb n e then some rate else none)
  before_after rate e n = ground arith

  -- The entry counts while the clock is before its expiry.
  cached_entry :
      (w : World x) (rate : Decimal) (expires_at now : ℕ) (s : x.T)
      → lookup currency w.cache ≡ some (rate, expires_at)
      → x.monotonic w.time ≡ (ok now, s)
      → cached x self currency w
        ≡ (ok (if ltb now expires_at then some rate else none), record w { time = s })
  unfolding cached if_fresh
  cached_entry w rate expires_at now s p q =
      ap (λ e. if_fresh x self e w) p
      ∙ ap
          (λ z.
            ((λ _. (z.0, record w { time = z.1 })) >>= λ n.
            pure (if leb expires_at n then none else some rate))
              w)
          q
      ∙ ap (λ o. (ok o, record w { time = s })) (before_after rate expires_at now)

  answer_or_fetch :
      (b : Bool) (rate : Decimal) (z : World x)
      → or_fetch x self currency (if b then some rate else none) z
        ≡ (if b then (ok rate, z) else fetch x self currency z)
  answer_or_fetch true rate z = refl
  answer_or_fetch false rate z = refl

  entry_answers :
      (w : World x) (rate : Decimal) (expires_at now : ℕ) (s : x.T)
      → lookup currency w.cache ≡ some (rate, expires_at)
      → x.monotonic w.time ≡ (ok now, s)
      → get_rate x self currency w ≡ (
          if ltb now expires_at
          then (ok rate, record w { time = s })
          else fetch x self currency (record w { time = s }))
  unfolding get_rate
  entry_answers w rate expires_at now s p q =
      ap (λ z. ((λ _. z) >>= or_fetch x self currency) w) (cached_entry w rate expires_at now s p q)
      ∙ answer_or_fetch (ltb now expires_at) rate (record w { time = s })

  -- A rate that `get_rate` has looked up, because the cache had no rate for the currency that still
  -- counted, answers for `cache_ttl_s` by the monotonic clock and no longer: a later call with the
  -- same cache, whose clock reads a time before the time at which the rate was stored plus
  -- `cache_ttl_s`, returns the same rate and changes nothing but the state of the clock, and any
  -- other does what asking the service does.
  pub get_rate-get_rate :
      (w u v y : World x) (rate : Decimal) (start now : ℕ) (t s : x.T)
      → cached x self currency w ≡ (ok none, u)
      → x.monotonic u.time ≡ (ok start, t)
      → get_rate x self currency w ≡ (ok rate, v)
      → y.cache ≡ v.cache
      → x.monotonic y.time ≡ (ok now, s)
      → get_rate x self currency y ≡ (
          if ltb now (start + self.cache_ttl_s)
          then (ok rate, record y { time = s })
          else fetch x self currency (record y { time = s }))
  unfolding get_rate
  get_rate-get_rate w u v y rate start now t s m p h same q =
      let e = fetch_entry u v rate start t p (ground arith) in
      entry_answers y rate (start + self.cache_ttl_s) now s (ap (lookup currency) same ∙ e) q
