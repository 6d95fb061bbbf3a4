-- ===== src/Services/RateClient/Quotes/Memory.antt =====
-- app/services/rate_client.py against rate_service/main.py: what the cache holds.
use mathlib.Core.Path.{subst}
use txn_event_processor.Prelude.{
  sym, ℕ, ◌+◌, String, none, some, false, ◌≡◌, ◌⊎◌, inl, inr, arith, Bool-cases, str_eq, eq_iff,
}
use txn_event_processor.Prelude.Dict.{Dict, lookup, insert, lookup-insert}
use txn_event_processor.Core.Errors.{Exn, is_permanent}
use txn_event_processor.Action.{Action, ok, err, run-cases, Result-cases}
use txn_event_processor.Money.{Decimal}
use txn_event_processor.Rates.{Service, rate_table}
use txn_event_processor.Services.External.{External}
use txn_event_processor.Services.World.{World}
use txn_event_processor.Services.RateClient.{
  RateClient, cached, store, request, fetch, get_rate, rate_of,
}
use txn_event_processor.Services.RateClient.Quotes.{
  IsPlain, Quotes, IsServed, IsTableRate, IsFaithful,
}
use txn_event_processor.Services.RateClient.Cache.{request-cache, cached-cache, get_rate_raises}
use txn_event_processor.Services.RateClient.Quotes.Lookup.{get_rate_table, get_rate-permanent}

module _ (x : External) (self : RateClient) {T : Type 0} (upper repr : String → String)
    (sleep : ℕ → Action T (Unit {0})) (service : x.H → Service T)
    (served : IsServed x self.base_url upper repr sleep service) (c : String)
    (plain : IsPlain c) where
  store-insert :
      (rate : Decimal) (w v : World x)
      → store x self c rate w ≡ (ok tt, v)
      → (t : ℕ) × (v.cache ≡ insert c (rate, t) w.cache)
  unfolding store
  store-insert rate w v h = elim (run-cases x.monotonic w.time) [
    | inr (e, u, q) ↦ absurd (ground arith)
    | inl (t, u, q) ↦ (t + self.cache_ttl_s, ground arith)
  ]

  insert-IsFaithful :
      (rate : Decimal) (t : ℕ) (cache : Dict (Decimal × ℕ))
      → IsTableRate x upper c rate
      → IsFaithful x upper cache
      → IsFaithful x upper (insert c (rate, t) cache)
  insert-IsFaithful rate t cache new f d r u h = elim (Bool-cases (str_eq c d)) [
    | inl e ↦
        let name : c ≡ d = ground (arith, eq_iff c d) in
        let value : rate ≡ r = ground (arith, lookup-insert c d (rate, t) cache) in
        subst (λ k. IsTableRate x upper k r) name (subst (IsTableRate x upper c) value new)
    | inr e ↦ f d r u (ground (arith, lookup-insert c d (rate, t) cache))
  ]

  fetch_cache :
      (w : World x) (rate : Decimal)
      → (fetch x self c w).0 ≡ ok rate
      → (t : ℕ) × ((fetch x self c w).1.cache ≡ insert c (rate, t) w.cache)
  unfolding fetch
  fetch_cache w rate h = elim (run-cases (request x self c) w) [
    | inr (y, u, q) ↦ absurd (ground arith)
    | inl (r, u, q) ↦ elim (Result-cases (rate_of x c r)) [
      | inr (y, z) ↦ absurd (ground arith)
      | inl (found, z) ↦ elim (run-cases (store x self c found) u) [
        | inr (y, v, k) ↦ absurd (ground arith)
        | inl (_, v, k) ↦
            let (t, e) = store-insert found u v k in
            let same = request-cache x self c w in
            let found_rate : found ≡ rate = ground arith in (t, ground arith)
      ]
    ]
  ]

  fills :
      (w : World x) (rate : Decimal)
      → (get_rate x self c w).0 ≡ ok rate
      → ((get_rate x self c w).1.cache ≡ w.cache)
        ⊎ ((t : ℕ) × ((get_rate x self c w).1.cache ≡ insert c (rate, t) w.cache))
  unfolding get_rate
  fills w rate h =
      let same = cached-cache x self c w in
      elim (run-cases (cached x self c) w) [
        | inr (y, u, q) ↦ absurd (ground arith)
        | inl (some r, u, q) ↦ inl (ground arith)
        | inl (none, u, q) ↦ let (t, e) = fetch_cache u rate (ground arith) in inr (t, ground arith)
      ]

  -- What a lookup does to the cache.
  get_rate_cache :
      (w : World x)
      → IsFaithful x upper w.cache
      → ((get_rate x self c w).1.cache ≡ w.cache)
        ⊎ ((rate : Decimal) × (t : ℕ) × IsTableRate x upper c rate
            × ((get_rate x self c w).1.cache ≡ insert c (rate, t) w.cache))
  get_rate_cache w f = elim (Result-cases (get_rate x self c w).0) [
    | inr (e, p) ↦ inl (get_rate_raises x self c w e p)
    | inl (rate, p) ↦ elim (fills w rate p) [
      | inl e ↦ inl e
      | inr (t, e) ↦
          inr (rate, t, get_rate_table x self upper repr sleep service served c plain w rate f p, e)
    ]
  ]

  get_rate-IsFaithful :
      (w : World x) → IsFaithful x upper w.cache → IsFaithful x upper (get_rate x self c w).1.cache
  get_rate-IsFaithful w f = elim (get_rate_cache w f) [
    | inl e ↦ subst (IsFaithful x upper) (sym e) f
    | inr (rate, t, r, e) ↦
        subst (IsFaithful x upper) (sym e) (insert-IsFaithful rate t w.cache r f)
  ]

  -- The rate client on the rate service, for a currency of letters: whatever the service's fault
  -- switch, the network and the clock do, if every cached rate is the service's table rate of its
  -- currency, then `get_rate` returns the table rate or raises, it raises a permanent error only
  -- for a currency that the table lacks, and every cached rate is a table rate afterwards too. This
  -- is provided the HTTP client hands on the service's responses as FastAPI makes them, and no
  -- library call raises one of the application's permanent errors.
  pub get_rate-Quotes :
      (w : World x)
      → IsFaithful x upper w.cache
      → Quotes x upper c (get_rate x self c w).0 × IsFaithful x upper (get_rate x self c w).1.cache
  get_rate-Quotes w f = (
    elim (Result-cases (get_rate x self c w).0) [
      | inl (rate, p) ↦
          rw p (get_rate_table x self upper repr sleep service served c plain w rate f p)
      | inr (e, p) ↦ rw p (refusal e p)
    ],
    get_rate-IsFaithful w f,
  )
    where
      refusal :
          (e : Exn)
          → (get_rate x self c w).0 ≡ err e
          → (is_permanent e ≡ false) ⊎ (lookup (upper c) rate_table ≡ none)
      refusal e p = elim (Bool-cases (is_permanent e)) [
        | inl q ↦ inr (get_rate-permanent x self upper repr sleep service served c plain w e p q)
        | inr q ↦ inl q
      ]
