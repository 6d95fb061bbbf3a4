-- ===== src/Services/RateClient/Quotes/Lookup.antt =====
-- app/services/rate_client.py against rate_service/main.py: the rates and the errors of a lookup.
use Prim.Native.String.{◌++◌ as str_append}
use txn_event_processor.Prelude.{
  ℕ, String, none, some, true, false, ◌≡◌, inl, inr, arith, Option-cases, Bool-cases,
}
use txn_event_processor.Prelude.Dict.{lookup}
use txn_event_processor.Core.Errors.{Exn, is_permanent}
use txn_event_processor.Action.{Action, ok, err, run-cases, Result-cases}
use txn_event_processor.Money.{Decimal}
use txn_event_processor.Rates
use txn_event_processor.Rates.{
  Service, rate_table, Mode, misbehave, quote, error, timeout, no_fault,
}
use txn_event_processor.Services.External.{External, Response}
use txn_event_processor.Services.World.{World}
use txn_event_processor.Services.RateClient.{
  is_request_error, translate_request_error, RateClient, if_fresh, cached, store, request, fetch,
  get_rate, rate_of,
}
use txn_event_processor.Services.RateClient.Quotes.{
  IsPlain, reply, answers-cases, IsServed, IsTableRate, IsFaithful,
}

module _ (x : External) (self : RateClient) {T : Type 0} (upper repr : String → String)
    (sleep : ℕ → Action T (Unit {0})) (service : x.H → Service T)
    (served : IsServed x self.base_url upper repr sleep service) (c : String)
    (plain : IsPlain c) where
  rate_of-table :
      (response : Response) (s : Service T)
      → response ≡ reply (Rates.get_rate upper repr sleep c s).0
      → (rate : Decimal) → rate_of x c response ≡ ok rate
      → IsTableRate x upper c rate
  unfolding rate_of
  rate_of-table response s p rate h =
      elim (answers-cases upper repr sleep served.sleep_raises c s) [
        | inl (text, q, e) ↦ (text, q, ground arith)
        | inr (inl (d, q, e)) ↦ absurd (ground arith)
        | inr (inr (y, q, e)) ↦ absurd (ground arith)
      ]

  rate_of-permanent :
      (response : Response) (s : Service T)
      → response ≡ reply (Rates.get_rate upper repr sleep c s).0
      → (e : Exn) → rate_of x c response ≡ err e
      → is_permanent e ≡ true
      → lookup (upper c) rate_table ≡ none
  unfolding rate_of is_permanent
  rate_of-permanent response s p y h per =
      elim (answers-cases upper repr sleep served.sleep_raises c s) [
        | inl (text, q, e) ↦ absurd (ground (arith, served.decimal_raises text y))
        | inr (inl (d, q, e)) ↦ q
        | inr (inr (y', q, e)) ↦ absurd (ground arith)
      ]

  request_response :
      (w v : World x) (response : Response)
      → request x self c w ≡ (ok response, v)
      → response ≡ reply (Rates.get_rate upper repr sleep c (service w.http)).0
  unfolding request
  request_response w v response h =
      elim (run-cases (x.http_get (str_append self.base_url (str_append "/rates/" c))) w.http) [
        | inl (r, h', p) ↦ served.answers c w.http response plain (ground arith)
        | inr (e, h', p) ↦ absurd (ground arith)
      ]

  request-permanent :
      (w v : World x) (e : Exn) → request x self c w ≡ (err e, v) → is_permanent e ≡ false
  unfolding request translate_request_error is_permanent
  request-permanent w v e h =
      let url = str_append self.base_url (str_append "/rates/" c) in
      elim (run-cases (x.http_get url) w.http) [
        | inl (r, h', p) ↦ absurd (ground arith)
        | inr (y, h', p) ↦ elim (Bool-cases (is_request_error y)) [
          | inl q ↦ ground arith
          | inr q ↦ ground (arith, served.http_raises url w.http y)
        ]
      ]

  fetch_table :
      (w : World x) (rate : Decimal) → (fetch x self c w).0 ≡ ok rate → IsTableRate x upper c rate
  unfolding fetch
  fetch_table w rate h = elim (run-cases (request x self c) w) [
    | inr (y, u, q) ↦ absurd (ground arith)
    | inl (r, u, q) ↦ elim (Result-cases (rate_of x c r)) [
      | inr (y, z) ↦ absurd (ground arith)
      | inl (found, z) ↦ elim (run-cases (store x self c found) u) [
        | inr (y, v, k) ↦ absurd (ground arith)
        | inl (_, v, k) ↦
            let same : found ≡ rate = ground arith in
            let e = request_response w u r q in
            rate_of-table r (service w.http) e rate (ground arith)
      ]
    ]
  ]

  store-permanent :
      (rate : Decimal) (w : World x) (e : Exn)
      → (store x self c rate w).0 ≡ err e
      → is_permanent e ≡ false
  unfolding store
  store-permanent rate w e h = elim (run-cases x.monotonic w.time) [
    | inl (t, u, p) ↦ absurd (ground arith)
    | inr (y, u, p) ↦ ground (arith, served.clock_raises w.time y)
  ]

  fetch-permanent :
      (w : World x) (e : Exn)
      → (fetch x self c w).0 ≡ err e
      → is_permanent e ≡ true
      → lookup (upper c) rate_table ≡ none
  unfolding fetch
  fetch-permanent w e h per = elim (run-cases (request x self c) w) [
    | inr (y, u, q) ↦ absurd (ground (arith, request-permanent w u y q))
    | inl (r, u, q) ↦ elim (Result-cases (rate_of x c r)) [
      | inr (y, z) ↦
          rate_of-permanent r (service w.http) (request_response w u r q) y z (ground arith)
      | inl (found, z) ↦ elim (run-cases (store x self c found) u) [
        | inr (y, v, k) ↦ absurd (ground (arith, store-permanent found u y))
        | inl (_, v, k) ↦ absurd (ground arith)
      ]
    ]
  ]

  cached_table :
      (w : World x) (rate : Decimal)
      → IsFaithful x upper w.cache
      → (cached x self c w).0 ≡ ok (some rate)
      → IsTableRate x upper c rate
  unfolding cached if_fresh
  cached_table w rate f h = elim (Option-cases (lookup c w.cache)) [
    | inl e ↦ absurd (ground arith)
    | inr ((r, t), e) ↦ elim (run-cases x.monotonic w.time) [
      | inl (now, u, p) ↦ let (text, l, d) = f c r t e in (text, l, ground arith)
      | inr (y, u, p) ↦ absurd (ground arith)
    ]
  ]

  cached-permanent :
      (w : World x) (e : Exn) → (cached x self c w).0 ≡ err e → is_permanent e ≡ false
  unfolding cached if_fresh
  cached-permanent w e h = elim (Option-cases (lookup c w.cache)) [
    | inl l ↦ absurd (ground arith)
    | inr ((r, t), l) ↦ elim (run-cases x.monotonic w.time) [
      | inl (now, u, p) ↦ absurd (ground arith)
      | inr (y, u, p) ↦ ground (arith, served.clock_raises w.time y)
    ]
  ]

  pub get_rate_table :
      (w : World x) (rate : Decimal)
      → IsFaithful x upper w.cache
      → (get_rate x self c w).0 ≡ ok rate
      → IsTableRate x upper c rate
  unfolding get_rate
  get_rate_table w rate f h = elim (run-cases (cached x self c) w) [
    | inr (y, u, q) ↦ absurd (ground arith)
    | inl (some r, u, q) ↦ cached_table w rate f (ground arith)
    | inl (none, u, q) ↦ fetch_table u rate (ground arith)
  ]

  pub get_rate-permanent :
      (w : World x) (e : Exn)
      → (get_rate x self c w).0 ≡ err e
      → is_permanent e ≡ true
      → lookup (upper c) rate_table ≡ none
  unfolding get_rate
  get_rate-permanent w e h per = elim (run-cases (cached x self c) w) [
    | inr (y, u, q) ↦ absurd (ground (arith, cached-permanent w y))
    | inl (some r, u, q) ↦ absurd (ground arith)
    | inl (none, u, q) ↦ fetch-permanent u e (ground arith) per
  ]
