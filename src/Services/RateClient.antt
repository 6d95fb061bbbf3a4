-- ===== src/Services/RateClient.antt =====
-- app/services/rate_client.py: `RateClient`, with its cache in the worker's state.
pub mod Cache
pub mod Quotes
use Prim.Native.String.{◌++◌ as str_append}
use txn_event_processor.Prelude.{
  ℕ, ◌+◌, String, Option, none, some, Bool, true, false, leb, ◌==◌, ◌&&◌, if◌then◌else◌,
}
use txn_event_processor.Prelude.Dict.{lookup, insert}
use txn_event_processor.Core.Errors.{
  Exn, rate_service_unavailable, unknown_currency, request_error, status_error, str_exn,
}
use txn_event_processor.Action.{
  and_then, err, Result, ok, Action, pure, raise, gets, modify, of_result, try_except, ◌>>=◌, ◌>>◌,
}
use txn_event_processor.Money.{Decimal}
use txn_event_processor.Schemas.IntText.{str_nat}
use txn_event_processor.Services.External.{External, Response}
use txn_event_processor.Services.World.{World, on_http, on_time}

-- The attributes of the client beside the cache.
pub record RateClient : Type 0 where
  pub base_url : String
  pub cache_ttl_s : ℕ

abbrev pub is_request_error : Exn → Bool
is_request_error (request_error _) = true
is_request_error _ = false

-- `except httpx.RequestError as exc: raise RateServiceUnavailable(...)`; others pass.
unfoldable pub translate_request_error : Exn → Exn
translate_request_error exc =
    if is_request_error exc
    then rate_service_unavailable (str_append "rate-service unreachable: " (str_exn exc))
    else exc

-- `response.raise_for_status()`: any status that is no success raises.
unfoldable pub raise_for_status : Response → Result (Unit {0})
raise_for_status response =
    if leb 200 response.status_code && leb response.status_code 299
    then ok tt
    else err (status_error (str_nat response.status_code))

-- The tests on the status, and the rate that the body carries.
unfoldable pub rate_of : External → String → Response → Result Decimal
unfolding raise_for_status
rate_of x currency response =
    if response.status_code == 404
    then err (unknown_currency (str_append "no rate for currency " (x.repr currency)))
    else if leb 500 response.status_code
    then err (
        rate_service_unavailable
          (str_append "rate-service returned " (str_nat response.status_code)))
    else and_then (raise_for_status response) λ _. and_then response.rate λ text. x.decimal text

module _ (x : External) (self : RateClient) where
  -- The part of `_cached` after `self._cache.get(currency)`: the clock is read only for an entry.
  unfoldable pub if_fresh : Option (Decimal × ℕ) → Action (World x) (Option Decimal)
  if_fresh none = pure none
  if_fresh (some (rate, expires_at)) = do
    now ← on_time x x.monotonic
    pure (if leb expires_at now then none else some rate)

  -- `RateClient._cached`
  unfoldable pub cached : String → Action (World x) (Option Decimal)
  unfolding if_fresh
  cached currency = do entry ← gets (λ w. lookup currency w.cache); if_fresh entry

  -- `RateClient._store`
  unfoldable pub store : String → Decimal → Action (World x) (Unit {0})
  store currency rate = do
    now ← on_time x x.monotonic
    modify (λ w. record w { cache = insert currency (rate, now + self.cache_ttl_s) w.cache })

  -- `response = await self._http.get(...)` with its `except` clause
  unfoldable pub request : String → Action (World x) Response
  unfolding translate_request_error
  request currency =
      try_except (on_http x (x.http_get (str_append self.base_url (str_append "/rates/" currency))))
        λ exc. raise (translate_request_error exc)

  unfoldable pub fetch : String → Action (World x) Decimal
  unfolding request rate_of store
  fetch currency = do
    response ← request currency
    rate ← of_result (rate_of x currency response)
    store currency rate
    pure rate

  abbrev pub or_fetch : String → Option Decimal → Action (World x) Decimal
  or_fetch currency (some rate) = pure rate
  or_fetch currency none = fetch currency

  unfoldable pub get_rate : String → Action (World x) Decimal
  unfolding cached fetch
  get_rate currency = do known ← cached currency; or_fetch currency known
