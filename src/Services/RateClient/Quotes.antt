-- ===== src/Services/RateClient/Quotes.antt =====
-- app/services/rate_client.py against rate_service/main.py: what a rate lookup yields when the HTTP
-- client talks to that service.
pub mod Lookup
pub mod Memory
use Prim.Native.String.{◌++◌ as str_append}
use Prim.Native.Char.{code}
use txn_event_processor.Prelude.{
  leb, ◌&&◌, ◌||◌, ◌≢◌, ℕ, ◌+◌, String, Option, none, some, Bool, true, false, ◌≡◌, ◌⊎◌, inl, inr,
  refl, arith, Option-cases, Bool-cases, if◌then◌else◌, str_eq, eq_iff,
}
use txn_event_processor.Prelude.Dict.{Dict, lookup, insert, lookup-insert}
use txn_event_processor.Core.Errors.{Exn, is_permanent, http_exception, key_error, cancelled}
use txn_event_processor.Action.{Action, Result, ok, err, run-cases, Result-cases}
use txn_event_processor.Money.{Decimal}
use txn_event_processor.Rates
use txn_event_processor.Rates.{
  Service, rate_table, Mode, misbehave, quote, error, timeout, no_fault,
}
use txn_event_processor.Services.External.{External, Response}
use txn_event_processor.Services.World.{World, on_time}
use txn_event_processor.Services.RateClient.{
  is_request_error, translate_request_error, RateClient, if_fresh, cached, store, request, fetch,
  get_rate, rate_of,
}

-- The response that FastAPI makes of what a handler returns or raises: an `HTTPException` gives its
-- status, any other exception 500, and an error's body has no key `rate`.
abbrev pub reply : Result (String × String) → Response
reply (ok (currency, rate)) = record { status_code = 200; rate = ok rate }
reply (err (http_exception status detail)) = record {
  status_code = status;
  rate = err (key_error "rate");
}
reply (err _) = record { status_code = 500; rate = err (key_error "rate") }

module _ {T : Type 0} (upper repr : String → String) (sleep : ℕ → Action T (Unit {0}))
    (sleep_raises : (d : ℕ) (t : T) (e : Exn) → (sleep d t).0 ≡ err e → e ≡ cancelled) where
  fault_status :
      (m : Mode) (d : ℕ) (s : Service T) (e : Exn)
      → (misbehave upper repr sleep (record { mode = m; delay_s = d }) s).0 ≡ err e
      → (reply (err e)).status_code ≡ 500
  unfolding misbehave
  fault_status error d s e h = ground arith
  fault_status timeout d s e h = rw (sleep_raises d s.time e (ground arith)) refl
  fault_status no_fault d s e h = absurd (ground arith)

  -- The three kinds of answers of the service.
  abbrev Quoted : String → Result (String × String) → Type 0
  Quoted c res =
      (text : String) × (lookup (upper c) rate_table ≡ some text) × (res ≡ ok (upper c, text))

  abbrev Unknown : String → Result (String × String) → Type 0
  Unknown c res =
      (detail : String) × (lookup (upper c) rate_table ≡ none)
      × (res ≡ err (http_exception 404 detail))

  abbrev Faulty : Result (String × String) → Type 0
  Faulty res = (e : Exn) × ((reply (err e)).status_code ≡ 500) × (res ≡ err e)

  pub answers-cases :
      (c : String) (s : Service T)
      → let res = (Rates.get_rate upper repr sleep c s).0 in
        Quoted c res ⊎ (Unknown c res ⊎ Faulty res)
  unfolding Rates.get_rate quote
  answers-cases c s = elim (run-cases (misbehave upper repr sleep s.fault) s) [
    | inr (e, v, p) ↦
        inr (inr (e, fault_status s.fault.mode s.fault.delay_s s e (ground arith), ground arith))
    | inl (_, v, p) ↦ elim (Option-cases (lookup (upper c) rate_table)) [
      | inl q ↦ inr (inl (str_append "no rate for currency " (repr c), q, ground arith))
      | inr (text, q) ↦ inl (text, q, ground arith)
    ]
  ]

-- The client puts the currency into the URL as it is, so only a text without characters that mean
-- something there is sure to arrive: a `?` would end the path. Letters are.
abbrev is_letter : ℕ → Bool
is_letter c = (leb b'A' c && leb c b'Z') || (leb b'a' c && leb c b'z')

abbrev all_letters : String → Bool
all_letters String.[] = true
all_letters (String.◌∷◌ c s) = is_letter (code c) && all_letters s

abbrev pub IsPlain : String → Type 0
IsPlain s = (s ≢ "") × (all_letters s ≡ true)

-- What connects the client to the service, and what the libraries raise.
pub record IsServed (x : External) (base_url : String) {T : Type 0} (upper repr : String → String)
    (sleep : ℕ → Action T (Unit {0})) (service : x.H → Service T) : Type 0 where
  pub answers :
      (c : String) (h : x.H) (response : Response)
      → IsPlain c
      → (x.http_get (str_append base_url (str_append "/rates/" c)) h).0 ≡ ok response
      → response ≡ reply (Rates.get_rate upper repr sleep c (service h)).0
  pub sleep_raises : (d : ℕ) (t : T) (e : Exn) → (sleep d t).0 ≡ err e → e ≡ cancelled
  pub http_raises :
      (url : String) (h : x.H) (e : Exn) → (x.http_get url h).0 ≡ err e → is_permanent e ≡ false
  pub clock_raises : (t : x.T) (e : Exn) → (x.monotonic t).0 ≡ err e → is_permanent e ≡ false
  pub decimal_raises : (text : String) (e : Exn) → x.decimal text ≡ err e → is_permanent e ≡ false

module _ (x : External) (upper : String → String) where
  -- `rate` is the one that the service's table has for the currency.
  abbrev pub IsTableRate : String → Decimal → Type 0
  IsTableRate c rate =
      (text : String) × (lookup (upper c) rate_table ≡ some text) × (x.decimal text ≡ ok rate)

  abbrev pub IsFaithful : Dict (Decimal × ℕ) → Type 0
  IsFaithful cache =
      (c : String) (rate : Decimal) (t : ℕ) → lookup c cache ≡ some (rate, t) → IsTableRate c rate

  -- The results of a lookup: a rate of the table, or an error that is permanent for a currency that
  -- the table lacks alone.
  abbrev pub Quotes : String → Result Decimal → Type 0
  Quotes c (ok rate) = IsTableRate c rate
  Quotes c (err e) = (is_permanent e ≡ false) ⊎ (lookup (upper c) rate_table ≡ none)
