-- ===== src/Examples/Rates.antt =====
-- The rate client at the site in memory.
use txn_event_processor.Services.RateClient.Quotes.{IsPlain, Quotes, IsFaithful}
use txn_event_processor.Services.RateClient.Quotes.Memory.{get_rate-Quotes}
use txn_event_processor.Fakes.RateService.{wired, wired_start, wired-IsServed, same, nap}
use txn_event_processor.Prelude.{none, ltb, if◌then◌else◌, ◌+◌, [], ◌≡◌, refl, arith}
use txn_event_processor.Prelude.Dict.{lookup}
use txn_event_processor.Core.Errors.{rate_service_unavailable}
use txn_event_processor.Action.{ok, err}
use txn_event_processor.Schemas.IntText.{str_nat}
use txn_event_processor.Services.World.{World}
use txn_event_processor.Services.RateClient.{get_rate, cached, fetch}
use txn_event_processor.Services.RateClient.Cache.{get_rate_raises, get_rate-get_rate}
use txn_event_processor.Fakes.Site.{site, rate_client, start, half}

down :
    (get_rate (site 503) rate_client "EUR" (start 503)).0
    ≡ err (rate_service_unavailable "rate-service returned 503")
unfolding get_rate lookup str_nat
down = refl

get_rate_raises_example :
    (get_rate (site 503) rate_client "EUR" (start 503)).1.cache ≡ (start 503).cache
get_rate_raises_example =
    get_rate_raises (site 503) rate_client "EUR" (start 503)
      (rate_service_unavailable "rate-service returned 503") down

-- The clock stands at 100, so the rate counts until 160.
abbrev looked_up : World (site 200)
looked_up = (get_rate (site 200) rate_client "EUR" (start 200)).1

first : get_rate (site 200) rate_client "EUR" (start 200) ≡ (ok half, looked_up)
unfolding get_rate lookup
first = refl

misses : cached (site 200) rate_client "EUR" (start 200) ≡ (ok none, start 200)
unfolding cached lookup
misses = refl

-- The same cache, a minute later.
abbrev later : World (site 200)
later = record looked_up { time = 160 }

get_rate-get_rate_example : get_rate (site 200) rate_client "EUR" later ≡ (
    if ltb 160 (100 + 60)
    then (ok half, record later { time = 160 })
    else fetch (site 200) rate_client "EUR" (record later { time = 160 }))
get_rate-get_rate_example =
    get_rate-get_rate (site 200) rate_client "EUR" (start 200) (start 200) looked_up later half 100
      160 100 160 misses refl first refl refl

-- The client against the rate service.
empty-IsFaithful : IsFaithful wired same []
unfolding lookup
empty-IsFaithful c rate t e = absurd (ground arith)

letters : IsPlain "EUR"
letters = (λ p. cc p, refl)

get_rate-Quotes_example :
    Quotes wired same "EUR" (get_rate wired rate_client "EUR" wired_start).0
    × IsFaithful wired same (get_rate wired rate_client "EUR" wired_start).1.cache
get_rate-Quotes_example =
    get_rate-Quotes wired rate_client same same nap (λ h. h) wired-IsServed "EUR" letters
      wired_start empty-IsFaithful
