-- ===== src/Fakes/RateService.antt =====
-- The site with the rate service behind its HTTP client.
use Prim.Native.String.{◌++◌ as str_append, len, slice}
use text.Mathlib.TextPositions.{slice-append_right, len-append}
use text.Mathlib.TextLemmas.{append_assoc}
use txn_event_processor.Prelude.{
  ℕ, ◌+◌, String, false, ◌≡◌, ◌∙◌, ap, sym, if◌then◌else◌, str_eq, arith, [],
}
use txn_event_processor.Prelude.Int.{neg}
use txn_event_processor.Action.{ok, Action}
use txn_event_processor.Money.{Decimal}
use txn_event_processor.Rates
use txn_event_processor.Rates.{Service, no_fault, error}
use txn_event_processor.Services.External.{External}
use txn_event_processor.Services.World.{World}
use txn_event_processor.Services.RateClient.Quotes.{IsServed, reply}
use txn_event_processor.Fakes.Site.{site, half, rate_client, start}

abbrev prefix : String
prefix = "http://rate-service/rates/"

-- The path parameter of `/rates/{currency}`.
abbrev path_name : String → String
path_name url = slice url (len prefix) (len url)

path_name_lem :
    (c : String) → path_name (str_append "http://rate-service" (str_append "/rates/" c)) ≡ c
path_name_lem c =
    ap path_name (sym (append_assoc "http://rate-service" "/rates/" c))
    ∙ ap (λ n. slice (str_append prefix c) (len prefix) n) (len-append prefix c)
    ∙ slice-append_right prefix c

abbrev pub same : String → String
same text = text

abbrev pub nap : ℕ → Action ℕ (Unit {0})
nap d t = (ok tt, t + d)

abbrev pub euro : Decimal
euro = record { negative = false; coeff = 108; exp = neg 2 }

abbrev pub wired : External
wired = record (site 200) {
  H = Service ℕ;
  http_get =
      λ url h. let (r, v) = Rates.get_rate same same nap (path_name url) h in (ok (reply r), v);
  decimal = λ text. if str_eq text "1.08" then ok euro else ok half;
}

pub wired-IsServed : IsServed wired rate_client.base_url same same nap (λ h. h)
wired-IsServed = record {
  answers = λ c h r plain e.
      let served : reply
            (Rates.get_rate same same nap
              (path_name (str_append "http://rate-service" (str_append "/rates/" c))) h).0
          ≡ r =
        ground arith in
      sym served ∙ ap (λ n. reply (Rates.get_rate same same nap n h).0) (path_name_lem c);
  sleep_raises = λ d t e h. absurd (ground arith);
  http_raises = λ url h e p. absurd (ground arith);
  clock_raises = λ t e p. absurd (ground arith);
  decimal_raises = λ text e p. absurd (ground arith);
}

abbrev pub wired_start : World wired
wired_start = record {
  redis = (start 200).redis;
  db = (start 200).db;
  http = record { fault = record { mode = no_fault; delay_s = 0 }; time = 0 };
  time = 100;
  cache = [];
  metrics = (start 200).metrics;
}
