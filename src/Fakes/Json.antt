-- ===== src/Fakes/Json.antt =====
-- A text format for events that can be read back: each field in turn, its characters marked by "x" and
-- its end by ".".
use Prim.Native.Char.{Char, code}
use txn_event_processor.Prelude.{
  ℕ, String, Option, none, some, Bool, true, false, List, [], ◌∷◌, ◌==◌, ◌≡◌, refl, arith, ap,
  if◌then◌else◌, ◌∙◌,
}
use txn_event_processor.Prelude.Int.{ℤ, pos, negsuc}
use txn_event_processor.Core.Errors.{Exn, value_error}
use txn_event_processor.Action.{Result, ok, err}
use txn_event_processor.Money.{Decimal}
use txn_event_processor.Schemas.IntText.{int_text, read_int}
use txn_event_processor.Schemas.IntText.RoundTrip.{read_int-int_text}
use txn_event_processor.Schemas.Datetime.{Datetime}
use txn_event_processor.Schemas.Events.{TransactionEvent, Pydantic, IsPydantic}

-- One field before the rest of the text.
abbrev put : String → String → String
put String.[] rest = String.◌∷◌ "." rest
put (String.◌∷◌ c s) rest = String.◌∷◌ "x" (String.◌∷◌ c (put s rest))

abbrev join : List String → String
join [] = String.[]
join (s ∷ l) = put s (join l)

abbrev add_char : Char → List String → List String
add_char c [] = []
add_char c (s ∷ l) = String.◌∷◌ c s ∷ l

unfoldable split : String → List String
split String.[] = []
split (String.◌∷◌ m String.[]) = String.[] ∷ []
split (String.◌∷◌ m (String.◌∷◌ c s)) =
    let marked = add_char c (split s) in
    let ended = String.[] ∷ split (String.◌∷◌ c s) in if code m == b'x' then marked else ended

split-end : (rest : String) → split (String.◌∷◌ "." rest) ≡ String.[] ∷ split rest
unfolding split
split-end String.[] = refl
split-end (String.◌∷◌ c rest) = refl

split-put : (s rest : String) → split (put s rest) ≡ s ∷ split rest
unfolding split
split-put String.[] rest = split-end rest
split-put (String.◌∷◌ c s) rest = rw (split-put s rest) refl

split-join : (l : List String) → split (join l) ≡ l
split-join [] = unfold split in refl
split-join (s ∷ l) = split-put s (join l) ∙ ap (λ t. s ∷ t) (split-join l)

abbrev flag_text : Bool → String
flag_text true = "1"
flag_text false = ""

abbrev flag : String → Bool
flag String.[] = false
flag _ = true

flag-flag_text : (b : Bool) → flag (flag_text b) ≡ b
flag-flag_text true = refl
flag-flag_text false = refl

abbrev int_or_zero : Option ℤ → ℤ
int_or_zero none = pos 0
int_or_zero (some n) = n

abbrev nat_of : ℤ → ℕ
nat_of (pos n) = n
nat_of (negsuc n) = 0

unfoldable int_of : String → ℤ
int_of s = int_or_zero (read_int s)

int_of-int_text : (n : ℤ) → int_of (int_text n) ≡ n
unfolding int_of
int_of-int_text n = ap int_or_zero (read_int-int_text n)

abbrev zone_flag : Option ℤ → String
zone_flag none = ""
zone_flag (some _) = "1"

abbrev zone_text : Option ℤ → String
zone_text none = ""
zone_text (some n) = int_text n

unfoldable zone : String → String → Option ℤ
zone String.[] t = none
zone _ t = some (int_of t)

zone-text : (z : Option ℤ) → zone (zone_flag z) (zone_text z) ≡ z
unfolding zone
zone-text none = refl
zone-text (some n) = ap some (int_of-int_text n)

unfoldable moment : String → String → String → Datetime
moment l f t = record { local = nat_of (int_of l); tzinfo = zone f t }

moment-text :
    (d : Datetime) → moment (int_text (pos d.local)) (zone_flag d.tzinfo) (zone_text d.tzinfo) ≡ d
unfolding moment
moment-text d =
    λ i. record { local = nat_of (int_of-int_text (pos d.local) i); tzinfo = zone-text d.tzinfo i }

unfoldable number : String → String → String → Decimal
number n c e = record { negative = flag n; coeff = nat_of (int_of c); exp = int_of e }

number-text :
    (x : Decimal) → number (flag_text x.negative) (int_text (pos x.coeff)) (int_text x.exp) ≡ x
unfolding number
number-text x = λ i. record {
  negative = flag-flag_text x.negative i;
  coeff = nat_of (int_of-int_text (pos x.coeff) i);
  exp = int_of-int_text x.exp i;
}

abbrev texts_of : TransactionEvent → List String
texts_of v =
    v.id
    ∷ v.user_id
    ∷ v.currency
    ∷ flag_text v.amount.negative
    ∷ int_text (pos v.amount.coeff)
    ∷ int_text v.amount.exp
    ∷ int_text (pos v.timestamp.local)
    ∷ zone_flag v.timestamp.tzinfo
    ∷ zone_text v.timestamp.tzinfo
    ∷ int_text (pos v.received_at.local)
    ∷ zone_flag v.received_at.tzinfo
    ∷ zone_text v.received_at.tzinfo
    ∷ []

abbrev make_event : String → String → String → Decimal → Datetime → Datetime → TransactionEvent
make_event i u c a t r = record {
  event_in = record { id = i; user_id = u; amount = a; currency = c; timestamp = t };
  received_at = r;
}

unfoldable read_texts : List String → Option TransactionEvent
read_texts (i ∷ u ∷ c ∷ n ∷ k ∷ e ∷ l ∷ f ∷ z ∷ m ∷ g ∷ y ∷ []) =
    some (make_event i u c (number n k e) (moment l f z) (moment m g y))
read_texts _ = none

read-texts_of : (v : TransactionEvent) → read_texts (texts_of v) ≡ some v
unfolding read_texts
read-texts_of v = λ i. some (
    make_event v.id v.user_id v.currency (number-text v.amount i) (moment-text v.timestamp i)
      (moment-text v.received_at i))

abbrev or_invalid : Option TransactionEvent → Result TransactionEvent
or_invalid none = err (value_error "not an event")
or_invalid (some v) = ok v

or_invalid_raises :
    (o : Option TransactionEvent) (e : Exn)
    → or_invalid o ≡ err e
    → (message : String) × (e ≡ value_error message)
or_invalid_raises none e h = ("not an event", ground arith)
or_invalid_raises (some v) e h = absurd (ground arith)

unfoldable pub load : String → Result TransactionEvent
unfolding read_texts split number moment int_of zone
load s = or_invalid (read_texts (split s))

abbrev pub library : Pydantic
library = record { upper = λ s. s; dump_json = λ v. join (texts_of v); load_json = load }

pub library-IsPydantic : IsPydantic library
unfolding load
library-IsPydantic = record {
  upper_upper = λ s. refl;
  load-dump = λ v. rw (split-join (texts_of v)) (ap or_invalid (read-texts_of v));
  load_raises = λ s e h. or_invalid_raises (read_texts (split s)) e h;
}
