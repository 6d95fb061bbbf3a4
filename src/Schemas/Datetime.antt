-- ===== src/Schemas/Datetime.antt =====
-- Python's `datetime`: a clock reading and an optional offset from UTC, and the rule "naive means UTC".
use txn_event_processor.Prelude.{ℕ, Option, none, some, ◌≡◌, arith}
use txn_event_processor.Prelude.Int.{ℤ, pos, ◌-ℤ◌}

-- `local` counts microseconds from the start of year 1 on the datetime's own clock; `tzinfo` is the
-- offset of that clock from UTC, in microseconds, or `None` for a naive datetime.
pub record Datetime : Type 0 where
  pub local : ℕ
  pub tzinfo : Option ℤ

-- `value if value.tzinfo is not None else value.replace(tzinfo=UTC)`
unfoldable pub assume_utc : Datetime → Datetime
assume_utc d = elim d.tzinfo [ none ↦ record d { tzinfo = some (pos 0) } | some offset ↦ d ]

-- The moment of a datetime on the UTC time line, by which aware datetimes and the database compare.
unfoldable pub instant : Datetime → ℤ
instant d = elim d.tzinfo [ none ↦ pos d.local | some offset ↦ pos d.local -ℤ offset ]

abbrev pub IsAware : Datetime → Type 0
IsAware d = elim d.tzinfo [ none ↦ ⊥ | some _ ↦ Unit {0} ]

pub assume_utc_idem : (d : Datetime) → assume_utc (assume_utc d) ≡ assume_utc d
unfolding assume_utc
assume_utc_idem d = ground arith
