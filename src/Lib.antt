-- ===== src/Lib.antt =====
-- txn-event-processor: transaction events are accepted over HTTP, queued on a Redis stream, converted
-- to dollars by a worker and stored once each in Postgres.
--
-- The program's parts. The API (app/api, app/main.py) validates an event and adds it to the stream
-- (app/queue/producer.py). The worker (app/worker.py) reads the stream as a member of a consumer group
-- (app/queue/consumer.py), looks a rate up (app/services/rate_client.py), converts
-- (app/services/converter.py) and inserts the row (app/db/repository.py), the lookup and the insert
-- with retries (app/core/retry.py); it then acknowledges the entry, moves it to the dead-letter
-- stream, or leaves it pending for a later claim.
--
-- How code is modelled. A coroutine is an `Action W A` (Action.antt): a function of the state of all
-- that it holds to a result, returned or raised, and the state it leaves. What was written before a
-- raise stays written. An await that is cancelled raises `cancelled`, so a task that is stopped at any
-- await is a run too. Redis, the database session, the HTTP client, the clocks, pydantic and
-- `Decimal(text)` are parameters (Queue/Redis.antt, Db/Session.antt, Schemas/Events.antt,
-- Services/External.antt); what the code relies on about them stands in the records IsRedis, IsGrouped
-- (Queue/Consumer/Group.antt), IsPostgres, IsQueryable (Db/Queries.antt), IsSummed (Api/Summary.antt),
-- IsPydantic, IsUniform, IsServed (Services/RateClient/Quotes.antt) and IsFastapi (Api/App.antt).
-- Fakes holds servers in memory for which these records are inhabited, and Examples runs the code on
-- them.
--
-- Files, and the code they model:
--   Core/Errors     app/core/errors.py, and the exceptions of other libraries that the code tells apart
--   Core/Config     app/core/config.py: the settings, their bounds, and get_settings with its cache
--   Core/Metrics    app/core/metrics.py: one number for each label
--   Core/Logging    app/core/logging.py: the fields of a log line; Setup has configure_logging
--   Core/Retry      app/core/retry.py: compute_delay, retry_async
--   Money           app/services/converter.py, on the finite numbers of Python's decimal module
--   Schemas         app/schemas/events.py and responses.py; IntText has Python's str and int on integers
--   Db              app/db/errors.py, models.py, repository.py, engine.py; Db/Queries has what a SELECT means
--   Queue           app/queue/producer.py, consumer.py, client.py
--   Services        app/services/rate_client.py, processor.py; World is the worker's whole state;
--                   RateClient/Quotes joins the client to rate_service/main.py
--   Worker          app/worker.py: handle, one round of each loop, and what run_worker builds them from;
--                   Worker/Fleet has several workers and the API as a step relation;
--                   Worker/Process has run_worker around its TaskGroup, and main
--   Api             app/api/routes.py and deps.py; Lifespan and App have app/main.py
--   Rates           rate_service/main.py
-- Prelude has the shared helpers: Boolean tests, lists and dicts, integers over the native numbers.
--
-- Bounds and fuel. `retry_loop` recurses on the rounds left of `range(1, attempts + 1)`.
-- `excess_digits` (Money/Precision) and `emit` take a number as fuel for its own digits, and a
-- number has no more digits than its value. Times are whole ticks, since the code only adds,
-- compares and doubles them. Integers of Python are unbounded and so are these; their text is
-- limited to 4300 digits (Schemas/IntText), beyond which str and int raise.
--
-- Not modelled: how FastAPI reads and validates a request (it is over when a handler runs; IsFastapi
-- has what becomes of the outcome), how the logging module renders a line, reading the settings from
-- the environment, what is logged where, how asyncio's TaskGroup schedules the worker's tasks (its
-- result is a parameter; Worker/Fleet has the interleavings), and the text of queries, which the
-- session's parameters stand for. The decimal model has no infinities, NaNs or exponent limits. What
-- the service answers is known for currencies of letters alone, since the client puts the currency
-- into the URL as it is. Settings are natural numbers; negative numbers and fractions, where the
-- program has no bound against them, are left out.
pub mod Prelude
pub mod Action
pub mod Core
pub mod Money
pub mod Schemas
pub mod Db
pub mod Queue
pub mod Services
pub mod Worker
pub mod Api
pub mod Rates
pub mod Fakes
pub mod Examples
