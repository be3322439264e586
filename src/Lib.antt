-- ===== src/Lib.antt =====
-- The asynchronous job processing service (app/), modelled and verified.
--
-- A client submits a job over HTTP; `JobService` checks it, stores it in a repository and publishes its
-- identifier to Kafka. A worker takes an identifier, claims the job in the repository, runs its handler
-- in a child process under a timeout, and stores the success, the failure with a back-off, or the dead
-- letter. A recurring job that succeeded stores its follow-up, at the next minute its cron expression
-- means.
--
-- Files, and the code they are about:
--   Prelude/*        shared names: numbers, Boolean tests, lists, Python's `dict` and `int`
--   Text, Text/Laws  the methods of `str` that the program calls, and `int(text)`
--   Calendar/*       `datetime` in UTC: an instant is the microseconds since 1970-01-01, and its fields
--                    are those of the Gregorian calendar
--   Core/*           app/core: enums, errors (an exception is a value of `Raised`), config; JSON values
--                    and `json.dumps`; `Exec`, the calls that read and write a state and may raise
--   Scheduling/*     app/jobs/scheduling.py: `validate_cron_expression`, `parse_cron_part` (for
--                    `_parse_cron_part`) and `next_cron_run`; Parts, Expression, Due, Search and Never hold
--                    what is proved of each
--   Sorting/*        `sorted` with a key
--   Jobs             the records of app/jobs/repositories.py, and `JobCreate` of app/jobs/schemas.py
--   Jobs/Requests/*  the bounds and validators of `JobCreate` of app/jobs/schemas.py
--   Jobs/Ids/*       `str` of an identifier and `UUID` of a text, as app/queue/kafka.py and app/worker.py use
--                    them
--   Jobs/Handlers    app/jobs/handlers.py
--   Jobs/Memory/*    `InMemoryJobRepository` of app/jobs/repositories.py: a method is a function from the
--                    state to its answer and the new state
--   Jobs/Sql/*       `SqlAlchemyJobRepository` of app/jobs/repositories.py over the tables of
--                    app/db/models.py: a method is the transaction that it commits; Writes has the
--                    methods that change a job, where a claim and a cancellation are also their read
--                    and their write, and Sessions the steps of concurrent sessions between these
--   Jobs/Repository/* the interface `JobRepository`, its in-memory instance (that of the tables is
--                    Jobs/Sql/Repository), sequences of its calls, and the idempotency keys over them
--   Jobs/Service/*   `JobService` of app/jobs/service.py, over any repository and producer
--   Jobs/System/*    the calls of clients and workers in any order, as a step relation
--   Queue            app/queue/kafka.py: the interface `JobProducer`, the Kafka producer and the fake
--   Api/*            app/main.py: the routes over the service, with the response models of
--                    app/jobs/schemas.py; Api/App a request through the middleware of
--                    request identifiers, the dependency of app/api/dependencies.py, the
--                    validation, its route and the handlers of exceptions
--   Worker/*         app/worker.py: the loop of `Worker.run` over any Kafka consumer, the reading of a
--                    message, what a turn does and what an exception in it leaves, and Delivery a job from its
--                    submission to the message that has it handled
--   Examples/*       concrete runs
--
-- The state of the service is a `World`: the repository's and the producer's. What `utc_now()` and
-- `uuid4()` return, and how a child process ends, are arguments (`Clock`, `Uuid`, `Join`, gathered in
-- `Run`); `str()` of a value, the text of an exception and `time.sleep` are fields of `Host`.
--
-- Bounds. Identifiers and instants are natural numbers: no instant before 1970 is modelled, and no year
-- past 9999 is refused. `next_cron_run` searches as many minutes as the source, 366 days of them, by
-- recursion on the number left. `range` recurses on the distance between its ends, which is never less
-- than the number of its values.
--
-- Of the SQL repository the unique constraints are modelled, and what a read may miss before the write of
-- a claim or a cancellation; the order of rows that compare equal is that of their insertion, and a row keeps the
-- values of its columns as they were written.
--
-- Not modelled: how a request is read into the types of its arguments and the list of pydantic's errors, an
-- exception of the database in a route, the construction of engine and session in app/db/session.py, the options
-- that the clients of Kafka are made with, and of the application and the worker the start-up and the log.
pub mod Prelude
pub mod Text
pub mod Core
pub mod Calendar
pub mod Scheduling
pub mod Sorting
pub mod Jobs
pub mod Queue
pub mod Api
pub mod Worker
mod Examples
