-- ===== src/Lib.antt =====
-- The rules enrichment daemon: it polls a warehouse system for orders, evaluates rules against
-- each order, submits the enrichment that the rules give back to that system, and records what it
-- did in a database with a transactional outbox.
--
-- The parts, with the files of the repository that each models:
-- - Domain: src/app/domain and src/app/shared/errors. Json, Json/Dict and Json/Compare are the
--   values that rules, payloads and columns carry, Json/Canonical their form with sorted keys;
--   Order, Rule and Processing the entities; Value what a field path of a rule can reach;
--   Specification the predicates and their trees (predicate.py, composite.py),
--   Specification/Factory the reading of conditions (rule_specification_factory.py); Evaluation
--   the rule engine (rule_evaluation_service.py).
-- - Exec: methods that change a state and may raise, with rules for invariants and postconditions.
-- - Persistence: src/app/infrastructure/db/models.py, repositories and unit_of_work. Models has
--   the rows, Mappers the mappers, Repositories the queries and saves, Session the unit of work: a
--   session loads the committed tables, collects changes and added rows, and `commit` stores them
--   all or raises. UnitOfWork makes the unit of work and its repositories an implementation of the
--   ports, UnitOfWork/Lawful is about their laws.
-- - Application: src/app/application. Environment has the outside services and the world that the
--   use cases change, Ports the repositories and the unit of work as interfaces, with the laws
--   that the use cases rely on, Payload the payload and its hash (enrichment_hash_service.py is
--   `compute_hash`), Recording the use cases that write results and dead letters, Recording/Ported
--   the first of them over any unit of work, ProcessOrder the use case for one order
--   (`process_order` is ProcessOrderForEnrichmentUseCase.execute), PublishOutbox the publisher,
--   RulesCache the cache of rules, Facade a polling cycle (`run_once` is
--   EnrichmentFacade.run_once).
-- - Http: src/app/infrastructure/http. Retry has the retry policy, Client the requests,
--   Client/Parts and Client/Reading the orders of the answers.
-- - Workers: src/app/infrastructure/workers and the loop of run-daemon. `daemon_pass` is one turn
--   of that loop: a polling cycle, then a batch of the outbox. Stopping has run_forever and stop.
-- - Cli: src/app/interfaces, the commands and the health endpoint; Cli/Seeding is about
--   seed-rules, Cli/Commands has what each command does to the world and the worlds that commands
--   lead to.
-- - Audit: the tables that commands leave: what they tell of the orders that were processed.
-- - Bootstrap: src/app/bootstrap.py. Config has config/settings.py and
--   infrastructure/db/session.py, Sinks infrastructure/outbox. `connected` is the environment with
--   the client and the sink of the settings; the orders that it fetches stay a parameter, since
--   reading an answer may leave the model.
-- - Migrations: migrations/versions. Schema is the first one, Schema/Declared db/models.py as
--   declarations, Bulk and Longtail the two that seed rules, Numbering and RoundTrip about undoing
--   them, Harmless about evaluating their rules.
-- - Logging: the log context, the log handlers and the result type of src/app/shared.
-- - Prelude: Boolean tests, lists, integers, texts and sorting over the native numbers.
-- - Tests: sample data and the theorems at it.
--
-- What is outside the sources is a parameter. `Runtime` has what Python and its libraries do with
-- values (str, lower, re.search, getattr of other names, isoformat, the digest). `Env` has the
-- external API, the sink, the clock, the ids and the database's answer to a commit; each answers
-- by the number of the call. The clock gives aware datetimes. `Network` has the server's replies.
-- Reads of the database are taken to succeed, and commits to be the only writes. The primary keys
-- that the program chooses are checked at a commit, those that the database gives out are left
-- out. Times are microseconds. Floats are the dyadic fractions that they stand for; delays are
-- whole multiples of a unit, without the rounding of floats.
--
-- Every loop is structural recursion over a list, a tree or the attempts left, so no bound is
-- chosen; the endless loops of the workers are taken for any number of passes, and with fuel where
-- `stop` ends them. Python's sort is insertion sort, which is stable too.
--
-- The bodies of the API's answers are taken to be JSON. `fromisoformat`, the operations of Alembic
-- on a schema and the rounded floats of the seeded volumes are parameters. LIKE tells upper from
-- lower case, as on PostgreSQL.
--
-- Commands run one after the other: two processes that interleave their transactions are not
-- modelled, nor one that is killed within a pass. Not modelled either: the opening of the
-- database, the parsing of arguments and of the environment, the texts that commands print, the
-- sleeps between passes, and an order with a JSON value of another type than its field declares,
-- which Python does not check.
pub mod Prelude
pub mod Domain
pub mod Exec
pub mod Persistence
pub mod Application
pub mod Audit
pub mod Http
pub mod Workers
pub mod Cli
pub mod Bootstrap
pub mod Migrations
pub mod Logging
pub mod Tests
