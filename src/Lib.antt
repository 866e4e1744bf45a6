-- ===== src/Lib.antt =====
-- Verification of the monitor of land lots.
--
-- The program watches the lot lists of a site, keeps the lots in a SQLite database, and tells its
-- users of new and changed lots by mail and in the browser. These files model the parts that carry
-- its promises; a Python method is one function on the state that it changes, with the order of
-- its calls, its guards and its early returns.
--
-- Prelude          shared names: native numbers, Boolean tests, lists (Prelude/Tests, Lists, Int)
-- Domain           src/fis_monitor/domain/models.py: lots, DTOs, results; Domain/Cutoff is
--                  domain/subscription_cutoff.py, Domain/Parsed the rows and details of the
--                  parsers, Domain/Regions the catalog of domain/regions.py, Domain/Failures the
--                  exceptions of domain/errors.py
-- Notifications    infra/sqlite/repositories/notifications.py: the table of deliveries as a list
--                  of rows; reserve, status_of, mark_attempt, mark_sent, mark_permanent_fail,
--                  list_pending_older_than. Notifications/Laws: what each does to the row of a key
-- Dnd              services/dnd.py: set_dnd_until, is_active, until
-- Notifiers        the filters of services/notifier_dispatcher.py (SubscribedAtFilteredNotifier,
--                  RfSubjectFilteredEmailNotifier) and services/filter_matcher.py
-- Dispatcher       services/notifier_dispatcher.py. Dispatcher is the producer (dispatch),
--                  Dispatcher/Delivery is _send_one, Dispatcher/Consumer is consumer_loop,
--                  _dispatch_all_channels and _retry_one. Ledger, Keeps, Bounds, Final, Retried,
--                  Shutdown, Silence and Totality hold the proofs; Keeps carries a property of the
--                  state from the single steps to whole runs
-- Diff             domain/diff.py: compute_changes
-- Lots             infra/sqlite/repositories/lots.py: upsert, get, list_active, mark_seen,
--                  mark_inactive and the others, on the tables lots, lots_history and lots_rtree
--                  (the reads stand in Lots/Queries)
--                  Lots/Total: when `upsert` cannot fail, and when it must. Lots/Columns: the texts
--                  and numbers in which the columns of a lot are kept, with upsert on them
-- Fetcher          services/paginated_list_fetcher.py: iterate, run to its end
-- FullScan         services/full_scan.py: run_once, on Fetcher and Lots
-- Cycles           infra/sqlite/repositories/cycles.py: open and close
-- Enrichment       services/enrichment.py: enrich_lots
-- Cycle            services/monitor_cycle.py. Cycle holds the state, the events and the ways in which
--                  a cycle is closed, Cycle/Run is run_cycle, Cycle/Scheduler is run_forever with
--                  its wait. Pending, Closing and Once follow a cycle to its end; Newcomers, Success
--                  and Repeats follow its lots, with Ids and SameStore; Broken is the lot that
--                  cannot be read
-- Backfill         services/backfill.py: Backfill/Region is _process_region and _run, Backfill/Trigger
--                  start, maybe_start, cancel and status. Bounds, Window and Runs hold the proofs
-- RateLimiter      web/rate_limit.py; Windows and Laws hold its bound
-- Supervisor       infra/thread_supervisor.py: start and shutdown
-- License          services/license_expiry.py: next_check_at and the thread that checks the license
--                  and in License/Keys licensing/_verify.py, _codec.py, _hmac.py and the issuing of a
--                  key of licensing/cli.py
-- UserState        infra/sqlite/repositories/user_state.py and services/lot_user_state.py
-- LotQuery         services/lot_query.py: the filter and its conditions, and in LotQuery/Search the
--                  cursor, search and count; Order, Paging and Reads lead to Laws
-- Subscriptions    infra/sqlite/repositories/region_subscriptions.py
-- View             services/view_filters.py, services/sse_view_filter.py, web/feed_context.py and the
--                  event filter of web/routes/events.py; Catalog and Subjects lead to Agrees
-- StateTable       infra/sqlite/repositories/state.py and settings.py
-- Onboarding       services/onboarding.py and the writes of services/smtp_test.py; in
--                  Onboarding/Gate web/onboarding_gate.py, with its proofs in Gate/Safe; Guards leads
--                  to Laws
-- Session          services/login.py, session_monitor.py and session_expired_email.py, joined as
--                  composition.py does it
-- Bus              infra/sse/bus.py and the event handle of infra/sse/subscriptions.py
-- Tests            concrete inputs
--
-- How the parts meet. The dispatcher works on the notifications table, asks the filters and the
-- window of silence, and reads lots through their DTO. The lot repository calls compute_changes
-- inside `upsert`. The full scan walks the list with the fetcher and marks lots in the repository.
-- A cycle upserts the lots of a page in the repository and hands the new ones to the dispatcher; it
-- logs its row in the table of cycles. The bus carries the events that the others publish; the
-- dispatcher, the cycle and the full scan are modelled with the events they publish, or without
-- them, and not on the bus.
--
-- The surroundings. The clock, the stop event, the answers of a channel, the site with its parser,
-- and the settings are functions of the number of observations made so far or of the page asked
-- for, and each `Env` or `Site` is one such behaviour. A channel is assumed to answer a
-- NotifyResult, which is what its protocol says, and not to raise. A SQL transaction that raises
-- leaves the tables as they were. A datetime is a count of microseconds, and times that come as
-- text are read back as written. Lots and its clients work on rows that have been read; the conversions
-- of the columns of a lot stand in Lots/Columns, with Python's functions as a parameter, and its Agrees
-- joins the two. The conversions of the other tables are not modelled.
--
-- Interleavings. `Dispatcher.Consumer.run` takes any sequence of productions and consumer rounds.
-- The program runs one consumer. `Bus.run` takes any sequence of bus operations; a publication runs
-- to its end, and readers that make room for a critical event meanwhile are a parameter. `Onboarding.run`
-- takes any sequence of the statements of threads: a call of `advance` reads, checks and writes in three
-- of them. `Onboarding.Gate.serve` takes any sequence of arrivals of requests and of readings that are
-- over, with any table at each. `Session.run` takes any sequence of starts, ends of jobs, probes and
-- announcements of other services that the session has expired.
--
-- Fuel. A round of `consumer_loop` observes the stop event, so the observations that are left until
-- it is set are enough. `iterate` asks for one page a round, so the page limit of 1000 and one round
-- are enough. A batch of a full scan moves the offset on by at least one lot, so the number of lots
-- and one round are enough. The scheduler of the cycles observes the stop event in each pass and in
-- each slice of its wait, so the observations that are left until it is set are enough for both. A backfill asks for five pages at most, so six rounds are
-- enough. The watch over the license observes the stop event in each pass.
--
-- Not modelled: the browser, the web layer but for the gate and the filters, HTML parsing, SMTP, and
-- the SQL
-- migrations. Of the modelled classes, the scheduler of the full scan (`run_forever`),
-- `list_recent`, `prune_older_than`, `cancel_watchdog`, the log records, and the races of two
-- publishers on one queue are left out.
pub mod Prelude
pub mod Domain
pub mod Notifications
pub mod Dnd
pub mod Notifiers
pub mod Dispatcher
pub mod Diff
pub mod Lots
pub mod Fetcher
pub mod Bus
pub mod FullScan
pub mod Cycles
pub mod Enrichment
pub mod Cycle
pub mod Backfill
pub mod RateLimiter
pub mod Supervisor
pub mod License
pub mod UserState
pub mod LotQuery
pub mod Subscriptions
pub mod View
pub mod StateTable
pub mod Onboarding
pub mod Session
pub mod Tests
