-- ===== src/Lib.antt =====
-- Tech trends: a server that collects articles of developer sites each day, has a model summarise and
-- embed them, and serves lists and searches of what it stored. This library models its core over the
-- native natural numbers, with text as a list of UTF-16 code units (Base.Texts).
--
-- The parts, each with the code that it models:
-- - Base: shared names; Boolean tests, lists, text, decimal numerals, and calls that may reject
--   (Effects: a result with the state after it, since what was written stays written); sorts and
--   what determines their result (Sorting, Rows), `ORDER BY` (Columns), and lists with keys (Keys).
-- - Common (src/common/utils): Chunk is array.util.ts, the loop of `chunkArray` on fuel, where one
--   round for each member and one more are enough if the size is positive; Text is text.util.ts, each
--   regular expression a matcher at a position; Time and Dates are time.util.ts, with the calendar that
--   the platform's date format counts by.
-- - Redis (src/redis): Server states the commands that the program issues, by their effect on the
--   live entries; Service is redis.service.ts, each method one command or script; Lock and Throttle
--   run sequences of them with time passing between; Storage is redis-throttler.storage.ts, and
--   Config redis.config.ts.
-- - Ai (src/ai/ai.service.ts): Retry is `executeWithRetry` with the wait read from the headers; Models
--   is `filterBatchWithAi` and `vectorEmbeddingWithAi`, which run in it, and Summary
--   `summarizeContentWithAi`, with the texts of Prompts; Search is `embedSearchQuery`,
--   `waitForCache` and `normalizeKeyword` on top of Redis.Service, for one request; Concurrent has many
--   requests of one process at once: Place is where a request stands, `turn` its next step at the
--   server, and Reach any order of the steps of all of them, of commands that are rejected, of the
--   starts and ends of calls of the model under the semaphore, and of time.
-- - Trends (src/trends): Data holds the records; World states what the pipeline calls (the table, a
--   scraper, the AI service) and what it relies on; Repository the queries of tech-trend.repository.ts
--   that it asks; Schema the table of database/migrations with an `INSERT`, where
--   what the server makes of the values by the types of their columns is a parameter (`accept`); Store
--   the others: lists, keyword searches, related rows (Related) and hybrid searches (Hybrid), each as a
--   query that a database answers (`Database`);
--   Pipeline is trends-pipeline.service.ts, Steps its helpers and Pipeline itself `processBatch` and
--   `processSource`; Queue is `dispatchAllScrapersToQueue` and `executeScraperByName` with
--   scraper.factory.ts; Events is trends-queue.events.ts; Cache is
--   trends-cache.service.ts with its constants; Query is the sharing of loads and the paging of
--   trends-query.service.ts, and Service its lists, searches and sources over Store; Scrapers is devto.scraper.ts, geek-news.scraper.ts and stackoverflow.scraper.ts, a module
--   each, and Site the three behind the interface that the pipeline uses; Worker is trends.worker.ts,
--   with the pipeline put together from the scrapers, the table and the AI service.
--
-- How they interact: the pipeline asks the repository how much the day still lacks, takes the articles
-- of a scraper that are new, and saves what the AI service found worth it; the queue repeats a failed
-- job. When a job has ended, Events reads the day's rows and announces them, and drops a cache. A
-- search takes its embedding from Redis, or computes it under a lock. The throttle guards all routes.
--
-- Rejections are values: a method is a function from a state to a result and a state. Where the source
-- catches, the model goes on in the state that the failed call left. A loop that may not end is an
-- outcome of its own (`hangs` of Pipeline). Numbers of the source that are counts, times or indices are
-- natural numbers; floats are kept as their literals or are parameters (`Floats` of Ai.Retry, `inverse`
-- of Store.Hybrid), and where only their order counts they are natural numbers in the same order.
-- The settings for times to live are whole numbers (`ℤ` of Trends.Cache), which may be negative.
--
-- A query of the store is its conditions, columns and window (`SelectQuery`). What the database answers
-- to it is a law (`IsSelected`): a window of the rows that pass, in some order that the columns allow,
-- so rows that tie may come in any order. Where `LIMIT` stands without an order, as it does for the
-- candidates of a hybrid search, any rows may be left out (`IsCandidates`).
--
-- What is relied on: while a job runs, nothing else writes to the table (the worker takes one job at a
-- time) and time does not run backwards; while the jobs of a day are dispatched nobody else changes the
-- queue, so no worker takes a job out, though a completed one is removed (line 68 of
-- trends-pipeline.service.ts), and an `add` of an identifier that is held is ignored; an attempt to take
-- a lock has a positive time, as the server asks; a Redis command or script runs as a whole or rejects; a save
-- that resolves has appended one row, stamped with the time of the insert; the identifier is a key of
-- the table; while one request is answered nothing writes to the rows that it reads, so a data query and
-- its count see one table.
--
-- What the pipeline relies on of the table is filled by Schema (`insert-eq-ok`, `insert-eq-err`), and of
-- the scrapers and the AI service by Worker.Jobs (`world_of-Laws`).
--
-- Concurrent searches share the keyspace of Redis. A command that is rejected may have run or not. The
-- random values of locks differ. The rounds of a wait are bounded by the code itself (25).
--
-- Not modelled: the controller, the scheduler and the modules of the framework; of the validation all
-- but the bounds of numbers; logging, the indexes of the table, load tests and the frontend. The server,
-- the database, HTTP, the feed parser, the selectors of a page, the parsing of dates, JSON, random values and the models are
-- parameters with their documented behaviour as laws. Counts and scores of the sites are natural
-- numbers: one below zero counts as none, as it does for a list.
pub mod Ai
pub mod Base
pub mod Common
pub mod Redis
pub mod Trends
