-- ===== src/Lib.antt =====
-- A verification library for the crawler and search engine of this repository.
--
-- Parts. The manager (internal/crawler/manager.go) starts crawls. A crawl
-- (internal/crawler/crawler.go) is a coordinator, which owns the visited set and hands tasks
-- to workers (internal/crawler/worker.go), and an indexer, which puts the workers' pages into
-- the inverted index (internal/index/index.go) and writes posting rows to a flat file
-- (internal/storage/pdata.go) and to a database (internal/storage/sqlite.go). Searches
-- (internal/index/search.go) read the index meanwhile. The dashboard
-- (internal/dashboard/server.go) turns requests into calls of the manager and of the search,
-- and the command line (cmd/crawler/main.go) restores the index and may start a first crawl.
--
-- Files.
-- Base: shared names, lists, integers, texts as lists of code points, package strings.
-- Tokens: tokenize and the stop words of internal/index/index.go.
-- Index: Posting, Document, Index, AddDocument, Lookup, AddPosting, SetDocCount of the same
-- file.
-- Search: Search of internal/index/search.go.
-- Page: parseHTML of internal/crawler/worker.go.
-- Worker: the other functions of that file.
-- PData: internal/storage/pdata.go, with PostingRow of internal/storage/sqlite.go.
-- Crawler: internal/crawler/crawler.go: Config, Seeds, deduplicateAndMark; Crawler.Indexer is the
-- indexer goroutine with collectPostings, and Crawler.Indexer.Rows its loop as a sequence of turns;
-- Crawler.System is the state of a crawl, Crawler.System.Start the part of Start before the
-- goroutines, and Crawler.System.Steps the turns of coordinatorLoop, workerLoop and the
-- indexer, each one channel operation with the code up to the next one, in any order;
-- Crawler.System.Progress finds the turn that can be taken, Crawler.System.Effort measures
-- those that are left, and Crawler.System.Runs and Crawler.System.Outcome are about whole
-- runs; Crawler.System.Keeping, Crawler.System.Saving and Crawler.System.Stopping follow the
-- tasks and the rows of a crawl that is stopped, Crawler.System.Aborting and
-- Crawler.System.Fetched tell the fetches that a stop aborts from the completed ones, and
-- Crawler.System.Sample has two runs for the examples. Crawler.Snapshot is Snapshot and
-- FormatUptime.
-- Store: the sessions of internal/storage/sqlite.go with their saved queues and visited URLs;
-- Store.Tables is the rest of that file's statements, Store.Clearing the deletion of sessions
-- and Store.Rows the ids of their rows; Store.Views is a session's rows as its crawl sees
-- them, Store.Crawling the writes of a whole crawl on the tables, and Store.Schema the opening
-- and the migration of the file.
-- Manager: internal/crawler/manager.go: the map of running crawls, RestoreIndex and
-- StartCrawl; Manager.Sessions is finishSession, ResumeCrawlByID, the cancellations and the
-- readers; Manager.Readers is ResumeCrawl, the updater of a session's counters and what the
-- dashboard asks; Manager.Restart joins the indexer, the flat file and RestoreIndex, and
-- Manager.Continuing and Manager.Stored a stopped crawl, the database and the resumed crawl;
-- Manager.Orderly and Manager.Keeping are about the keys of the map, and Manager.Starting
-- about the row of a session that begins.
-- Dashboard: internal/dashboard/server.go: parseSeedURLs and the configurations of requests;
-- Dashboard.Api the JSON handlers, Dashboard.Page the actions of the forms and the data of the
-- page, Dashboard.Stopping the way from a stop to a resumption; Dashboard.Routes is the mux
-- with the whole server on one request, Dashboard.Serving its answers, and Dashboard.Histories
-- any sequence of requests, of ends and writes of crawls and of calls of the command line.
-- Cli: cmd/crawler/main.go: the flags, parseSeeds and main up to where it waits; Cli.Signals
-- is the rest of main with its signals.
--
-- Parameters. The tables of package unicode, net/url, net/http, encoding/json, the HTML
-- parser, the runtime's limits on the buffers of channels (ChanLimits), the order in which
-- Go ranges over a map, sort.Slice and the outcomes of writes are arguments; laws that are
-- used are named hypotheses (AsciiTables, RuntimeLaws, IsRangeOf). The SQL of the source
-- is written as functions on the tables.
--
-- Choices. A Go int is an integer without bound, since depths, counts and limits stay far
-- below 2^63, but for the size NumWorkers*2 of two channels, whose wrap is written out; a
-- score is an integer, which a float64 holds exactly below 2^53. Texts are valid UTF-8, as
-- lists of code points. No definition takes fuel but the digits of a number, for which n +
-- 1 is enough. Session ids and counters are natural numbers. Times are left out but for
-- the uptime, in nanoseconds. A channel without a buffer is a slot that is filled only
-- while a worker waits.
--
-- Not modelled: the HTML template, the encoding of answers, printing, the types and defaults
-- of the database's columns, and the columns for times and error messages: they are text, or
-- calls of packages whose code is not here. The mux is given paths that are clean. The
-- dashboard's answers carry the counters and the stop reason of a crawl, and not the whole
-- snapshot. A handler that waits for crawls to end is given those that end meanwhile.
pub mod Dashboard
pub mod Cli
pub mod Store
pub mod Manager
pub mod Base
pub mod Tokens
pub mod Index
pub mod Search
pub mod Page
pub mod Worker
pub mod Crawler
pub mod PData
