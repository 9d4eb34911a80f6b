-- ===== src/Lib.antt =====
-- Loglite: a small log server. Logs come in from HTTP handlers and from harvesters that tail files,
-- wait in a bounded backlog, and are inserted in batches into a SQLite database, in which chosen
-- columns are stored as the ids of a dictionary. Queries are filters on columns, from the URL.
--
-- The files, and the code that each models (paths from the repository's root):
--   Prelude        shared helpers: tests on numbers, lists, texts as lists of bytes, maps, integers
--   Json           JSON values as the program passes them on, and cpp/src/types.hpp
--   Utils          cpp/src/utils.hpp: sizes, URL decoding, trimming
--   Metrics        cpp/src/metrics.hpp, metrics.cpp: observations in a window, gauges
--   Backlog        cpp/src/backlog.hpp, backlog.cpp: the buffer between producers and the writer; it
--                  collects a drop in Metrics
--   ColumnDict     cpp/src/column_dict.hpp, column_dict.cpp: values of compressed columns as ids
--   FileHarvester  cpp/src/harvesters/file.hpp: the worker that tails a file; its lines become
--                  entries of the backlog
--   QueryString    cpp/src/handlers/common.hpp: targets, parameters and filters of a request
--   Database       cpp/src/database.hpp, database.cpp: filters to SQL, values to and from columns; it
--                  asks ColumnDict for the candidates of a filter
--   Writer         cpp/src/writer_database.cpp: inserting a batch; it asks ColumnDict for ids, and
--                  persists the new ones
--   Reader         cpp/src/reader_database.cpp: a query's statements, and how its rows are decoded; it
--                  asks Database for the clause, and ColumnDict for the values of ids; Rows,
--                  Stored and Answered put it behind Writer
--   Results        cpp/src/types.hpp: the results of the queries
--   Http           the response helpers of cpp/src/handlers/common.hpp
--   Handlers       cpp/src/handlers/insert.hpp, query.hpp, stats.hpp, schema.hpp, settings.hpp,
--                  health.hpp, version_route.hpp: the checks and answers of each route; insert fills
--                  the backlog
--   Server         cpp/src/handlers/router.hpp, and HandleConnection of cpp/src/server.cpp: the table
--                  of routes, and the loop of a connection, over any handlers and, in App, over
--                  those of Handlers; Running is Run, Stop and AcceptLoop, with cpp/src/context.hpp
--   Notifier       cpp/src/notifier.hpp: the subscribers of new logs
--   Tasks          cpp/src/tasks/flush_backlog.hpp, vacuum.hpp, diagnostics.hpp: the task that moves the
--                  backlog into the writer and notifies, the one that removes old logs, and the one
--                  that summarizes observations
--   Yaml           from_string, from_yaml and read_env_overrides of cpp/src/config.cpp
--   Config         cpp/src/config.hpp and the rest of config.cpp: loading, the pool's size, validation
--   Sse            cpp/src/handlers/sse.hpp: the loop that pushes new logs to a subscriber, and what
--                  such streams do to the notifier and to the metrics
--   Pool           cpp/src/reader_database.hpp, reader_database.cpp: the pool of read connections, and
--                  any interleaving of the threads that use it
--   Migrations     cpp/src/migrations.cpp, and ApplyMigration and RollbackMigration of
--                  cpp/src/writer_database.cpp: schema changes, and the loop that applies them
--   Api            cpp/src/api.cpp: a call of RunServer, with what may throw in it, and what reaches
--                  the server of the process by its two pointers
--   Bindings       cpp/src/bindings.cpp: Python objects as JSON
--   Burn           burn/src: the load generator; it plans its logs from the answer of Handlers.Info
--
-- Operations carry the source's names in lower case with underscores, without a class's name. A
-- method that holds its mutex from end to end is one function; state is passed in and handed back.
-- The clock, the operating system, the JSON library's parser and printer, and the answers of SQLite
-- are arguments. An exception is `none` or a constructor; undefined behaviour is `none` or
-- `overflowed`. The int of an id and of a parameter, and the 64-bit range of a size, are checked where
-- the source converts, and an integer that is bound to a statement keeps its low 64 bits; other counts
-- are unbounded.
--
-- Fuel: parse_pairs and find_filters get one more than the length of their text, and each round takes
-- at least one byte of it. The fuel of apply_all is its number of rounds: one more than the pending
-- migrations is enough. All other loops recurse on a list: of bytes, of logs, of filters, or of the
-- answers that the loop gets. The text of a number gets fuel for the 20 digits of 64 bits.
--
-- Not modelled: threads and coroutines, log messages, SQLite, YAML and JSON texts, HTTP messages and
-- time formats, the arithmetic of double, and Python's own objects, which are other libraries' or
-- pure output.
pub mod Api
pub mod Backlog
pub mod Bindings
pub mod Burn
pub mod ColumnDict
pub mod Config
pub mod Database
pub mod FileHarvester
pub mod Handlers
pub mod Http
pub mod Json
pub mod Metrics
pub mod Migrations
pub mod Notifier
pub mod Pool
pub mod Prelude
pub mod QueryString
pub mod Reader
pub mod Results
pub mod Server
pub mod Sse
pub mod Tasks
pub mod Utils
pub mod Writer
pub mod Yaml
