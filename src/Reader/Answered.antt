-- ===== src/Reader/Answered.antt =====
-- reader_database.cpp, Query, behind writer_database.cpp, Insert: what a query answers of a batch.
use loglite.Json.{Json}
use loglite.Writer.{Writer}
