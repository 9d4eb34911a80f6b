-- ===== src/Writer/Tests.antt =====
-- Inserting at concrete inputs.
use loglite.Prelude.{
  Bool, List, Text, [], codes, false, insert, lookup, none, refl, some, true, ◌∷◌, ◌≡◌, ◌≢◌,
}
use loglite.Prelude.Int.{}
use loglite.Json.{ColumnInfo, Json, end, field, find, find_field, object, string}
use loglite.ColumnDict.{create, get_or_create, new_id}
use loglite.ColumnDict.Create.{find_id}
use loglite.Database.{build_where_clause, serialize_value}
use loglite.Writer.Deleting.{delete_logs}
use loglite.Writer.{
  Answers, Writer, begin_transaction, bind_columns, encode_value, in_transaction, insert_batch,
  insert_column_dict_value, insert_logs, roll_back, step_row, taken, undone,
}
use loglite.Writer.Batches.{}
use loglite.Writer.Atomic.{insert_batch_failed}

abbrev dump_none : Json → Text
dump_none v = []

abbrev fresh_writer : Writer
fresh_writer = record {
  tables = record { logs = []; column_dictionary = []; begun = none };
  dictionary = [];
}

abbrev column : Text → Bool → ColumnInfo
column name is_pk = record { name = name; type = codes "TEXT"; not_null = true; is_pk = is_pk }

abbrev columns : List ColumnInfo
columns = column (codes "id") true ∷ column (codes "level") false ∷ []

-- One log with the level, and one without it.
abbrev two_logs : List Json
two_logs = object (field (codes "level") (string (codes "INFO")) end) ∷ object end ∷ []

abbrev accepting : Answers
accepting = record {
  begins = true;
  takes_log = λ vs. taken;
  takes_entry = λ col v id. taken;
  commits = true;
  rolls_back = true;
}

abbrev no_commit : Answers
no_commit = record accepting { commits = false }

abbrev compressed : List Text
compressed = codes "level" ∷ []

not_undone : taken ≢ undone
not_undone h = cc

insert_batch_failed_example :
    (insert_batch dump_none compressed no_commit fresh_writer columns two_logs).1.tables
    ≡ fresh_writer.tables
insert_batch_failed_example =
    insert_batch_failed dump_none compressed no_commit fresh_writer columns two_logs refl refl
      (λ vs h. not_undone h, λ c v id h. not_undone h)
      (unfold insert_batch in_transaction insert_logs bind_columns encode_value step_row
          insert_column_dict_value get_or_create create new_id lookup insert find find_field
          serialize_value begin_transaction in
        refl)

-- After the rollback the process knows an id that no durable row tells.
rolled_back_id :
    find_id
      (insert_batch dump_none compressed no_commit fresh_writer columns two_logs).1.dictionary
      (codes "level")
      (codes "INFO")
    ≡ some 1
unfolding insert_batch in_transaction insert_logs bind_columns encode_value step_row
    insert_column_dict_value get_or_create create new_id lookup insert find find_field
    serialize_value begin_transaction roll_back
rolled_back_id = refl

delete_all :
    delete_logs
      (λ v. [])
      (record { compressed_columns = []; log_column_info = []; dictionary = [] })
      (codes "Log")
      (λ sql params. some sql)
      []
    ≡ some (codes "DELETE FROM Log WHERE 1=1")
unfolding delete_logs build_where_clause
delete_all = refl
