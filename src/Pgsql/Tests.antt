-- ===== src/Pgsql/Tests.antt =====
-- pgsql/: the theorems at a table of users, and the texts of small builders.
use g_micor.Base.{
  ℕ, suc, ◌≡◌, ◌≢◌, refl, true, false, none, some, List, [], ◌∷◌, arith, All, get_elem?, ◌*◌, ◌^◌,
  ◌<◌,
}
use g_micor.Base.Int.{ℤ, pos}
use g_micor.Base.Bytes.{codes}
use g_micor.Base.Decimal.{decimal}
use g_micor.Pgsql.Where.{
  WhereBuilder, where_, and_where, set_limit, set_offset, reindex, reindex_loop,
}
use g_micor.Pgsql.Where
use g_micor.Pgsql.Where.Rounds.{enough_rounds}
use g_micor.Pgsql.Where.Erased.{reindex_ignores_numbers}
use g_micor.Pgsql.Update
use g_micor.Pgsql.Update.{UpdateBuilder, SetEntry}
use g_micor.Pgsql.Update.Numbering.{AllPlain, column, swapping, set_expr_swaps}
use g_micor.Pgsql.Types.{
  null, GoValue, DbValue, int64_type, string_type, ptr_type, int, string, nil_ptr, ptr, db_int,
  db_string, scan_direct, scan_ptr_string,
}
use g_micor.Pgsql.Result.{ok, ◌>>=◌}
use g_micor.Pgsql.Driver.{Driver, World}
use g_micor.Pgsql.Strict.{strict}
use g_micor.Pgsql.Table.{
  FieldMeta, Table, StructField, get_table, column_name, field_meta, set_pk, insert_columns,
}
use g_micor.Pgsql.Table.Reference.{columns, table_over, get_table-columns}
use g_micor.Pgsql.Insert.{insert_many_batch, collect_args}
use g_micor.Pgsql.Insert.Ids.{insert_many_batch-ids}
use g_micor.Pgsql.Page.Window.{IsOnPage, row-IsOnPage}
use g_micor.Pgsql.Operations.{
  Operation, id_op, insert_one_op, insert_many_op, find_by_id_op, find_one_op, find_op, count_op,
  find_page_op, update_by_id_op, update_op, run_all,
}
use g_micor.Pgsql.Operations.Numbered.{IsPlainOperation, run_all-strict}
use g_micor.Pgsql.Find.Statement.{IsPlainWhere}
use g_micor.Pgsql.Table.Columns.{PlainColumns}

abbrev adults : WhereBuilder (DbValue ℕ ℕ ℕ)
adults = record {
  conditions = codes "age > $1" ∷ [];
  args = db_int (pos 17) ∷ [];
  order_by = [];
  limit = pos 20;
  offset = pos 0;
}

where_text :
    (Where.build_sql
      (some (set_limit (pos 20) (where_ {A = ℕ} (codes "a = $1 AND b < $7") (4 ∷ 5 ∷ []))))
      3).0
    ≡ codes " WHERE a = $3 AND b < $4 LIMIT 20"
unfolding Where.build_sql set_limit where_ decimal
where_text = refl

-- `Offset` alone is forgotten.
offset_alone :
    Where.build_sql
      (some (record adults { conditions = []; args = []; limit = pos 0; offset = pos 5 }))
      1
    ≡ ([], [])
unfolding Where.build_sql
offset_alone = refl

reindex_ignores_numbers_example :
    reindex (codes "a = $2 AND b = $1") 1 ≡ reindex (codes "a = $1 AND b = $2") 1
reindex_ignores_numbers_example =
    reindex_ignores_numbers (codes "a = $2 AND b = $1") (codes "a = $1 AND b = $2") 1 refl

abbrev rename : UpdateBuilder (DbValue ℕ ℕ ℕ)
rename = record {
  sets = record { column = codes "name"; expr = []; args = db_string (codes "al") ∷ [] } ∷ [];
}

rename-AllPlain : AllPlain rename.sets
rename-AllPlain = (column (db_string (codes "al")) refl refl (omega arith), tt)

set_expr_swaps_example :
    Update.build_sql {D = ℕ}
      (some (record { sets = swapping (codes "n = n * ") (codes " + $1") 3 4 ∷ [] }))
      1
    ≡ some (codes "SET n = n * $2 + $1", 3 ∷ 4 ∷ [], 3)
set_expr_swaps_example = set_expr_swaps (codes "n = n * ") (codes " + $1") 3 4 (omega arith)

abbrev id_meta : FieldMeta
id_meta = record {
  name = codes "ID";
  db_name = codes "id";
  index = 0;
  is_primary_key = true;
  go_type = int64_type;
  scan_kind = scan_direct;
  elem_type = none;
}

abbrev name_meta : FieldMeta
name_meta = record {
  name = codes "Name";
  db_name = codes "name";
  index = 1;
  is_primary_key = false;
  go_type = ptr_type string_type;
  scan_kind = scan_ptr_string;
  elem_type = some string_type;
}

abbrev users : Table
users = record {
  name = codes "users";
  pk_field = id_meta;
  fields = id_meta ∷ name_meta ∷ [];
  insert_fields = name_meta ∷ [];
  select_one_sql = codes "SELECT id, name FROM \"users\" WHERE id = $1";
}

abbrev user_struct : List StructField
user_struct =
    record { name = codes "ID"; exported = true; db = codes "id"; type = int64_type }
    ∷ record {
      name = codes "Name";
      exported = true;
      db = codes "name";
      type = ptr_type string_type;
    }
    ∷ record { name = codes "cache"; exported = false; db = []; type = string_type }
    ∷ record { name = codes "Secret"; exported = true; db = codes "-"; type = string_type }
    ∷ []

users_table : get_table (codes "users") user_struct ≡ ok users
unfolding get_table ◌>>=◌
users_table = refl

get_table-columns_example :
    get_table (codes "users") user_struct ≡ table_over (codes "users") (columns user_struct 0)
get_table-columns_example = get_table-columns (codes "users") user_struct

abbrev driver : Driver ℕ ℕ ℕ ℕ ℤ
driver = record {
  codec = record { marshal = λ j. some (codes "{}"); value_of = λ j. none };
  has_pool = λ s. true;
  query_row = λ sql args s. (some (pos 7), suc s);
  query = λ sql args s. (some (pos 7 ∷ pos 8 ∷ [], true), suc s);
  exec = λ sql args s. (some 1, suc s);
  decoder = record {
    scan = λ kinds row. none;
    zero_value = λ t. nil_ptr t;
    unmarshal = λ t text. none;
  };
  scan_int = λ row. some row;
}

abbrev al : List (GoValue ℕ ℕ ℕ)
al = int (pos 0) ∷ ptr (string (codes "al")) ∷ []

abbrev bo : List (GoValue ℕ ℕ ℕ)
bo = int (pos 0) ∷ nil_ptr string_type ∷ []

abbrev world : World ℕ ℕ ℕ ℕ
world = record { db = 0; entities = al ∷ bo ∷ [] }

two_args :
    collect_args driver.codec (insert_columns users false) (1 ∷ 0 ∷ []) world
    ≡ (ok (null ∷ db_string (codes "al") ∷ []), world)
unfolding collect_args insert_columns ◌>>=◌ g_micor.Pgsql.Driver.◌>>=◌
two_args = refl

insert_many_batch-ids_example :
    (w' : World ℕ ℕ ℕ ℕ) × (insert_many_batch driver users (1 ∷ 0 ∷ []) false world ≡ (ok tt, w'))
    × (w'.db ≡ 1)
    × ((i p : ℕ) (id : ℤ) (e : List (GoValue ℕ ℕ ℕ))
        → get_elem? (1 ∷ 0 ∷ []) i ≡ some p
        → get_elem? (pos 7 ∷ pos 8 ∷ []) i ≡ some id
        → get_elem? world.entities p ≡ some e
        → get_elem? w'.entities p ≡ some (set_pk users id e))
    × ((q : ℕ)
        → All (λ p. q ≢ p) (1 ∷ 0 ∷ [])
        → get_elem? w'.entities q ≡ get_elem? world.entities q)
insert_many_batch-ids_example =
    insert_many_batch-ids driver users (1 ∷ 0 ∷ []) false world (null ∷ db_string (codes "al") ∷ [])
      (pos 7 ∷ pos 8 ∷ []) (pos 7 ∷ pos 8 ∷ []) 1 refl two_args refl refl (omega arith)
      ((omega arith, tt), (tt, tt))

row-IsOnPage_example :
    IsOnPage adults 3 20 45
    × ((page : ℕ) → page * 20 < 2 ^ 63 → IsOnPage adults (suc page) 20 45 → page ≡ 2)
row-IsOnPage_example = row-IsOnPage adults 45 20 (omega arith) (omega arith)

-- A program that looks for adults before it adds two users, and renames some.
abbrev calls : List (Operation (DbValue ℕ ℕ ℕ))
calls =
    find_op (some adults)
    ∷ count_op (some adults)
    ∷ find_op none
    ∷ insert_many_op (0 ∷ 1 ∷ [])
    ∷ update_op (some rename) (some adults)
    ∷ find_page_op (some adults) (pos 2) (pos 20)
    ∷ find_one_op (some adults)
    ∷ insert_one_op 1
    ∷ update_by_id_op 0
    ∷ find_by_id_op (pos 7)
    ∷ id_op
    ∷ []

adults-IsPlain : IsPlainWhere (some adults)
adults-IsPlain = (refl, tt)

calls-plain : All IsPlainOperation calls
calls-plain = (
  adults-IsPlain,
  (
    adults-IsPlain,
    (
      tt,
      (
        tt,
        (
          (rename-AllPlain, adults-IsPlain),
          (adults-IsPlain, (adults-IsPlain, (tt, (tt, (tt, (tt, tt)))))),
        ),
      ),
    ),
  ),
)

users-PlainColumns : PlainColumns (columns user_struct 0)
unfolding column_name field_meta
users-PlainColumns = (omega arith, (omega arith, tt))

run_all-strict_example :
    run_all (strict driver) users (int64_type ∷ ptr_type string_type ∷ []) calls world
    ≡ run_all driver users (int64_type ∷ ptr_type string_type ∷ []) calls world
run_all-strict_example =
    run_all-strict driver (codes "users") user_struct users (int64_type ∷ ptr_type string_type ∷ [])
      calls world (omega arith) users-PlainColumns users_table calls-plain

enough_rounds_example : reindex_loop 9 (codes "a = $12") 3 ≡ reindex (codes "a = $12") 3
enough_rounds_example = enough_rounds 9 (codes "a = $12") 3 (omega arith)
