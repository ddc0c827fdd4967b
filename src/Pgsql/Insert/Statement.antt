-- ===== src/Pgsql/Insert/Statement.antt =====
-- pgsql/table_operation.go, `ID`, `InsertOne` and `InsertMany`: the statements and their arguments.
use g_micor.Base.{
  ℕ, suc, ◌*◌, ◌≡◌, refl, ap, sym, ◌∙◌, Bool, true, false, List, [], ◌∷◌, length, length-append,
  All-append, ◌++◌, arith, if◌then◌else◌,
}
use g_micor.Base.Bytes.{Bytes, codes}
use g_micor.Pgsql.Sql.{
  placeholders, range, NoDollar, placeholders-NoDollar, placeholders-append_NoDollar,
  placeholders_none,
}
use g_micor.Pgsql.Where.{is_empty}
use g_micor.Pgsql.Types.{GoValue, DbValue, Codec}
use g_micor.Pgsql.Result
use g_micor.Pgsql.Driver
use g_micor.Pgsql.Strict.{strict, bind_ext, bind_cong, query-strict, query_row-strict}
use g_micor.Pgsql.Result.{Result, ok, err}
use g_micor.Pgsql.Driver.{Driver, World, get_pool, lift}
use g_micor.Pgsql.Table.{
  FieldMeta, Table, column_sql, build_values_sql, insert_columns, extract_args_by_fields, quoted,
  has_explicit_pk,
}
use g_micor.Pgsql.Table.Columns.{
  suc-mul, zero-mul, placeholders-build_values_sql, PlainColumns, NoDollar-column_sql,
  NoDollar-quoted,
}
use g_micor.Pgsql.Insert.{insert_sql, collect_args, insert_many_batch, insert_many, id, insert_one}

placeholders-insert_sql :
    (table : Bytes) (fields : List FieldMeta) (rows : ℕ)
    → NoDollar table
    → PlainColumns fields
    → placeholders (insert_sql table fields rows) ≡ range 1 (rows * length fields)
unfolding insert_sql
placeholders-insert_sql table fields rows h k =
    placeholders-NoDollar (codes "INSERT INTO ") _ (omega arith)
    ∙ placeholders-NoDollar table _ h
    ∙ placeholders-NoDollar (codes " (") _ (omega arith)
    ∙ placeholders-NoDollar (column_sql fields) _ (NoDollar-column_sql fields k)
    ∙ placeholders-NoDollar (codes ") VALUES ") _ (omega arith)
    ∙ placeholders-append_NoDollar (build_values_sql rows (length fields)) (codes " RETURNING id")
        refl (omega arith)
    ∙ placeholders-build_values_sql rows (length fields)

insert_columns-Plain :
    (t : Table) (include_pk : Bool)
    → PlainColumns (t.pk_field ∷ t.insert_fields)
    → PlainColumns (insert_columns t include_pk)
unfolding insert_columns
insert_columns-Plain t false k = k.1
insert_columns-Plain t true k = k

module _ {J F O : Type 0} (codec : Codec J F O) where
  pub length-extract_args_by_fields :
      (entity : List (GoValue J F O)) (fields : List FieldMeta) (args : List (DbValue J F O))
      → extract_args_by_fields codec entity fields ≡ ok args
      → length args ≡ length fields
  unfolding extract_args_by_fields
  length-extract_args_by_fields entity [] args h = cc
  length-extract_args_by_fields entity (f ∷ fields) args h =
      let (v, got, rest) = Result.bind_ok _ _ args h in
      let (vs, more, end) = Result.bind_ok _ _ args rest in
      ap length (Result.ok_inj (sym end))
      ∙ ap (λ n. suc n) (length-extract_args_by_fields entity fields vs more)

  -- The arguments of a batch are those of its entities; nothing is written yet.
  length-collect_args :
      {S : Type 0} (fields : List FieldMeta) (ps : List ℕ) (w w' : World J F O S)
      (args : List (DbValue J F O))
      → collect_args codec fields ps w ≡ (ok args, w')
      → (length args ≡ length ps * length fields)
  unfolding collect_args
  length-collect_args fields [] w w' args h =
      ap length (sym (Driver.done_inj h).0) ∙ sym (zero-mul (length fields))
  length-collect_args fields (p ∷ ps) w w' args h =
      let (entity, w1, got, rest) = Driver.bind_ok _ _ args w w' h in
      let (args1, w2, got1, rest1) = Driver.bind_ok _ _ args w1 w' rest in
      let (args2, w3, got2, rest2) = Driver.bind_ok _ _ args w2 w' rest1 in
      let more = length-collect_args fields ps w2 w3 args2 got2 in
      let here =
        length-extract_args_by_fields entity fields args1 (Driver.lift_ok _ args1 w1 w2 got1).0 in
      ap length (sym (Driver.done_inj rest2).0)
      ∙ length-append args1 args2
      ∙ rw (here, more, suc-mul (length ps) (length fields)) (omega arith)

module _ {J F O S R : Type 0} (dr : Driver J F O S R) where
  -- A batch: the statement that is sent has a placeholder for each argument, in order.
  pub insert_many_batch-strict :
      (t : Table) (ps : List ℕ) (include_pk : Bool) (w : World J F O S)
      → NoDollar t.name
      → PlainColumns (insert_columns t include_pk)
      → insert_many_batch (strict dr) t ps include_pk w ≡ insert_many_batch dr t ps include_pk w
  unfolding insert_many_batch strict get_pool
  insert_many_batch-strict t ps include_pk w h k =
      let fields = insert_columns t include_pk in
      bind_ext _ _ _ w (λ _ w1 _. bind_ext _ _ _ w1 (λ args w2 got.
        query-strict dr (insert_sql t.name fields (length ps)) args _ w2 (
          placeholders-insert_sql t.name fields (length ps) h k
          ∙ ap (range 1) (sym (length-collect_args dr.codec fields ps w1 w2 args got)))))

  -- `ID` sends no argument,
  pub id-strict : (t : Table) (w : World J F O S) → NoDollar t.name → id (strict dr) t w ≡ id dr t w
  unfolding id strict get_pool
  id-strict t w h = bind_ext _ _ _ w (λ _ w1 _. query_row-strict dr _ _ _ w1 (
      placeholders_none
        (codes "SELECT nextval(pg_get_serial_sequence('" ++ (t.name ++ codes "', 'id'))"))
        (All-append _ (codes "SELECT nextval(pg_get_serial_sequence('") _ (omega arith)
          (All-append _ t.name _ h (omega arith)))))

  one_row : (n : ℕ) → 1 * n ≡ n
  one_row n = omega arith

  -- and `InsertOne` those of one row.
  pub insert_one-strict :
      (t : Table) (p : ℕ) (w : World J F O S)
      → NoDollar t.name
      → PlainColumns (t.pk_field ∷ t.insert_fields)
      → insert_one (strict dr) t p w ≡ insert_one dr t p w
  unfolding insert_one strict get_pool
  insert_one-strict t p w h k = bind_ext _ _ _ w (λ _ w1 _. bind_ext _ _ _ w1 (λ entity w2 _.
      let fields = insert_columns t (has_explicit_pk t entity) in
      bind_ext _ _ _ w2 (λ args w3 got.
        query_row-strict dr (insert_sql (quoted t.name) fields 1) args _ w3 (
          placeholders-insert_sql (quoted t.name) fields 1 (NoDollar-quoted t.name h)
            (insert_columns-Plain t (has_explicit_pk t entity) k)
          ∙ ap (range 1) (
              one_row (length fields)
              ∙ sym (
                  length-extract_args_by_fields dr.codec entity fields args
                    (Driver.lift_ok _ args w2 w3 got).0))))))

  batch_if_any-strict :
      (t : Table) (ps : List ℕ) (include_pk : Bool) (w : World J F O S)
      → NoDollar t.name
      → PlainColumns (insert_columns t include_pk)
      → (if is_empty ps then lift (ok tt) else insert_many_batch (strict dr) t ps include_pk) w
        ≡ (if is_empty ps then lift (ok tt) else insert_many_batch dr t ps include_pk) w
  batch_if_any-strict t [] include_pk w h k = refl
  batch_if_any-strict t (p ∷ ps) include_pk w h k =
      insert_many_batch-strict t (p ∷ ps) include_pk w h k

  -- `InsertMany`, for entities with ids and without: each statement that is sent has a placeholder for each
  -- argument, in order.
  pub insert_many-strict :
      (t : Table) (ps : List ℕ) (w : World J F O S)
      → NoDollar t.name
      → PlainColumns (t.pk_field ∷ t.insert_fields)
      → insert_many (strict dr) t ps w ≡ insert_many dr t ps w
  unfolding insert_many insert_columns
  insert_many-strict t ps w h k = bind_ext _ _ _ w (λ both w1 _.
      bind_cong _ _ _ w1 (batch_if_any-strict t both.1 false w1 h k.1)
      ∙ bind_ext _ _ _ w1 (λ _ w2 _. batch_if_any-strict t both.0 true w2 h k))
