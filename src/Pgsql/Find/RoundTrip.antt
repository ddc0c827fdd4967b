-- ===== src/Pgsql/Find/RoundTrip.antt =====
-- pgsql/table.go and pgsql/table_operation.go: entities whose values the rows of `Find` hold.
use g_micor.Base.{◌≡◌, refl, ap, sym, ◌∙◌, true, Option, some, List, [], ◌∷◌, ◌++◌, map, All}
use g_micor.Base.Bytes.{Bytes}
use g_micor.Pgsql.Where.{WhereBuilder, build_sql}
use g_micor.Pgsql.Types.{GoType, GoValue, DbValue, Codec, ScanKind}
use g_micor.Pgsql.Result.{ok}
use g_micor.Pgsql.Scan.{Target}
use g_micor.Pgsql.Driver.{Decoder, Driver, World, bind_runs, get_pool_runs, calling_runs}
use g_micor.Pgsql.Table.{StructField, Table, get_table, extract_args_by_fields}
use g_micor.Pgsql.Table.Reference.{columns, get_table-fields}
use g_micor.Pgsql.Find.{scan_rows, scan_row, finalize_scan, select_sql, find}
use g_micor.Pgsql.Find.Rows.{targets, zeros, finalize_scan-values}
use g_micor.Pgsql.Find.Kept.{IsRowDriver}
use g_micor.Pgsql.Find.Cells.{types_of, AllKept, visible, loads, HoldsEntity, HoldEntities, row_of}

module _ {J F O R : Type 0} (codec : Codec J F O) (de : Decoder J F O R)
    (load : GoType → ScanKind → DbValue J F O → Target J F O) where
  scan_row-visible :
      (t : Table) (fs : List StructField) (entity : List (GoValue J F O)) (row : R)
      → IsRowDriver codec de load
      → t.fields ≡ columns fs 0
      → AllKept codec de load fs entity
      → HoldsEntity codec de load t entity row
      → scan_row de t (types_of fs) row ≡ ok (visible codec de load fs entity)
  unfolding scan_row
  scan_row-visible t fs entity row h e kept holds =
      let cells = row_of codec de load [] h kept in
      rw (holds cells.args (ap (extract_args_by_fields codec entity) e ∙ cells.sent), scan_row)
        (ap
            (λ ms.
              finalize_scan de ms (loads codec de load ms cells.args)
                (map de.zero_value (types_of fs)))
            e
          ∙ ap
              (λ zs.
                finalize_scan de (columns fs 0) (loads codec de load (columns fs 0) cells.args) zs)
              (sym cells.zeros_are)
          ∙ ap (λ ts. finalize_scan de (columns fs 0) ts (zeros cells.cells))
              (sym cells.targets_are)
          ∙ ap (λ ms. finalize_scan de ms (targets cells.cells) (zeros cells.cells))
              (sym cells.metas_are)
          ∙ finalize_scan-values de cells.cells cells.are_read cells.are_indexed
          ∙ ap ok cells.values_are)

  scan_rows-visible :
      (t : Table) (fs : List StructField) (es : List (List (GoValue J F O))) (rows : List R)
      → IsRowDriver codec de load
      → t.fields ≡ columns fs 0
      → All (AllKept codec de load fs) es
      → HoldEntities codec de load t es rows
      → scan_rows de t (types_of fs) rows true ≡ ok (map (visible codec de load fs) es)
  unfolding scan_rows
  scan_rows-visible t fs [] [] h e kept holds = refl
  scan_rows-visible t fs [] (row ∷ rows) h e kept holds = absurd holds
  scan_rows-visible t fs (entity ∷ es) [] h e kept holds = absurd holds
  scan_rows-visible t fs (entity ∷ es) (row ∷ rows) h e kept holds =
      rw (scan_row-visible t fs entity row h e kept.0 holds.0, scan_rows)
        (rw (scan_rows-visible t fs es rows h e kept.1 holds.1) refl)

-- Find gives back the entities whose values the rows hold, in the order of the rows: a field with a column
-- has its value, and one without the zero value of its type. The table is GetTable's, the columns keep their
-- values, a pool is there, the query goes well, and each target of a row takes the value that was
-- sent for its column.
pub find_returns :
    {J F O S R : Type 0} (dr : Driver J F O S R)
    (load : GoType → ScanKind → DbValue J F O → Target J F O) (name : Bytes) (fs : List StructField)
    (t : Table) (es : List (List (GoValue J F O))) (rows : List R)
    (wb : Option (WhereBuilder (DbValue J F O))) (w : World J F O S) (db' : S)
    → IsRowDriver dr.codec dr.decoder load
    → get_table name fs ≡ ok t
    → All (AllKept dr.codec dr.decoder load fs) es
    → HoldEntities dr.codec dr.decoder load t es rows
    → dr.has_pool w.db ≡ true
    → dr.query (select_sql dr t (types_of fs) ++ (build_sql wb 1).0) (build_sql wb 1).1 w.db
      ≡ (some (rows, true), db')
    → find dr t (types_of fs) wb w
      ≡ (ok (map (visible dr.codec dr.decoder load fs) es), record w { db = db' })
unfolding find
find_returns dr load name fs t es rows wb w db' h made kept holds pool answered =
    bind_runs _ _ w w tt (get_pool_runs dr w pool)
    ∙ bind_runs _ _ w (record w { db = db' }) (rows, true)
        (calling_runs _ w (rows, true) db' answered)
    ∙ ap (λ r. (r, record w { db = db' }))
        (scan_rows-visible dr.codec dr.decoder load t fs es rows h (get_table-fields name fs t made)
          kept holds)
