-- ===== src/Pgsql/Find/Tests.antt =====
-- pgsql/: users with JSON contents and nil pointers that are found again.
use g_micor.Base.{ap, false, ℕ, suc, ◌≡◌, refl, true, none, some, arith, List, [], ◌∷◌, map}
use g_micor.Base.Int.{pos}
use g_micor.Base.Bytes.{codes}
use g_micor.Pgsql.Types.{
  no_methods, slice_type, struct_type, slice, struct, string, int, int64_type, string_type,
  ptr_type, ptr, nil_ptr, DbValue, scan_direct, db_string, db_int, db_bytes, null, GoValue,
  get_value,
}
use g_micor.Pgsql.Result.{ok, ok_inj, Result, ◌>>=◌}
use g_micor.Pgsql.Scan.RoundTrip.{a_string}
use g_micor.Pgsql.Driver.{Driver}
use g_micor.Pgsql.Table.{
  FieldMeta, StructField, Table, get_table, column_name, extract_args_by_fields,
}
use g_micor.Pgsql.Find.{find}
use g_micor.Pgsql.Find.Kept.{
  direct_int64, kept_direct, kept_pointer, kept_nil, kept_json, kept_json_pointer, kept_json_nil,
  kept_no_slice, json_slice, json_struct,
}
use g_micor.Pgsql.Find.Cells.{
  AllKept, all_kept, hidden_field, kept_field, visible, types_of, HoldEntities, loads,
}
use g_micor.Pgsql.Find.RoundTrip.{find_returns}
use g_micor.Pgsql.Find.Sample.{load, codec, decoder, load-IsRowDriver}

abbrev member_struct : List StructField
member_struct =
    record { name = codes "ID"; exported = true; db = codes "id"; type = int64_type }
    ∷ record {
      name = codes "Nick";
      exported = true;
      db = codes "nick";
      type = ptr_type string_type;
    }
    ∷ record { name = codes "Secret"; exported = true; db = codes "-"; type = string_type }
    ∷ record { name = codes "Tags"; exported = true; db = codes "tags"; type = slice_type }
    ∷ record {
      name = codes "Home";
      exported = true;
      db = [];
      type = ptr_type (struct_type no_methods no_methods);
    }
    ∷ []

abbrev ann : List (GoValue ℕ ℕ ℕ)
ann =
    int (pos 7)
    ∷ ptr (string (codes "ann"))
    ∷ string (codes "s")
    ∷ slice (some 3)
    ∷ nil_ptr (struct_type no_methods no_methods)
    ∷ []

abbrev bob : List (GoValue ℕ ℕ ℕ)
bob =
    int (pos 8)
    ∷ nil_ptr string_type
    ∷ string (codes "t")
    ∷ slice none
    ∷ ptr (struct no_methods 5)
    ∷ []

abbrev row_of_ann : List (DbValue ℕ ℕ ℕ)
row_of_ann = db_int (pos 7) ∷ db_string (codes "ann") ∷ db_bytes (91 ∷ 3 ∷ []) ∷ null ∷ []

abbrev row_of_bob : List (DbValue ℕ ℕ ℕ)
row_of_bob = db_int (pos 8) ∷ null ∷ null ∷ db_bytes (91 ∷ 5 ∷ []) ∷ []

abbrev driver : Driver ℕ ℕ ℕ ℕ (List (DbValue ℕ ℕ ℕ))
driver = record {
  codec = codec;
  has_pool = λ s. true;
  query_row = λ sql args s. (none, s);
  query = λ sql args s. (some (row_of_ann ∷ row_of_bob ∷ [], true), suc s);
  exec = λ sql args s. (none, s);
  decoder = decoder;
  scan_int = λ row. none;
}

abbrev nowhere : FieldMeta
nowhere = record {
  name = [];
  db_name = [];
  index = 0;
  is_primary_key = false;
  go_type = int64_type;
  scan_kind = scan_direct;
  elem_type = none;
}

abbrev the_table : Result Table → Table
the_table (ok t) = t
the_table _ = record {
  name = [];
  pk_field = nowhere;
  fields = [];
  insert_fields = [];
  select_one_sql = [];
}

abbrev members : Table
members = the_table (get_table (codes "members") member_struct)

ann-AllKept : AllKept codec decoder load member_struct ann
unfolding column_name
ann-AllKept = kept_field (codes "id") refl (kept_direct (direct_int64 (pos 7) (omega arith))) (
    kept_field (codes "nick") refl (kept_pointer (a_string (codes "ann"))) (
      hidden_field refl (
        kept_field (codes "tags") refl (kept_json 91 (3 ∷ []) (json_slice 3) refl refl)
          (kept_field (codes "Home") refl (kept_json_nil (json_struct 5)) all_kept))))

bob-AllKept : AllKept codec decoder load member_struct bob
unfolding column_name
bob-AllKept = kept_field (codes "id") refl (kept_direct (direct_int64 (pos 8) (omega arith))) (
    kept_field (codes "nick") refl (kept_nil (a_string [])) (
      hidden_field refl (
        kept_field (codes "tags") refl kept_no_slice (
          kept_field (codes "Home") refl (kept_json_pointer 91 (5 ∷ []) (json_struct 5) refl refl)
            all_kept))))

members_table : get_table (codes "members") member_struct ≡ ok members
unfolding get_table ◌>>=◌
members_table = refl

rows_hold : HoldEntities codec decoder load members (ann ∷ bob ∷ []) (row_of_ann ∷ row_of_bob ∷ [])
unfolding get_table ◌>>=◌ extract_args_by_fields get_value
rows_hold = (
  λ args sent. ap (λ ds. some (loads codec decoder load members.fields ds)) (ok_inj sent),
  (λ args sent. ap (λ ds. some (loads codec decoder load members.fields ds)) (ok_inj sent), tt),
)

find_returns_example :
    find driver members (types_of member_struct) none (record { db = 0; entities = [] }) ≡ (
      ok (map (visible codec decoder load member_struct) (ann ∷ bob ∷ [])),
      record { db = 1; entities = [] },
    )
find_returns_example =
    find_returns driver load (codes "members") member_struct members (ann ∷ bob ∷ [])
      (row_of_ann ∷ row_of_bob ∷ []) none (record { db = 0; entities = [] }) 1 load-IsRowDriver
      members_table (ann-AllKept, (bob-AllKept, tt)) rows_hold refl refl
