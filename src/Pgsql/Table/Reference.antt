-- ===== src/Pgsql/Table/Reference.antt =====
-- pgsql/table.go, `GetTable`: the table in terms of the list of all columns.
use g_micor.Base.{
  ℕ, suc, ◌≡◌, refl, ap, sym, ◌∙◌, Bool, true, false, Option, none, some, List, [], ◌∷◌, ◌++◌,
  append-nil, append_assoc, if◌then◌else◌, Bool-cases, Option-cases, inl, inr,
}
use g_micor.Base.Bytes.{Bytes, codes}
use g_micor.Pgsql.Result.{Result, ok, ok_inj, err, ◌>>=◌, no_id, id_not_int64}
use g_micor.Pgsql.Table.{
  StructField, FieldMeta, Table, Collected, column_name, field_meta, is_int64, add_field, collect,
  column_sql, get_table, make_table, quoted, nothing_collected,
}

-- All columns of a struct.
abbrev with_column : ℕ → StructField → Option Bytes → List FieldMeta → List FieldMeta
with_column i f none ms = ms
with_column i f (some name) ms = field_meta i f name ∷ ms

abbrev pub columns : List StructField → ℕ → List FieldMeta
columns [] i = []
columns (f ∷ fs) i = with_column i f (column_name f) (columns fs (suc i))

abbrev pub without_id : List FieldMeta → List FieldMeta
without_id [] = []
without_id (m ∷ ms) = let rest = without_id ms in if m.is_primary_key then rest else m ∷ rest

abbrev pub last_id : Option FieldMeta → List FieldMeta → Option FieldMeta
last_id pk [] = pk
last_id pk (m ∷ ms) =
    let here = last_id (some m) ms in
    let before = last_id pk ms in if m.is_primary_key then here else before

abbrev pub ids_are_int64 : List FieldMeta → Bool
ids_are_int64 [] = true
ids_are_int64 (m ∷ ms) =
    let rest = ids_are_int64 ms in
    if m.is_primary_key then if is_int64 m.go_type then rest else false else rest

abbrev collected : Collected → List FieldMeta → Result Collected
collected acc ms =
    if ids_are_int64 ms
    then ok (record {
      fields = acc.fields ++ ms;
      insert_fields = acc.insert_fields ++ without_id ms;
      pk_field = last_id acc.pk_field ms;
    })
    else err id_not_int64

-- One more column.
collected-cons :
    (acc : Collected) (m : FieldMeta) (ms : List FieldMeta)
    → (add_field m acc >>= λ acc'. collected acc' ms) ≡ collected acc (m ∷ ms)
unfolding ◌>>=◌
collected-cons acc m ms = elim (Bool-cases m.is_primary_key) [
  | inl pk ↦ elim (Bool-cases (is_int64 m.go_type)) [
    | inl int ↦ rw (pk, int) (rw (append_assoc acc.fields _ ms) refl)
    | inr other ↦ rw (pk, other) refl
  ]
  | inr plain ↦
      rw plain
        (rw (append_assoc acc.fields _ ms, append_assoc acc.insert_fields _ (without_id ms)) refl)
]

collect-columns :
    (fs : List StructField) (i : ℕ) (acc : Collected)
    → collect fs i acc ≡ collected acc (columns fs i)
unfolding collect
collect-columns [] i acc = rw (append-nil acc.fields, append-nil acc.insert_fields) refl
collect-columns (f ∷ fs) i acc = elim (Option-cases (column_name f)) [
  | inl none_here ↦ rw (none_here, collect, columns) (collect-columns fs (suc i) acc)
  | inr (name, here) ↦
      rw (here, collect, columns)
        (ap (λ k. add_field (field_meta i f name) acc >>= k)
            (λ j acc'. collect-columns fs (suc i) acc' j)
          ∙ collected-cons acc (field_meta i f name) (columns fs (suc i)))
]

-- The table over a list of columns, or the error that there is none.
abbrev pub table_over : Bytes → List FieldMeta → Result Table
table_over name ms =
    if ids_are_int64 ms
    then elim (last_id none ms) [
      | none ↦ err no_id
      | some pk ↦ ok (record {
        name = name;
        pk_field = pk;
        fields = ms;
        insert_fields = without_id ms;
        select_one_sql =
            codes "SELECT "
            ++ (column_sql ms ++ (codes " FROM " ++ (quoted name ++ codes " WHERE id = $1")));
      })
    ]
    else err id_not_int64

-- `GetTable` keeps all columns of the struct in order, sets the others than id aside for INSERT and
-- takes the last id for the key; it fails if an id is no int64, and otherwise if there is no id.
pub get_table-columns :
    (name : Bytes) (fs : List StructField) → get_table name fs ≡ table_over name (columns fs 0)
unfolding get_table ◌>>=◌
get_table-columns name fs =
    ap (λ r. r >>= make_table name) (collect-columns fs 0 nothing_collected)
    ∙ elim (Bool-cases (ids_are_int64 (columns fs 0))) [
      | inl e ↦ rw e (elim (Option-cases (last_id none (columns fs 0))) [
        | inl e' ↦ rw e' refl
        | inr (pk, e') ↦ rw e' refl
      ])
      | inr e ↦ rw e refl
    ]

table_over-fields :
    (name : Bytes) (ms : List FieldMeta) (t : Table) → table_over name ms ≡ ok t → t.fields ≡ ms
table_over-fields name ms t e = elim (Bool-cases (ids_are_int64 ms)) [
  | inr c ↦ absurd (let e' = (rw c at e) in cc)
  | inl c ↦ elim (Option-cases (last_id none ms)) [
    | inl c' ↦ absurd (let e' = (rw (c, c') at e) in cc)
    | inr (pk, c') ↦ ap (λ t'. t'.fields) (sym (ok_inj (rw (c, c') at e)))
  ]
]

pub get_table-fields :
    (name : Bytes) (fs : List StructField) (t : Table)
    → get_table name fs ≡ ok t
    → t.fields ≡ columns fs 0
get_table-fields name fs t e =
    table_over-fields name (columns fs 0) t (sym (get_table-columns name fs) ∙ e)
