-- ===== src/Pgsql/Find/Cells.antt =====
-- pgsql/table.go: the cells of a row that holds the values of an entity.
use g_micor.Base.{
  suc, ◌≡◌, refl, ap, sym, ◌∙◌, subst, false, none, some, List, [], ◌∷◌, ◌++◌, length, map, All,
  append_assoc, length-append, arith, get_or,
}
use g_micor.Base.Bytes.{Bytes}
use g_micor.Pgsql.Types.{GoType, GoValue, DbValue, Codec, ScanKind, bool}
use g_micor.Pgsql.Result.{ok, ◌>>=◌}
use g_micor.Pgsql.Scan.{Target}
use g_micor.Pgsql.Driver.{Decoder}
use g_micor.Pgsql.Table.{
  StructField, FieldMeta, Table, column_name, field_meta, extract_args_by_fields,
}
use g_micor.Pgsql.Table.Reference.{columns}
use g_micor.Pgsql.Find.{prepare_scan}
use g_micor.Pgsql.Find.Rows.{
  Cell, hidden, shown, metas, targets, zeros, values, IsIndexed, IsReadAs,
}
use g_micor.Pgsql.Find.Kept.{IsRowDriver, IsKept, ComesBack, kept-ComesBack}

abbrev pub types_of : List StructField → List GoType
types_of fs = map (λ f. f.type) fs

get_or-append {ℓ} :
    {A : Type ℓ} (xs : List A) (y : A) (ys : List A) (d : A)
    → get_or (xs ++ y ∷ ys) (length xs) d ≡ y
get_or-append [] y ys d = refl
get_or-append (x ∷ xs) y ys d = get_or-append xs y ys d

module _ {J F O R : Type 0} (codec : Codec J F O) (de : Decoder J F O R)
    (load : GoType → ScanKind → DbValue J F O → Target J F O) where
  -- An entity of a struct type whose columns keep their values.
  pub data AllKept : List StructField → List (GoValue J F O) → Type 0 where
    all_kept : AllKept [] []
    hidden_field :
        {f : StructField} {fs : List StructField} {v : GoValue J F O} {vs : List (GoValue J F O)}
        → column_name f ≡ none
        → AllKept fs vs
        → AllKept (f ∷ fs) (v ∷ vs)
    kept_field :
        {f : StructField} {fs : List StructField} {v : GoValue J F O} {vs : List (GoValue J F O)}
        (name : Bytes)
        → column_name f ≡ some name
        → IsKept codec de load f.type v
        → AllKept fs vs
        → AllKept (f ∷ fs) (v ∷ vs)

  -- What an entity has in its columns, and zero values elsewhere.
  abbrev pub visible : List StructField → List (GoValue J F O) → List (GoValue J F O)
  visible [] vs = []
  visible (f ∷ fs) [] = []
  visible (f ∷ fs) (v ∷ vs) =
      elim (column_name f) [ none ↦ de.zero_value f.type | some name ↦ v ] ∷ visible fs vs

  -- A row that holds the values: each target takes its own.
  abbrev pub loads : List FieldMeta → List (DbValue J F O) → List (Target J F O)
  loads [] ds = []
  loads (m ∷ ms) [] = []
  loads (m ∷ ms) (d ∷ ds) = load m.go_type m.scan_kind d ∷ loads ms ds

  abbrev pub HoldsEntity : Table → List (GoValue J F O) → R → Type 0
  HoldsEntity t entity row =
      (args : List (DbValue J F O))
      → extract_args_by_fields codec entity t.fields ≡ ok args
      → de.scan (prepare_scan de t) row ≡ some (loads t.fields args)

  abbrev pub HoldEntities : Table → List (List (GoValue J F O)) → List R → Type 0
  HoldEntities t [] [] = Unit
  HoldEntities t (e ∷ es) (row ∷ rows) = HoldsEntity t e row × HoldEntities t es rows
  HoldEntities t _ _ = ⊥

  -- The cells of a row that holds what is left of an entity.
  pub record RowOf (pre : List (GoValue J F O)) (fs : List StructField) (vs : List (GoValue J F O))
      : Type 0 where
    pub args : List (DbValue J F O)
    pub cells : List (Cell J F O)
    pub sent : extract_args_by_fields codec (pre ++ vs) (columns fs (length pre)) ≡ ok args
    pub metas_are : metas cells ≡ columns fs (length pre)
    pub targets_are : targets cells ≡ loads (columns fs (length pre)) args
    pub zeros_are : zeros cells ≡ map de.zero_value (types_of fs)
    pub values_are : values cells ≡ visible fs vs
    pub are_read : All (IsReadAs de) cells
    pub are_indexed : IsIndexed (length pre) cells

  -- One more field of the entity.
  snoc :
      (pre : List (GoValue J F O)) (v : GoValue J F O) → length (pre ++ v ∷ []) ≡ suc (length pre)
  snoc pre v = omega (arith, length-append pre (v ∷ []))

  hide :
      (pre : List (GoValue J F O)) (f : StructField) (fs : List StructField) (v : GoValue J F O)
      (vs : List (GoValue J F O))
      → column_name f ≡ none
      → RowOf (pre ++ v ∷ []) fs vs
      → RowOf pre (f ∷ fs) (v ∷ vs)
  hide pre f fs v vs e row = record {
    args = row.args;
    cells = hidden (de.zero_value f.type) ∷ row.cells;
    sent = rw (e, sym (snoc pre v), sym (append_assoc pre (v ∷ []) vs)) row.sent;
    metas_are = rw (e, sym (snoc pre v)) row.metas_are;
    targets_are = rw (e, sym (snoc pre v)) row.targets_are;
    zeros_are = ap (λ zs. de.zero_value f.type ∷ zs) row.zeros_are;
    values_are = rw e (ap (λ ws. de.zero_value f.type ∷ ws) row.values_are);
    are_read = (tt, row.are_read);
    are_indexed = subst (λ n. IsIndexed n row.cells) (snoc pre v) row.are_indexed;
  }

  show :
      (pre : List (GoValue J F O)) (f : StructField) (fs : List StructField) (v : GoValue J F O)
      (vs : List (GoValue J F O)) (name : Bytes)
      → column_name f ≡ some name
      → ComesBack codec de load (field_meta (length pre) f name) v
      → RowOf (pre ++ v ∷ []) fs vs
      → RowOf pre (f ∷ fs) (v ∷ vs)
  unfolding extract_args_by_fields field_meta ◌>>=◌
  show pre f fs v vs name e (d, got, there) row =
      let meta = field_meta (length pre) f name in
      record {
        args = d ∷ row.args;
        cells = shown meta (load f.type meta.scan_kind d) (de.zero_value f.type) v ∷ row.cells;
        sent =
            rw (e, get_or-append pre v vs (bool false), got)
              (ap
                  (λ n. extract_args_by_fields codec (pre ++ v ∷ vs) (columns fs n) >>= λ ds.
                    ok (d ∷ ds))
                  (sym (snoc pre v))
                ∙ ap
                    (λ xs.
                      extract_args_by_fields codec xs (columns fs (length (pre ++ v ∷ [])))
                      >>= λ ds. ok (d ∷ ds))
                    (sym (append_assoc pre (v ∷ []) vs))
                ∙ ap (λ r. r >>= λ ds. ok (d ∷ ds)) row.sent);
        metas_are = rw (e, sym (snoc pre v)) (ap (λ ms. meta ∷ ms) row.metas_are);
        targets_are =
            rw (e, sym (snoc pre v)) (ap (λ ts. load f.type meta.scan_kind d ∷ ts) row.targets_are);
        zeros_are = ap (λ zs. de.zero_value f.type ∷ zs) row.zeros_are;
        values_are = rw e (ap (λ ws. v ∷ ws) row.values_are);
        are_read = (there, row.are_read);
        are_indexed = (refl, subst (λ n. IsIndexed n row.cells) (snoc pre v) row.are_indexed);
      }

  back :
      (pre : List (GoValue J F O)) (f : StructField) (name : Bytes) (v : GoValue J F O)
      → IsRowDriver codec de load
      → IsKept codec de load f.type v
      → ComesBack codec de load (field_meta (length pre) f name) v
  unfolding field_meta
  back pre f name v h k =
      let meta = field_meta (length pre) f name in
      kept-ComesBack codec de load meta.name meta.db_name meta.index meta.is_primary_key h k

  -- A row that holds a kept entity.
  pub row_of :
      (pre : List (GoValue J F O)) {fs : List StructField} {vs : List (GoValue J F O)}
      → IsRowDriver codec de load
      → AllKept fs vs
      → RowOf pre fs vs
  unfolding extract_args_by_fields
  row_of pre h all_kept = record {
    args = [];
    cells = [];
    sent = refl;
    metas_are = refl;
    targets_are = refl;
    zeros_are = refl;
    values_are = refl;
    are_read = tt;
    are_indexed = tt;
  }
  row_of pre h (hidden_field {f} {fs} {v} {vs} e k) =
      hide pre f fs v vs e (row_of (pre ++ v ∷ []) h k)
  row_of pre h (kept_field {f} {fs} {v} {vs} name e kept k) =
      show pre f fs v vs name e (back pre f name v h kept) (row_of (pre ++ v ∷ []) h k)
