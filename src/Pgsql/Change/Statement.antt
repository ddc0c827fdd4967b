-- ===== src/Pgsql/Change/Statement.antt =====
-- pgsql/table_operation.go, `UpdateByID` and `Update`: the statements and their arguments.
use g_micor.Base.{
  ℕ, suc, ◌+◌, ◌≡◌, refl, ap, subst, sym, ◌∙◌, Option, none, some, List, [], ◌∷◌, ◌++◌, length,
  length-append, arith, Bool-cases, inl, inr,
}
use g_micor.Base.Bytes.{Bytes, codes}
use g_micor.Pgsql.Sql.{
  placeholder, placeholders, range, NoDollar, range-append, placeholders-NoDollar,
  placeholders-append, placeholders-join_cons, placeholders_one, placeholders-nil, join,
}
use g_micor.Pgsql.Where
use g_micor.Pgsql.Where.{WhereBuilder, is_empty, is_zero}
use g_micor.Pgsql.Update.{UpdateBuilder}
use g_micor.Pgsql.Update.Numbering.{AllPlain, all_args, build_sql-AllPlain}
use g_micor.Pgsql.Where.Numbering.{
  all_dollars, IsBalanced, length-build_sql, first_digit-build_sql, placeholders-build_sql,
}
use g_micor.Pgsql.Types.{DbValue, db_int}
use g_micor.Pgsql.Strict.{strict, IsNumbered, bind_ext, exec-strict, exec_last-strict}
use g_micor.Pgsql.Driver.{Driver, World, get_pool, done_inj, lift_ok}
use g_micor.Pgsql.Table.{FieldMeta, Table, field_value}
use g_micor.Pgsql.Insert.Statement.{length-extract_args_by_fields}
use g_micor.Pgsql.Table.Columns.{PlainColumns}
use g_micor.Pgsql.Find.Statement.{IsPlainWhere}
use g_micor.Pgsql.Change.{set_clauses, update_by_id_sql, update_sql, update_by_id, update, int_of}

-- SET numbers on from 1 and WHERE behind it, and the arguments are in the same order.
update_sql-IsNumbered {ℓ} :
    {D : Type ℓ} (t : Table) (ub : UpdateBuilder D) (wb : WhereBuilder D)
    → NoDollar t.name
    → AllPlain ub.sets
    → IsBalanced wb
    → NoDollar wb.order_by
    → (sql : Bytes) × (args : List D) × (update_sql t ub wb ≡ some (sql, args))
      × IsNumbered sql args
unfolding update_sql
update_sql-IsNumbered t ub wb h plain balanced k =
    let (clause, built, numbered, _) = build_sql-AllPlain ub 1 plain in
    let next = 1 + length (all_args ub.sets) in
    let (text, args) = Where.build_sql (some wb) next in
    (
      _,
      all_args ub.sets ++ args,
      rw (built, update_sql) refl,
      placeholders-NoDollar (codes "UPDATE ") _ (omega arith)
          ∙ placeholders-NoDollar t.name _ h
          ∙ placeholders-NoDollar (codes " ") _ (omega arith)
          ∙ placeholders-append clause text (first_digit-build_sql wb next)
          ∙ rw (numbered, placeholders-build_sql wb next k)
              (range-append 1 (length (all_args ub.sets)) (all_dollars wb.conditions)
                ∙ ap (range 1) (
                    ap (λ n. length (all_args ub.sets) + n)
                      (sym (length-build_sql wb next balanced))
                    ∙ sym (length-append (all_args ub.sets) args))),
    )

-- A SET builder, if there is one, of plain entries.
abbrev pub IsPlainUpdate {ℓ} : {D : Type ℓ} → Option (UpdateBuilder D) → Type ℓ
IsPlainUpdate none = Unit
IsPlainUpdate (some ub) = AllPlain ub.sets

set_clause_parts :
    (fields : List FieldMeta) (i : ℕ)
    → PlainColumns fields
    → placeholders (join (codes ", ") (set_clauses fields i)) ≡ range (i + 1) (length fields)
unfolding join
set_clause_parts [] i h = placeholders-nil
set_clause_parts (f ∷ fields) i h =
    placeholders-join_cons (f.db_name ++ (codes " = " ++ placeholder (i + 1)))
      (set_clauses fields (suc i))
    ∙ rw
        (
          placeholders-NoDollar f.db_name (codes " = " ++ placeholder (i + 1)) h.0,
          placeholders-NoDollar (codes " = ") (placeholder (i + 1)) (omega arith),
          placeholders_one (i + 1),
          set_clause_parts fields (suc i) h.1,
        )
        (ap (λ n. (i + 1) ∷ range n (length fields)) (omega arith))

update_by_id_sql-numbered :
    (t : Table)
    → NoDollar t.name
    → PlainColumns t.insert_fields
    → placeholders (update_by_id_sql t) ≡ range 1 (length t.insert_fields + 1)
unfolding update_by_id_sql
update_by_id_sql-numbered t h k =
    placeholders-NoDollar (codes "UPDATE ") _ (omega arith)
    ∙ placeholders-NoDollar t.name _ h
    ∙ placeholders-NoDollar (codes " SET ") _ (omega arith)
    ∙ placeholders-append (join (codes ", ") (set_clauses t.insert_fields 0)) _ refl
    ∙ rw
        (
          set_clause_parts t.insert_fields 0 k,
          placeholders-NoDollar (codes " WHERE id = ") (placeholder (length t.insert_fields + 1))
              (omega arith),
          placeholders_one (length t.insert_fields + 1),
        )
        (ap (λ n. range 1 (length t.insert_fields) ++ (n ∷ [])) (omega arith)
          ∙ range-append 1 (length t.insert_fields) 1)

module _ {J F O S R : Type 0} (dr : Driver J F O S R) (t : Table) where
  -- What `Update` sends, if it sends anything.
  pub update-strict :
      (ub : Option (UpdateBuilder (DbValue J F O))) (wb : Option (WhereBuilder (DbValue J F O)))
      (w : World J F O S)
      → NoDollar t.name
      → IsPlainUpdate ub
      → IsPlainWhere wb
      → update (strict dr) t ub wb w ≡ update dr t ub wb w
  unfolding update strict get_pool
  update-strict none wb w h plain k = refl
  update-strict (some ub) none w h plain k = refl
  update-strict (some ub) (some wb) w h plain (balanced, k) =
      let (sql, args, built, numbered) = update_sql-IsNumbered t ub wb h plain balanced k in
      elim (Bool-cases (is_empty ub.sets)) [
        | inl e ↦ rw e refl
        | inr e ↦ elim (Bool-cases (is_empty wb.conditions)) [
          | inl e' ↦ rw (e, e') refl
          | inr e' ↦
              rw (e, e')
                (bind_ext _ _ _ w (λ _ w1 _. rw built (
                  bind_ext _ _ _ w1 (λ q w2 got.
                    exec_last-strict dr q.0 q.1 w2
                      (subst (λ q'. IsNumbered q'.0 q'.1) (done_inj got).0 numbered)))))
        ]
      ]

  -- and what `UpdateByID` sends.
  pub update_by_id-strict :
      (p : ℕ) (w : World J F O S)
      → NoDollar t.name
      → PlainColumns t.insert_fields
      → update_by_id (strict dr) t p w ≡ update_by_id dr t p w
  unfolding update_by_id strict get_pool
  update_by_id-strict p w h k = bind_ext _ _ _ w (λ _ w1 _. bind_ext _ _ _ w1 (λ entity w2 _.
      elim (Bool-cases (is_zero (int_of (field_value entity t.pk_field)))) [
        | inl e ↦ rw e refl
        | inr e ↦ rw e (
            bind_ext _ _ _ w2 (λ args w3 got.
              exec-strict dr (update_by_id_sql t)
                (args ++ db_int (int_of (field_value entity t.pk_field)) ∷ []) _ w3
                (update_by_id_sql-numbered t h k
                  ∙ ap (range 1) (
                      sym (
                        length-append args _
                        ∙ ap (λ n. n + 1)
                            (length-extract_args_by_fields dr.codec entity t.insert_fields args
                              (lift_ok _ args w2 w3 got).0))))))
      ]))
