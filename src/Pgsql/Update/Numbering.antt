-- ===== src/Pgsql/Update/Numbering.antt =====
-- pgsql/update.go, `buildSQL`: which placeholders and arguments a SET clause has.
use native.Mathlib.Nat.{add-zero}
use native.Mathlib.Numerals.{add-one}
use g_micor.Base.{
  ℕ, ◌+◌, ◌≡◌, ◌≢◌, refl, ap, sym, ◌∙◌, inl, inr, false, some, List, [], ◌∷◌, ◌++◌, length,
  length-append, All, arith, subst, List-cases,
}
use g_micor.Base.Bytes.{Bytes, codes}
use g_micor.Base.Decimal.{decimal}
use g_micor.Pgsql.Sql.{
  placeholder, join, placeholders, range, NoDollar, first_digit, range-append,
  placeholders-placeholder, placeholders-NoDollar, placeholders-nil, placeholders_none,
  placeholders_one, placeholders-join_cons,
}
use g_micor.Pgsql.Update.{
  SetEntry, UpdateBuilder, strip, replace_first, resolve, build_entry, build_entries, build_sql,
}

-- The first `$1` of a text is replaced where it stands.
replace_first-NoDollar :
    (a b new : Bytes)
    → NoDollar a
    → replace_first (codes "$1") new (a ++ (codes "$1" ++ b)) ≡ a ++ (new ++ b)
unfolding replace_first strip
replace_first-NoDollar [] b new h = refl
replace_first-NoDollar (c ∷ a) b new h = ground (arith, replace_first-NoDollar a b new h.1)

middle-ne-nil : (a b : Bytes) → (a ++ (codes "$1" ++ b)) ≢ []
middle-ne-nil [] b e = cc
middle-ne-nil (c ∷ a) b e = cc

module _ {ℓ} {D : Type ℓ} where
  -- The entries whose text has one placeholder for each argument: a column, an expression with one
  -- `$1` and one argument, or one with neither.
  pub data IsPlain (e : SetEntry D) : Type ℓ where
    column : (v : D) → e.expr ≡ [] → e.args ≡ v ∷ [] → NoDollar e.column → IsPlain e
    unary :
        (a b : Bytes) (v : D)
        → e.expr ≡ a ++ (codes "$1" ++ b)
        → e.args ≡ v ∷ []
        → NoDollar a
        → NoDollar b
        → first_digit b ≡ false
        → IsPlain e
    constant : e.expr ≢ [] → e.args ≡ [] → NoDollar e.expr → IsPlain e

  -- What an entry puts into the clause.
  abbrev Builds : SetEntry D → ℕ → Type ℓ
  Builds e idx =
      (text : Bytes) × (build_entry e idx ≡ some (text, e.args, idx + length e.args))
      × (placeholders text ≡ range idx (length e.args))

  build_entry-expr :
      (e : SetEntry D) (idx : ℕ)
      → e.expr ≢ []
      → build_entry e idx
        ≡ some ((resolve e.args e.expr idx).0, e.args, (resolve e.args e.expr idx).1)
  unfolding build_entry
  build_entry-expr e idx h = elim (List-cases e.expr) [
    | inl none_there ↦ absurd (h none_there)
    | inr (c, s, there) ↦ rw (there, build_entry)
  ]

  build_entry-IsPlain : (e : SetEntry D) (idx : ℕ) → IsPlain e → Builds e idx
  unfolding build_entry
  build_entry-IsPlain e idx (column v he ha hc) = (
    e.column ++ (codes " = " ++ placeholder idx),
    rw (he, ha, build_entry) (rw add-one),
    rw ha (
        placeholders-NoDollar e.column _ hc
        ∙ placeholders-NoDollar (codes " = ") _ (omega arith)
        ∙ placeholders_one idx),
  )
  build_entry-IsPlain e idx (unary a b v he ha na nb fb) = (
    a ++ (placeholder idx ++ b),
    build_entry-expr e idx (λ z. middle-ne-nil a b (sym he ∙ z))
        ∙ rw (he, ha, resolve) (rw (replace_first-NoDollar a b (placeholder idx) na, add-one)),
    rw ha (
        placeholders-NoDollar a _ na
        ∙ placeholders-placeholder idx b fb
        ∙ ap (λ xs. idx ∷ xs) (placeholders_none b nb)),
  )
  build_entry-IsPlain e idx (constant hx ha hn) = (
    e.expr,
    build_entry-expr e idx hx ∙ rw (ha, resolve) (rw add-zero),
    rw ha (placeholders_none e.expr hn),
  )

  abbrev pub AllPlain : List (SetEntry D) → Type ℓ
  AllPlain = All IsPlain

  abbrev pub all_args : List (SetEntry D) → List D
  all_args [] = []
  all_args (e ∷ es) = e.args ++ all_args es

  -- What a list of entries puts into the clause.
  abbrev BuildsAll : List (SetEntry D) → ℕ → Type ℓ
  BuildsAll es idx =
      (parts : List Bytes) × (build_entries es idx
        ≡ some (parts, all_args es, idx + length (all_args es)))
      × (placeholders (join (codes ", ") parts) ≡ range idx (length (all_args es)))

  build_entries-AllPlain : (es : List (SetEntry D)) (idx : ℕ) → AllPlain es → BuildsAll es idx
  unfolding build_entries join
  build_entries-AllPlain [] idx h = ([], rw add-zero, placeholders-nil)
  build_entries-AllPlain (e ∷ es) idx h =
      let (text, built, numbered) = build_entry-IsPlain e idx h.0 in
      let (parts, more, rest) = build_entries-AllPlain es (idx + length e.args) h.1 in
      (
        text ∷ parts,
        rw (built, build_entries)
            (rw more (
              ap (λ k. some (text ∷ parts, e.args ++ all_args es, k))
                (omega (arith, length-append e.args (all_args es))))),
        placeholders-join_cons text parts
            ∙ rw (numbered, rest)
                (range-append idx (length e.args) (length (all_args es))
                  ∙ ap (range idx) (sym (length-append e.args (all_args es)))),
      )

  -- A SET clause of plain entries has the arguments of its entries in order, one placeholder for each,
  -- numbered from the start index, and gives back the first index behind them.
  pub build_sql-AllPlain :
      (ub : UpdateBuilder D) (start : ℕ)
      → AllPlain ub.sets
      → (clause : Bytes) × (build_sql (some ub) start
          ≡ some (clause, all_args ub.sets, start + length (all_args ub.sets)))
        × (placeholders clause ≡ range start (length (all_args ub.sets)))
        × (first_digit clause ≡ false)
  unfolding build_sql
  build_sql-AllPlain ub start h = elim (List-cases ub.sets) [
    | inl e ↦ ([], rw (e, build_sql) (rw add-zero), rw e placeholders-nil, refl)
    | inr (e, es, there) ↦
        let (parts, built, numbered) =
          build_entries-AllPlain (e ∷ es) start (subst AllPlain there h) in
        (
          codes "SET " ++ join (codes ", ") parts,
          rw (there, build_sql) (rw built),
          rw there (placeholders-NoDollar (codes "SET ") _ (omega arith) ∙ numbered),
          refl,
        )
  ]

  abbrev pub swapping : Bytes → Bytes → D → D → SetEntry D
  swapping a b x y = record { column = []; expr = a ++ (codes "$1" ++ b); args = x ∷ y ∷ [] }

  -- The bug: an expression with two arguments at the start of the first clause. The first argument's
  -- placeholder is `$1` again, so the second argument replaces it once more: the text's first `$1`
  -- becomes `$2` and its second `$1` stays, and the arguments are bound the other way round.
  pub set_expr_swaps :
      (a b : Bytes) (x y : D)
      → NoDollar a
      → build_sql (some (record { sets = swapping a b x y ∷ [] })) 1
        ≡ some (codes "SET " ++ (a ++ (codes "$2" ++ b)), x ∷ y ∷ [], 3)
  unfolding build_sql decimal join resolve
  set_expr_swaps a b x y h =
      rw (build_entry-expr (swapping a b x y) 1 (middle-ne-nil a b))
        (rw (replace_first-NoDollar a b (codes "$1") h, replace_first-NoDollar a b (codes "$2") h))
