-- ===== src/Pgsql/Update.antt =====
-- pgsql/update.go: the builder of SET clauses. `A` is the type of the caller's values and `D` that of
-- the values a driver takes; `to_db` is `toDBValue`, `none` an error of it. A panic is `none`.
pub mod Numbering
use g_micor.Base.{
  ℕ, zero, suc, ◌+◌, Bool, true, false, ◌&&◌, Option, none, some, List, [], ◌∷◌, ◌++◌, length, ◌==◌,
  if◌then◌else◌,
}
use g_micor.Base.Bytes.{Bytes, codes}
use g_micor.Pgsql.Sql.{dollar, placeholder, join}

pub record SetEntry {ℓ} (D : Type ℓ) : Type ℓ where
  pub column : Bytes
  pub expr : Bytes
  pub args : List D

pub record UpdateBuilder {ℓ} (D : Type ℓ) : Type ℓ where
  pub sets : List (SetEntry D)

infixl 5 ◌>>=◌
abbrev pub ◌>>=◌ {ℓ κ} : {A : Type ℓ} {B : Type κ} → Option A → (A → Option B) → Option B
none >>= f = none
some a >>= f = f a

abbrev pub empty_update {ℓ} : {D : Type ℓ} → UpdateBuilder D
empty_update = record { sets = [] }

module _ {ℓ κ} {A : Type ℓ} {D : Type κ} (to_db : A → Option D) where
  -- `Set`
  unfoldable pub set_column : Bytes → A → UpdateBuilder D → Option (UpdateBuilder D)
  set_column column value ub = do
    val ← to_db value
    some (record { sets = ub.sets ++ record { column = column; expr = []; args = val ∷ [] } ∷ [] })

  unfoldable pub process_args : List A → Option (List D)
  process_args [] = some []
  process_args (arg ∷ args) = do val ← to_db arg; vals ← process_args args; some (val ∷ vals)

  -- `SetExpr`
  unfoldable pub set_expr : Bytes → List A → UpdateBuilder D → Option (UpdateBuilder D)
  unfolding process_args
  set_expr expr args ub = do
    vals ← process_args args
    some (record { sets = ub.sets ++ record { column = []; expr = expr; args = vals } ∷ [] })

-- The text behind a prefix, if the text has it.
unfoldable pub strip : Bytes → Bytes → Option Bytes
strip [] s = some s
strip (p ∷ ps) [] = none
strip (p ∷ ps) (c ∷ s) = if p == c then strip ps s else none

-- strings.Replace(s, old, new, 1)
unfoldable pub replace_first : Bytes → Bytes → Bytes → Bytes
unfolding strip
replace_first old new [] = elim (strip old []) [ none ↦ [] | some rest ↦ new ++ rest ]
replace_first old new (c ∷ s) = elim (strip old (c ∷ s)) [
  | none ↦ c ∷ replace_first old new s
  | some rest ↦ new ++ rest
]

module _ {ℓ} {D : Type ℓ} where
  -- The loop over the arguments of an expression.
  unfoldable pub resolve : List D → Bytes → ℕ → Bytes × ℕ
  unfolding replace_first
  resolve [] resolved idx = (resolved, idx)
  resolve (arg ∷ args) resolved idx =
      resolve args (replace_first (codes "$1") (placeholder idx) resolved) (suc idx)

  -- The text, the arguments and the next index of one entry; `args[0]` of an entry without
  -- arguments is a panic.
  unfoldable pub build_entry : SetEntry D → ℕ → Option (Bytes × List D × ℕ)
  unfolding resolve
  build_entry e idx = elim e.expr [
    | [] ↦ elim e.args [
      | [] ↦ none
      | arg ∷ rest ↦ some (e.column ++ (codes " = " ++ placeholder idx), arg ∷ [], suc idx)
    ]
    | c ∷ s ↦ let (text, next) = resolve e.args (c ∷ s) idx in some (text, e.args, next)
  ]

  unfoldable pub build_entries : List (SetEntry D) → ℕ → Option (List Bytes × List D × ℕ)
  unfolding build_entry
  build_entries [] idx = some ([], [], idx)
  build_entries (e ∷ es) idx = do
    (part, args, next) ← build_entry e idx
    (parts, all_args, last) ← build_entries es next
    some (part ∷ parts, args ++ all_args, last)

  -- `buildSQL`; `none` is the nil builder.
  unfoldable pub build_sql : Option (UpdateBuilder D) → ℕ → Option (Bytes × List D × ℕ)
  unfolding build_entries join
  build_sql none start = some ([], [], start)
  build_sql (some ub) start = elim ub.sets [
    | [] ↦ some ([], [], start)
    | e ∷ es ↦ do
      (parts, all_args, next) ← build_entries (e ∷ es) start
      some (codes "SET " ++ join (codes ", ") parts, all_args, next)
  ]
