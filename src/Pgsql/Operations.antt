-- ===== src/Pgsql/Operations.antt =====
-- pgsql/table_operation.go: a program's calls of a table's operations, one after another.
pub mod Numbered
use g_micor.Base.{ℕ, Option, List, [], ◌∷◌}
use g_micor.Base.Int.{ℤ}
use g_micor.Pgsql.Where.{WhereBuilder}
use g_micor.Pgsql.Update.{UpdateBuilder}
use g_micor.Pgsql.Types.{GoType, GoValue, DbValue}
use g_micor.Pgsql.Result.{Result, ok}
use g_micor.Pgsql.Driver.{Driver, World, Db, ◌>>=◌, lift}
use g_micor.Pgsql.Table.{Table}
use g_micor.Pgsql.Insert.{id, insert_one, insert_many}
use g_micor.Pgsql.Find.{find_by_id, find_one, find, count}
use g_micor.Pgsql.Page.{Page, find_page}
use g_micor.Pgsql.Change.{update_by_id, update}

-- The exported methods of a table with their arguments; entities are given by pointers.
pub data Operation (D : Type 0) : Type 0 where
  id_op : Operation D
  insert_one_op : ℕ → Operation D
  insert_many_op : List ℕ → Operation D
  find_by_id_op : ℤ → Operation D
  find_one_op find_op : Option (WhereBuilder D) → Operation D
  count_op : Option (WhereBuilder D) → Operation D
  find_page_op : Option (WhereBuilder D) → ℤ → ℤ → Operation D
  update_by_id_op : ℕ → Operation D
  update_op : Option (UpdateBuilder D) → Option (WhereBuilder D) → Operation D

-- What they return beside an error.
pub data Answer (E : Type 0) : Type 0 where
  done : Answer E
  an_id a_count : ℤ → Answer E
  affected : ℕ → Answer E
  entity : E → Answer E
  entities : List E → Answer E
  page : Page E → Answer E

abbrev pub as_answer : {J F O S A B : Type 0} → (A → B) → Db J F O S A → Db J F O S B
as_answer f m = m >>= λ a. lift (ok (f a))

module _ {J F O S R : Type 0} (dr : Driver J F O S R) (t : Table) (struct_types : List GoType) where
  unfoldable pub run : Operation (DbValue J F O) → Db J F O S (Answer (List (GoValue J F O)))
  run id_op = as_answer an_id (id dr t)
  run (insert_one_op p) = as_answer (λ _. done) (insert_one dr t p)
  run (insert_many_op ps) = as_answer (λ _. done) (insert_many dr t ps)
  run (find_by_id_op n) = as_answer entity (find_by_id dr t struct_types n)
  run (find_one_op wb) = as_answer entity (find_one dr t struct_types wb)
  run (find_op wb) = as_answer entities (find dr t struct_types wb)
  run (count_op wb) = as_answer a_count (count dr t struct_types wb)
  run (find_page_op wb n size) = as_answer page (find_page dr t struct_types wb n size)
  run (update_by_id_op p) = as_answer (λ _. done) (update_by_id dr t p)
  run (update_op ub wb) = as_answer affected (update dr t ub wb)

  -- Calls one after another, whatever became of those before.
  unfoldable pub run_all :
      List (Operation (DbValue J F O))
      → World J F O S
      → List (Result (Answer (List (GoValue J F O)))) × World J F O S
  unfolding run
  run_all [] w = ([], w)
  run_all (op ∷ ops) w =
      let (answer, w') = run op w in let (answers, w'') = run_all ops w' in (answer ∷ answers, w'')
