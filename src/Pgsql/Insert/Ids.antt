-- ===== src/Pgsql/Insert/Ids.antt =====
-- pgsql/table_operation.go, `insertManyBatch`: which entity gets which id.
use g_micor.Base.{
  ℕ, zero, suc, ◌≡◌, ◌≢◌, refl, sym, Bool, true, ◌∙◌, Option, some, List, [], ◌∷◌, All, length,
  arith, get_elem?, modify, map, some_inj, subst, ◌≤◌, get_elem?-modify_self, get_elem?-modify_ne,
  All-get_elem?,
}
use g_micor.Base.Int.{ℤ}
use g_micor.Pgsql.Types.{GoValue, DbValue}
use g_micor.Pgsql.Result.{ok}
use g_micor.Pgsql.Driver.{Driver, World, ◌>>=◌, bind_runs, get_pool_runs, calling_runs}
use g_micor.Pgsql.Table.{Table, set_pk, insert_columns}
use g_micor.Pgsql.Insert.{insert_sql, collect_args, assign_ids, insert_many_batch}

-- Pointers that are not the same.
abbrev pub DistinctPointers : List ℕ → Type 0
DistinctPointers [] = Unit
DistinctPointers (p ∷ ps) = All (λ q. p ≢ q) ps × DistinctPointers ps

module _ {J F O : Type 0} where
  -- The entities after the ids were given out, one after another.
  abbrev given : Table → List ℤ → List ℕ → List (List (GoValue J F O)) → List (List (GoValue J F O))
  given t [] ps es = es
  given t (id ∷ ids) [] es = es
  given t (id ∷ ids) (p ∷ ps) es = given t ids ps (modify p (set_pk t id) es)

  given-absent :
      (t : Table) (ids : List ℤ) (ps : List ℕ) (es : List (List (GoValue J F O))) (q : ℕ)
      → All (λ p. q ≢ p) ps
      → get_elem? (given t ids ps es) q ≡ get_elem? es q
  given-absent t [] ps es q h = refl
  given-absent t (id ∷ ids) [] es q h = refl
  given-absent t (id ∷ ids) (p ∷ ps) es q h =
      given-absent t ids ps (modify p (set_pk t id) es) q h.1
      ∙ get_elem?-modify_ne p q (set_pk t id) es (λ e. h.0 (sym e))

  given-get_elem? :
      (t : Table) (ids : List ℤ) (ps : List ℕ) (es : List (List (GoValue J F O))) (i p : ℕ) (id : ℤ)
      (e : List (GoValue J F O))
      → DistinctPointers ps
      → get_elem? ps i ≡ some p
      → get_elem? ids i ≡ some id
      → get_elem? es p ≡ some e
      → get_elem? (given t ids ps es) p ≡ some (set_pk t id e)
  given-get_elem? t [] ps es i p id e d hp hi he = cc
  given-get_elem? t (n ∷ ids) [] es i p id e d hp hi he = cc
  given-get_elem? t (n ∷ ids) (q ∷ ps) es zero p id e d hp hi he =
      let same_pointer = some_inj hp in
      let same_id = some_inj hi in
      given-absent t ids ps (modify q (set_pk t n) es) p
        (subst (λ x. All (λ y. x ≢ y) ps) same_pointer d.0)
      ∙ rw (same_pointer, same_id) (get_elem?-modify_self p (set_pk t id) es e he)
  given-get_elem? t (n ∷ ids) (q ∷ ps) es (suc i) p id e d hp hi he =
      given-get_elem? t ids ps (modify q (set_pk t n) es) i p id e d.1 hp hi
        (get_elem?-modify_ne q p (set_pk t n) es (All-get_elem? (λ y. q ≢ y) ps i p d.0 hp) ∙ he)

  -- Row by row the returned ids are written, and nothing else.
  assign_ids-given :
      {S R : Type 0} (scan_int : R → Option ℤ) (t : Table) (rows : List R) (ids : List ℤ)
      (ps : List ℕ) (w : World J F O S)
      → map scan_int rows ≡ map (λ n. some n) ids
      → length ids ≤ length ps
      → assign_ids scan_int t rows ps w ≡ (ok tt, record w { entities = given t ids ps w.entities })
  unfolding assign_ids ◌>>=◌
  assign_ids-given scan_int t [] [] ps w h l = refl
  assign_ids-given scan_int t [] (n ∷ ids) ps w h l = absurd cc
  assign_ids-given scan_int t (row ∷ rows) [] ps w h l = absurd cc
  assign_ids-given scan_int t (row ∷ rows) (n ∷ ids) [] w h l = absurd (omega arith)
  assign_ids-given scan_int t (row ∷ rows) (n ∷ ids) (p ∷ ps) w h l =
      let got : scan_int row ≡ some n = cc in
      let more : map scan_int rows ≡ map (λ n'. some n') ids = cc in
      rw got (
        assign_ids-given scan_int t rows ids ps
          (record w { entities = modify p (set_pk t n) w.entities }) more (omega arith))

  -- If each of the returned rows has an id, and there are not more of them than entities, then the
  -- first entity gets the first id, and so on; whoever is no entity of the batch is left alone, and
  -- so is the database.
  pub get_elem?-assign_ids :
      {S R : Type 0} (scan_int : R → Option ℤ) (t : Table) (rows : List R) (ids : List ℤ)
      (ps : List ℕ) (w : World J F O S)
      → map scan_int rows ≡ map (λ n. some n) ids
      → length ids ≤ length ps
      → DistinctPointers ps
      → (w' : World J F O S) × (assign_ids scan_int t rows ps w ≡ (ok tt, w'))
        × (w'.db ≡ w.db)
        × ((i p : ℕ) (id : ℤ) (e : List (GoValue J F O))
            → get_elem? ps i ≡ some p
            → get_elem? ids i ≡ some id
            → get_elem? w.entities p ≡ some e
            → get_elem? w'.entities p ≡ some (set_pk t id e))
        × ((q : ℕ) → All (λ p. q ≢ p) ps → get_elem? w'.entities q ≡ get_elem? w.entities q)
  get_elem?-assign_ids scan_int t rows ids ps w h l d = (
    record w { entities = given t ids ps w.entities },
    assign_ids-given scan_int t rows ids ps w h l,
    refl,
    (λ i p id e. given-get_elem? t ids ps w.entities i p id e d),
    given-absent t ids ps w.entities,
  )

module _ {J F O S R : Type 0} (dr : Driver J F O S R) where
  -- A batch of distinct pointers whose statement is answered with an id in each row, and not with
  -- more rows than it has entities, ends well: the first entity has the first id, and so on, no other
  -- entity has changed, and the database is as the statement left it.
  pub insert_many_batch-ids :
      (t : Table) (ps : List ℕ) (include_pk : Bool) (w : World J F O S)
      (args : List (DbValue J F O)) (rows : List R) (ids : List ℤ) (db' : S)
      → let fields = insert_columns t include_pk in
        dr.has_pool w.db ≡ true
        → collect_args dr.codec fields ps w ≡ (ok args, w)
        → dr.query (insert_sql t.name fields (length ps)) args w.db ≡ (some (rows, true), db')
        → map dr.scan_int rows ≡ map (λ n. some n) ids
        → length ids ≤ length ps
        → DistinctPointers ps
        → (w' : World J F O S) × (insert_many_batch dr t ps include_pk w ≡ (ok tt, w'))
          × (w'.db ≡ db')
          × ((i p : ℕ) (id : ℤ) (e : List (GoValue J F O))
              → get_elem? ps i ≡ some p
              → get_elem? ids i ≡ some id
              → get_elem? w.entities p ≡ some e
              → get_elem? w'.entities p ≡ some (set_pk t id e))
          × ((q : ℕ) → All (λ p. q ≢ p) ps → get_elem? w'.entities q ≡ get_elem? w.entities q)
  unfolding insert_many_batch
  insert_many_batch-ids t ps include_pk w args rows ids db' pool collected answered h l d =
      let (w', assigned, same_db, taken, others) =
        get_elem?-assign_ids dr.scan_int t rows ids ps (record w { db = db' }) h l d in
      (
        w',
        bind_runs _ _ w w tt (get_pool_runs dr w pool)
            ∙ bind_runs _ _ w w args collected
            ∙ bind_runs _ _ w (record w { db = db' }) (rows, true)
                (calling_runs _ w (rows, true) db' answered)
            ∙ bind_runs _ _ (record w { db = db' }) w' tt assigned,
        same_db,
        taken,
        others,
      )
