-- ===== src/Pgsql/Driver.antt =====
-- pgsql: what the table operations ask of the pool and of the driver (pgx), and the operations as
-- functions of a state: that of the database and the entities that the caller's pointers point to.
use g_micor.Base.{
  true, ◌≡◌, refl, ap, ℕ, Bool, Option, none, some, List, get_elem?, modify, if◌then◌else◌,
}
use g_micor.Base.Int.{ℤ}
use g_micor.Base.Bytes.{Bytes}
use g_micor.Pgsql.Types.{GoType, GoValue, DbValue, Codec, ScanKind}
use g_micor.Pgsql.Scan.{Target}
use g_micor.Pgsql.Result.{DbError, no_pool, query_failed, panicked, Result, ok, err}

-- A row, of type `R`, is read with `scan`, which is `Scan` into its targets; `unmarshal` is `json.Unmarshal`
-- into a new value of a type. `none` is an error.
pub record Decoder (J F O R : Type 0) : Type 0 where
  pub scan : List (ScanKind × GoType) → R → Option (List (Target J F O))
  pub zero_value : GoType → GoValue J F O
  pub unmarshal : GoType → Bytes → Option (GoValue J F O)

-- `S` is the state of the database. `query` answers with the rows and whether they ended without an
-- error; `scan_int` is `Scan` into one int64.
pub record Driver (J F O S R : Type 0) : Type 0 where
  pub codec : Codec J F O
  pub has_pool : S → Bool
  pub query_row : Bytes → List (DbValue J F O) → S → Option R × S
  pub query : Bytes → List (DbValue J F O) → S → Option (List R × Bool) × S
  pub exec : Bytes → List (DbValue J F O) → S → Option ℕ × S
  pub decoder : Decoder J F O R
  pub scan_int : R → Option ℤ

pub record World (J F O S : Type 0) : Type 0 where
  pub db : S
  pub entities : List (List (GoValue J F O))

-- An operation.
abbrev pub Db : (J F O S A : Type 0) → Type 0
Db J F O S A = World J F O S → Result A × World J F O S

module _ {J F O S : Type 0} where
  infixl 5 ◌>>=◌
  unfoldable pub ◌>>=◌ : {A B : Type 0} → Db J F O S A → (A → Db J F O S B) → Db J F O S B
  m >>= f = λ w. let (r, w') = m w in elim r [ ok a ↦ f a w' | err e ↦ (err e, w') ]

  bind_ok_at :
      {A B : Type 0} (r : Result A × World J F O S) (f : A → Db J F O S B) (b : B)
      (w w'' : World J F O S)
      → ((λ _. r) >>= f) w ≡ (ok b, w'')
      → (a : A) × (w' : World J F O S) × (r ≡ (ok a, w')) × (f a w' ≡ (ok b, w''))
  unfolding ◌>>=◌
  bind_ok_at (ok a, w') f b w w'' h = (a, w', refl, h)
  bind_ok_at (err e, w') f b w w'' h = absurd cc

  -- What a chain of operations that ends well went through.
  pub bind_ok :
      {A B : Type 0} (m : Db J F O S A) (f : A → Db J F O S B) (b : B) (w w'' : World J F O S)
      → (m >>= f) w ≡ (ok b, w'')
      → (a : A) × (w' : World J F O S) × (m w ≡ (ok a, w')) × (f a w' ≡ (ok b, w''))
  unfolding ◌>>=◌
  bind_ok m f b w w'' h = bind_ok_at (m w) f b w w'' h

  abbrev pub lift : {A : Type 0} → Result A → Db J F O S A
  lift r = λ w. (r, w)

  abbrev pub fail : {A : Type 0} → DbError → Db J F O S A
  fail e = λ w. (err e, w)

  abbrev pub get_option : {A : Type 0} → DbError → Option A → Db J F O S A
  get_option e none = fail e
  get_option e (some a) = lift (ok a)

  -- What a pointer points to; a nil pointer is one that points nowhere.
  abbrev pub load : ℕ → Db J F O S (List (GoValue J F O))
  load p = λ w. elim (get_elem? w.entities p) [ none ↦ (err panicked, w) | some e ↦ (ok e, w) ]

  abbrev pub store_with : ℕ → (List (GoValue J F O) → List (GoValue J F O)) → Db J F O S Unit
  store_with p f = λ w. (ok tt, record w { entities = modify p f w.entities })

  -- A call that may change the database.
  unfoldable pub calling : {A : Type 0} → (S → Option A × S) → Db J F O S A
  calling call = λ w.
      let (answer, db') = call w.db in
      elim answer [
        | none ↦ (err query_failed, record w { db = db' })
        | some a ↦ (ok a, record w { db = db' })
      ]

  -- `PoolManager.Get`
  unfoldable pub get_pool : {R : Type 0} → Driver J F O S R → Db J F O S Unit
  get_pool dr = λ w. if dr.has_pool w.db then (ok tt, w) else (err no_pool, w)

  pub done_inj :
      {A : Type 0} {a b : A} {w w' : World J F O S}
      → lift (ok a) w ≡ (ok b, w')
      → (a ≡ b) × (w ≡ w')
  done_inj h = (cc, cc)

  pub lift_ok :
      {A : Type 0} (r : Result A) (a : A) (w w' : World J F O S)
      → lift r w ≡ (ok a, w')
      → (r ≡ ok a) × (w ≡ w')
  lift_ok r a w w' h = (ap (λ p. p.0) h, ap (λ p. p.1) h)

  -- Operations that end well, run one after another.
  pub bind_runs :
      {A B : Type 0} (m : Db J F O S A) (f : A → Db J F O S B) (w w' : World J F O S) (a : A)
      → m w ≡ (ok a, w')
      → (m >>= f) w ≡ f a w'
  unfolding ◌>>=◌
  bind_runs m f w w' a h = ap (λ r. ((λ _. r) >>= f) w) h

  pub get_pool_runs :
      {R : Type 0} (dr : Driver J F O S R) (w : World J F O S)
      → dr.has_pool w.db ≡ true
      → get_pool dr w ≡ (ok tt, w)
  unfolding get_pool
  get_pool_runs dr w h = ap (λ b. if b then (ok tt, w) else (err no_pool, w)) h

  pub calling_runs :
      {A : Type 0} (call : S → Option A × S) (w : World J F O S) (a : A) (db' : S)
      → call w.db ≡ (some a, db')
      → calling call w ≡ (ok a, record w { db = db' })
  unfolding calling
  calling_runs call w a db' h = ap (λ r. calling (λ s. r) w) h
