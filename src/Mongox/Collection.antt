-- ===== src/Mongox/Collection.antt =====
-- mongox/collection.go: the operations of a collection, over the resource manager that keeps the driver's
-- collections. The driver names a collection as `Collection` does, by its name.
pub mod Calls
pub mod Indexes
mod Tests
use g_micor.Base.{
  ℕ, String, Bool, true, false, Option, none, some, List, [], ◌∷◌, lookup, map, is_some,
  if◌then◌else◌, not,
}
use g_micor.Syncx.ResourceManager.{ResourceManager, get_resource}
use g_micor.Mongox.Document.{Moment, Documents, UpdateOneModel, write_at, upsert_models}

pub data Where (F : Type 0) : Type 0 where
  given : F → Where F
  by_id : ℕ → Where F

-- A document to insert: one behind a pointer, which is a CollInterface, or any other value.
pub data Inserted (X : Type 0) : Type 0 where
  own : ℕ → Moment → Inserted X
  other : X → Inserted X

-- What is sent to the driver: filters and pipelines are of type `F`, updates and write models of the caller's
-- of type `U`. `set_one` is an update by `$set`, and `upserts` the bulk write of UpsertManyById.
pub data Request (F U X : Type 0) : Type 0 where
  find_one find : Where F → Request F U X
  aggregate : List F → Request F U X
  insert_pointer : ℕ → Request F U X
  insert_value : X → Request F U X
  insert_all : List ℕ → Request F U X
  update_one : F → U → Request F U X
  set_one : (id document : ℕ) → Request F U X
  bulk_write : List U → Request F U X
  upserts : List UpdateOneModel → Request F U X

-- The driver, over its state `S`. An answer, of type `A`, is a result or an error, of the request or of decoding
-- what came back. It reads documents where pointers lead.
-- `create_many` makes indexes of a collection; whether that went well is only logged.
pub record MongoDriver (F U X I S A : Type 0) : Type 0 where
  pub create_many : String → List I → S → Bool × S
  pub send : String → Request F U X → Documents → S → A × S

-- `Coll`
pub record Coll (I : Type 0) : Type 0 where
  pub coll_name : String
  pub indexes : List I

pub record World (S : Type 0) : Type 0 where
  pub db : S
  pub documents : Documents
  pub coll_map : ResourceManager String

abbrev pub has_indexes : {I : Type 0} → List I → Bool
has_indexes [] = false
has_indexes (index ∷ rest) = true

module _ {F U X I S A : Type 0} (dr : MongoDriver F U X I S A) (c : Coll I) where
  -- The function that `getColl` gives the manager.
  unfoldable pub create : World S → Option String × World S
  create w =
      if has_indexes c.indexes
      then (some c.coll_name, record w { db = (dr.create_many c.coll_name c.indexes w.db).1 })
      else (some c.coll_name, w)

  -- What the manager does with a collection, if it is given one.
  unfoldable pub manage : Option String → World S → Option String × World S
  unfolding get_resource
  manage created w =
      let (resource, manager) = get_resource c.coll_name created w.coll_map in
      (resource, record w { coll_map = manager })

  -- `create` is called if the manager has no collection of the name.
  unfoldable pub get_coll : World S → Option String × World S
  unfolding manage create
  get_coll w =
      let (created, w') =
        if is_some (lookup c.coll_name w.coll_map.resources) then (none, w) else create w in
      manage created w'

  -- A request to the collection that `getColl` returned; one to a nil collection is a panic.
  abbrev pub ask : Option String → Request F U X → World S → Option A × World S
  ask none request w = (none, w)
  ask (some coll) request w =
      let (answer, db') = dr.send coll request w.documents w.db in
      (some answer, record w { db = db' })

  unfoldable pub requested : Request F U X → World S → Option A × World S
  unfolding get_coll
  requested request w = let (coll, w') = get_coll w in ask coll request w'

  abbrev pub writing : (Documents → Documents) → World S → World S
  writing f w = record w { documents = f w.documents }

  unfoldable pub insert_one : Inserted X → World S → Option A × World S
  unfolding get_coll write_at
  insert_one (other x) w = let (coll, w') = get_coll w in ask coll (insert_value x) w'
  insert_one (own p m) w =
      let (coll, w') = get_coll w in ask coll (insert_pointer p) (writing (write_at p m) w')

  -- The loop over the documents.
  unfoldable pub write_all : List (ℕ × Moment) → Documents → Documents
  unfolding write_at
  write_all [] docs = docs
  write_all ((p, m) ∷ documents) docs = write_all documents (write_at p m docs)

  unfoldable pub insert_many : List (ℕ × Moment) → World S → Option A × World S
  unfolding get_coll write_all
  insert_many documents w =
      let (coll, w') = get_coll w in
      ask coll (insert_all (map (λ d. d.0) documents)) (writing (write_all documents) w')

  unfoldable pub set_by_id : ℕ → Moment → World S → Option A × World S
  unfolding requested write_at
  set_by_id p m w =
      let w' = writing (write_at p m) w in requested (set_one (w'.documents p).id p) w'

  unfoldable pub upsert_many_by_id : List (ℕ × Moment) → World S → Option A × World S
  unfolding requested upsert_models
  upsert_many_by_id documents w =
      let (models, docs) = upsert_models documents w.documents in
      requested (upserts models) (record w { documents = docs })
