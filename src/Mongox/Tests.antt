-- ===== src/Mongox/Tests.antt =====
-- mongox/: a filter of two keys, and an upsert of a list in which a pointer stands twice.
use g_micor.Base.Int.{pos}
use g_micor.Base.{true, arith, ℕ, String, ◌≡◌, refl, none, some, List, [], ◌∷◌, All, map, lookup}
use g_micor.Mongox.Filter.{
  Filter, Operator, eq, lt, in_, Call, plain, new_filter, set, set_all, value_at, last_value,
  set_all-new_filter,
}
use g_micor.Mongox.ObjectId.{time_to_object_id, before, before-time_to_object_id}
use g_micor.Mongox.Document.{
  Moment, Documents, DrawsId, IsOwn, write, write_at, upsert_models, upsert_models-IsOwn,
}

abbrev between : List (Call ℕ)
between = (lt, "age", 65) ∷ (eq, "city", 1) ∷ (lt, "age", 60) ∷ []

last_one : last_value lt "age" between none ≡ some 60
unfolding last_value
last_one = refl

-- A value of the caller's own under the key ends in a panic.
own_value : set {V = ℕ} eq "age" 1 (("age", plain 30) ∷ []) ≡ none
unfolding set lookup
own_value = refl

set_all-new_filter_example :
    (f : Filter ℕ) × (set_all between (new_filter in_ "age" 18) ≡ some f)
    × ((opt : Operator) (key : String)
        → value_at opt key f ≡ last_value opt key ((in_, "age", 18) ∷ between) none)
set_all-new_filter_example = set_all-new_filter in_ "age" 18 between

abbrev moment : Moment
moment = record { new_id = 7; now = 100; tenant = some "t" }

abbrev empty_documents : Documents
empty_documents = λ p. record { id = 0; tenant_id = ""; update_time = 0 }

abbrev twice : List (ℕ × Moment)
twice = (3, moment) ∷ (3, record moment { new_id = 8 }) ∷ []

first_id_stays : ((upsert_models twice empty_documents).1 3).id ≡ 7
unfolding upsert_models write_at write
first_id_stays = refl

upsert_models-IsOwn_example :
    All (IsOwn (upsert_models twice empty_documents).1) (upsert_models twice empty_documents).0
    × (map (λ model. model.document) (upsert_models twice empty_documents).0 ≡ map (λ d. d.0) twice)
upsert_models-IsOwn_example = upsert_models-IsOwn twice empty_documents drawn
  where
    drawn : All DrawsId twice
    drawn = ((λ e. cc), ((λ e. cc), tt))

before-time_to_object_id_example :
    before (time_to_object_id (pos 255)) (time_to_object_id (pos 256)) ≡ true
before-time_to_object_id_example = before-time_to_object_id 255 256 (omega arith) (omega arith)
