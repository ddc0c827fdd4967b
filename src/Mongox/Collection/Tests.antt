-- ===== src/Mongox/Collection/Tests.antt =====
-- mongox/collection.go: users with indexes, and a second Coll of the name with another.
use g_micor.Base.{ℕ, String, Bool, true, refl, ◌≡◌, none, List, [], ◌∷◌, elem, Distinct}
use g_micor.Mongox.Document.{Moment}
use g_micor.Mongox.Collection.{MongoDriver, Coll, find, given, own}
use g_micor.Mongox.Collection.Calls.{
  Action, request, insert_doc, set_one, upsert_all, act_all, Remembers, first_has,
}
use g_micor.Mongox.Collection.Indexes.{indexes_once}

-- A database that keeps the names of its creations.
abbrev driver : MongoDriver ℕ ℕ ℕ ℕ (List String) Bool
driver = record {
  create_many = λ coll indexes s. (true, coll ∷ s);
  send = λ coll r docs s. (true, s);
}

driver-Remembers : Remembers driver (λ s. s)
driver-Remembers = record { made = λ coll indexes s. refl; sent = λ coll r docs s. refl }

abbrev users : Coll ℕ
users = record { coll_name = "users"; indexes = 1 ∷ [] }

abbrev users_by_age : Coll ℕ
users_by_age = record { coll_name = "users"; indexes = 2 ∷ [] }

abbrev logs : Coll ℕ
logs = record { coll_name = "logs"; indexes = [] }

abbrev at_noon : Moment
at_noon = record { new_id = 7; now = 12; tenant = none }

abbrev calls : List (Coll ℕ × Action ℕ ℕ ℕ)
calls =
    (users, insert_doc (own 3 at_noon))
    ∷ (logs, request (find (given 1)))
    ∷ (users_by_age, set_one 3 at_noon)
    ∷ (users, upsert_all ((4, at_noon) ∷ []))
    ∷ []

indexes_once_example :
    let w = act_all driver calls (record {
      db = [];
      documents = λ p. record { id = 0; tenant_id = ""; update_time = 0 };
      coll_map = record { resources = [] };
    }) in
    Distinct w.db × ((n : String) → elem n w.db ≡ first_has n calls)
indexes_once_example =
    indexes_once driver (λ s. s) calls [] (λ p. record { id = 0; tenant_id = ""; update_time = 0 })
      driver-Remembers refl
