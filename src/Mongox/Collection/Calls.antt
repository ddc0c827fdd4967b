-- ===== src/Mongox/Collection/Calls.antt =====
-- mongox/collection.go, the calls of a program, and the collections that each makes.
use g_micor.Base.{
  ℕ, String, Bool, false, Bool-cases, inl, inr, ◌||◌, ◌≡◌, refl, ap, ◌∙◌, subst, Option, none, some,
  List, [], ◌∷◌, lookup, lookup-insert, insert, is_some, str_eq, eq_iff, if◌then◌else◌,
  Option-cases,
}
use g_micor.Syncx.ResourceManager.{stored, created as newly_created}
use g_micor.Mongox.Document.{Moment, Documents}
use g_micor.Mongox.Collection.{
  Inserted, own, other, Request, MongoDriver, Coll, World, manage, has_indexes, create, get_coll,
  ask, requested, insert_one, insert_many, set_by_id, upsert_many_by_id,
}

-- A call of one of the operations; `request` are those that hand their arguments to the driver.
pub data Action (F U X : Type 0) : Type 0 where
  request : Request F U X → Action F U X
  insert_doc : Inserted X → Action F U X
  insert_all : List (ℕ × Moment) → Action F U X
  set_one : ℕ → Moment → Action F U X
  upsert_all : List (ℕ × Moment) → Action F U X

module _ {F U X I S A : Type 0} (dr : MongoDriver F U X I S A) where
  unfoldable pub act : Coll I → Action F U X → World S → Option A × World S
  act c (request r) w = requested dr c r w
  act c (insert_doc x) w = insert_one dr c x w
  act c (insert_all documents) w = insert_many dr c documents w
  act c (set_one p m) w = set_by_id dr c p m w
  act c (upsert_all documents) w = upsert_many_by_id dr c documents w

  unfoldable pub act_all : List (Coll I × Action F U X) → World S → World S
  unfolding act
  act_all [] w = w
  act_all ((c, a) ∷ calls) w = act_all calls (act c a w).1

  -- What the database remembers of index creations: `create_many` of a collection adds its name, and
  -- requests add none.
  pub record Remembers (created : S → List String) : Type 0 where
    pub made :
        (coll : String) (indexes : List I) (s : S)
        → created (dr.create_many coll indexes s).1 ≡ coll ∷ created s
    pub sent :
        (coll : String) (r : Request F U X) (docs : Documents) (s : S)
        → created (dr.send coll r docs s).1 ≡ created s

-- Whether the first call of a collection of that name has indexes.
abbrev pub first_has : {I B : Type 0} → String → List (Coll I × B) → Bool
first_has n [] = false
first_has n ((c, a) ∷ calls) =
    let later = first_has n calls in if str_eq c.coll_name n then has_indexes c.indexes else later

abbrev pub known : {S : Type 0} → String → World S → Bool
known n w = is_some (lookup n w.coll_map.resources)

module _ {F U X I S A : Type 0} (dr : MongoDriver F U X I S A) (created : S → List String) where
  -- What becomes of the names by an operation on a collection.
  pub record Names (c : Coll I) (w w' : World S) : Type 0 where
    pub names_created : created w'.db ≡ (
        if known c.coll_name w
        then created w.db
        else if has_indexes c.indexes
        then c.coll_name ∷ created w.db
        else created w.db)
    pub names_known : (n : String) → known n w' ≡ (str_eq c.coll_name n || known n w)

  -- The manager's part, for a collection that it has, and for one that it is given.
  got_old :
      (c : Coll I) (w : World S) (old : String)
      → lookup c.coll_name w.coll_map.resources ≡ some old
      → get_coll dr c w ≡ (some old, w)
  unfolding get_coll create manage
  got_old c w old e =
      ap (λ b. let r = (if b then (none, w) else create dr c w) in manage dr c r.0 r.1)
        (ap is_some e)
      ∙ ap (λ r. (r.0, record w { coll_map = r.1 })) (stored c.coll_name none w.coll_map old e)

  got_new :
      (c : Coll I) (w : World S)
      → lookup c.coll_name w.coll_map.resources ≡ none
      → get_coll dr c w ≡ (
        some c.coll_name,
        record w {
          db =
              if has_indexes c.indexes then (dr.create_many c.coll_name c.indexes w.db).1 else w.db;
          coll_map = record { resources = insert c.coll_name c.coll_name w.coll_map.resources };
        },
      )
  unfolding get_coll create manage
  got_new c w e =
      ap (λ b. let r = (if b then (none, w) else create dr c w) in manage dr c r.0 r.1)
        (ap is_some e)
      ∙ elim (Bool-cases (has_indexes c.indexes)) [
        | inl b ↦ rw b (
            ap
              (λ r. (
                r.0,
                record w { db = (dr.create_many c.coll_name c.indexes w.db).1; coll_map = r.1 },
              ))
              (newly_created c.coll_name (some c.coll_name) w.coll_map e))
        | inr b ↦ rw b (
            ap (λ r. (r.0, record w { coll_map = r.1 }))
              (newly_created c.coll_name (some c.coll_name) w.coll_map e))
      ]

  known_already :
      (c : Coll I) (w : World S) (old n : String)
      → lookup c.coll_name w.coll_map.resources ≡ some old
      → known n w ≡ (str_eq c.coll_name n || known n w)
  known_already c w old n e = elim (Bool-cases (str_eq c.coll_name n)) [
    | inr b ↦ rw b refl
    | inl b ↦ rw b (
        ap is_some
          (subst (λ m. lookup m w.coll_map.resources ≡ some old) ((eq_iff c.coll_name n).0 b) e))
  ]

  get_coll-Names : (c : Coll I) (w : World S) → Remembers dr created → Names c w (get_coll dr c w).1
  get_coll-Names c w h = elim (Option-cases (lookup c.coll_name w.coll_map.resources)) [
    | inr (old, e) ↦
        rw (got_old c w old e)
          (record { names_created = rw e refl; names_known = λ n. known_already c w old n e })
    | inl e ↦ rw (got_new c w e) (record {
      names_created = rw e (elim (Bool-cases (has_indexes c.indexes)) [
        | inl b ↦ rw b (h.made c.coll_name c.indexes w.db)
        | inr b ↦ rw b refl
      ]);
      names_known = λ n.
          rw (lookup-insert c.coll_name n c.coll_name w.coll_map.resources)
            (elim (Bool-cases (str_eq c.coll_name n)) [ inl b ↦ rw b refl | inr b ↦ rw b refl ]);
    })
  ]

  ask-Names :
      (c : Coll I) (w w' : World S) (coll : Option String) (r : Request F U X)
      → Remembers dr created
      → Names c w w'
      → Names c w (ask dr c coll r w').1
  ask-Names c w w' none r h n = n
  ask-Names c w w' (some coll) r h n = record {
    names_created = h.sent coll r w'.documents w'.db ∙ n.names_created;
    names_known = n.names_known;
  }

  -- Writing into documents before or after it changes no names.
  written_after :
      (c : Coll I) (w w' : World S) (docs : Documents)
      → Names c w w'
      → Names c w (record w' { documents = docs })
  written_after c w w' docs n = record {
    names_created = n.names_created;
    names_known = n.names_known;
  }

  written_before :
      (c : Coll I) (w w' : World S) (docs : Documents)
      → Names c (record w { documents = docs }) w'
      → Names c w w'
  written_before c w w' docs n = record {
    names_created = n.names_created;
    names_known = n.names_known;
  }

  requested-Names :
      (c : Coll I) (r : Request F U X) (w : World S)
      → Remembers dr created
      → Names c w (requested dr c r w).1
  unfolding requested
  requested-Names c r w h =
      ask-Names c w (get_coll dr c w).1 (get_coll dr c w).0 r h (get_coll-Names c w h)

  -- Every operation on a collection.
  pub act-Names :
      (c : Coll I) (a : Action F U X) (w : World S)
      → Remembers dr created
      → Names c w (act dr c a w).1
  unfolding act insert_one insert_many set_by_id upsert_many_by_id
  act-Names c (request r) w h = requested-Names c r w h
  act-Names c (insert_doc (other x)) w h =
      ask-Names c w (get_coll dr c w).1 (get_coll dr c w).0 _ h (get_coll-Names c w h)
  act-Names c (insert_doc (own p m)) w h =
      ask-Names c w _ (get_coll dr c w).0 _ h
        (written_after c w (get_coll dr c w).1 _ (get_coll-Names c w h))
  act-Names c (insert_all documents) w h =
      ask-Names c w _ (get_coll dr c w).0 _ h
        (written_after c w (get_coll dr c w).1 _ (get_coll-Names c w h))
  act-Names c (set_one p m) w h = written_before c w _ _ (requested-Names c _ _ h)
  act-Names c (upsert_all documents) w h = written_before c w _ _ (requested-Names c _ _ h)
