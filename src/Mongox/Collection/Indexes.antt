-- ===== src/Mongox/Collection/Indexes.antt =====
-- mongox/collection.go, `getColl`: the indexes that operations on collections make.
use g_micor.Base.{
  String, Bool, true, false, Bool-cases, inl, inr, ◌||◌, ◌≡◌, refl, ap, ◌∙◌, List, [], ◌∷◌, lookup,
  elem, Distinct, str_eq, eq_iff, arith, if◌then◌else◌,
}
use g_micor.Mongox.Document.{Documents}
use g_micor.Mongox.Collection.{MongoDriver, Coll, World, has_indexes}
use g_micor.Mongox.Collection.Calls.{
  Action, act, act_all, Remembers, first_has, known, Names, act-Names,
}

module _ {F U X I S A : Type 0} (dr : MongoDriver F U X I S A) (created : S → List String) where
  -- Every name whose indexes were made is one that the manager has, and none was made twice.
  record IsOnce (w : World S) : Type 0 where
    once : Distinct (created w.db)
    all_known : (n : String) → elem n (created w.db) ≡ true → known n w ≡ true

  unmade : (w : World S) (n : String) → IsOnce w → known n w ≡ false → elem n (created w.db) ≡ false
  unmade w n o k = elim (Bool-cases (elem n (created w.db))) [
    | inl e ↦ absurd (let there = o.all_known n e in cc)
    | inr e ↦ e
  ]

  Names-IsOnce : (c : Coll I) (w w' : World S) → Names dr created c w w' → IsOnce w → IsOnce w'
  unfolding elem
  Names-IsOnce c w w' n o = elim (Bool-cases (known c.coll_name w)) [
    | inl k ↦
        let same : created w'.db ≡ created w.db = n.names_created ∙ rw k refl in
        record {
          once = rw same o.once;
          all_known = λ m e. rw (n.names_known m, o.all_known m (rw same at e)) (ground arith);
        }
    | inr k ↦ elim (Bool-cases (has_indexes c.indexes)) [
      | inr none_here ↦
          let same : created w'.db ≡ created w.db = n.names_created ∙ rw (k, none_here) refl in
          record {
            once = rw same o.once;
            all_known = λ m e. rw (n.names_known m, o.all_known m (rw same at e)) (ground arith);
          }
      | inl some_here ↦
          let more : created w'.db ≡ c.coll_name ∷ created w.db =
            n.names_created ∙ rw (k, some_here) refl in
          record {
            once = rw more (unmade w c.coll_name o k, o.once);
            all_known = λ m e. rw (n.names_known m) (ground (arith, o.all_known m, rw more at e));
          }
    ]
  ]

  elem-created :
      (c : Coll I) (w w' : World S) (n : String)
      → Names dr created c w w'
      → elem n (created w'.db) ≡ (
          if known c.coll_name w
          then elem n (created w.db)
          else if has_indexes c.indexes
          then str_eq c.coll_name n || elem n (created w.db)
          else elem n (created w.db))
  unfolding elem
  elem-created c w w' n names =
      ap (elem n) names.names_created ∙ elim (Bool-cases (known c.coll_name w)) [
        | inl k ↦ rw k refl
        | inr k ↦
            rw k
              (elim (Bool-cases (has_indexes c.indexes)) [ inl b ↦ rw b refl | inr b ↦ rw b refl ])
      ]

  unmade_false :
      (w : World S) (n : String)
      → IsOnce w
      → elem n (created w.db) ≡ (if known n w then elem n (created w.db) else false)
  unmade_false w n o = elim (Bool-cases (known n w)) [
    | inl k ↦ rw k refl
    | inr k ↦ rw k (unmade w n o k)
  ]

  -- What a call adds, by whether it is the first one of a collection of its name.
  elem-Names :
      (c : Coll I) (w w' : World S) (n : String) (later : Bool)
      → Names dr created c w w'
      → IsOnce w
      → (if known n w' then elem n (created w'.db) else later) ≡ (
          if known n w
          then elem n (created w.db)
          else if str_eq c.coll_name n
          then has_indexes c.indexes
          else later)
  unfolding elem
  elem-Names c w w' n later names o =
      let there = elem-created c w w' n names in
      let same_name : str_eq c.coll_name n ≡ true → known c.coll_name w ≡ known n w =
        λ e. ap (λ m. known m w) ((eq_iff c.coll_name n).0 e) in
      rw (names.names_known n, there)
        (elim (Bool-cases (known n w)) [
          | inl k ↦ rw k (elim (Bool-cases (str_eq c.coll_name n)) [
            | inl e ↦ rw (e, same_name e, k) refl
            | inr e ↦ rw e (elim (Bool-cases (known c.coll_name w)) [
              | inl k' ↦ rw k' refl
              | inr k' ↦ rw k' (ground arith)
            ])
          ])
          | inr k ↦ rw k (elim (Bool-cases (str_eq c.coll_name n)) [
            | inl e ↦ rw (e, same_name e, k, unmade w n o k) (ground arith)
            | inr e ↦ rw e refl
          ])
        ])

  -- Calls one after another make the indexes of a name by the first of them.
  act_all-IsOnce :
      (calls : List (Coll I × Action F U X)) (w : World S)
      → Remembers dr created
      → IsOnce w
      → IsOnce (act_all dr calls w)
        × ((n : String)
            → elem n (created (act_all dr calls w).db)
              ≡ (if known n w then elem n (created w.db) else first_has n calls))
  unfolding act_all
  act_all-IsOnce [] w h o = (o, λ n. unmade_false w n o)
  act_all-IsOnce ((c, a) ∷ calls) w h o =
      let names = act-Names dr created c a w h in
      let (o', there) = act_all-IsOnce calls (act dr c a w).1 h (Names-IsOnce c w _ names o) in
      (o', λ n. there n ∙ elem-Names c w (act dr c a w).1 n (first_has n calls) names o)

-- Whatever operations on collections run one after another, the indexes of a collection's name are made at most
-- once, and they are made exactly if the first operation on a collection of that name is on one that has
-- indexes: those of another Coll of the name are never made. At the beginning none were made and the manager has no
-- collection; the database remembers every creation.
pub indexes_once :
    {F U X I S A : Type 0} (dr : MongoDriver F U X I S A) (created : S → List String)
    (calls : List (Coll I × Action F U X)) (s : S) (docs : Documents)
    → Remembers dr created
    → created s ≡ []
    → let w =
        act_all dr calls
          (record { db = s; documents = docs; coll_map = record { resources = [] } }) in
      Distinct (created w.db) × ((n : String) → elem n (created w.db) ≡ first_has n calls)
unfolding lookup elem
indexes_once dr created calls s docs h none_yet =
    let start : World _ = record {
      db = s;
      documents = docs;
      coll_map = record { resources = [] };
    } in
    let (o, there) = act_all-IsOnce dr created calls start h (record {
      once = rw none_yet tt;
      all_known = λ n e. absurd (let e' = (rw none_yet at e) in cc);
    }) in
    (o.once, there)
