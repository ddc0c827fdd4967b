-- ===== src/Redisx/Flight/Exclusion.antt =====
-- redisx/singleFlight.go: one goroutine of all nodes at a time holds the lock of a key.
use g_micor.Base.{
  ℕ, ◌≡◌, ◌≢◌, ap, sym, ◌∙◌, subst, ◌⊎◌, inl, inr, String, Option, none, some, some_inj, List,
  modify, get_elem?, get_elem?-set_cases, none-ne-some, Dict, lookup, insert, delete,
  lookup-insert_self, insert-other, delete-other, same_call,
}
use g_micor.Redisx.Flight.{
  set_item, set_result, del_lock, Phase, running, leaving, panicked, blocked, World,
}

module _ {V A : Type 0} where
  -- The key and the id of a goroutine that has taken the lock and not given it back.
  abbrev pub holds : Phase V A → Option (String × String)
  holds (running key id c) = some (key, id)
  holds (leaving set_item key id c res err) = some (key, id)
  holds (leaving set_result key id c res err) = some (key, id)
  holds (leaving del_lock key id c res err) = some (key, id)
  holds (panicked key id) = some (key, id)
  holds (blocked key id) = some (key, id)
  holds _ = none

  -- A goroutine that holds the lock of a key.
  abbrev pub Holds : List (ℕ × Phase V A) → ℕ → String → String → Type 0
  Holds gs i key id =
      (n : ℕ) × (p : Phase V A) × (get_elem? gs i ≡ some (n, p)) × (holds p ≡ some (key, id))

  pub record IsExclusive (locks drawn : Dict String) (gs : List (ℕ × Phase V A)) : Type 0 where
    pub held : (i : ℕ) (key id : String) → Holds gs i key id → lookup key locks ≡ some id
    pub known : (i : ℕ) (key id : String) → Holds gs i key id → lookup id drawn ≡ some key
    pub unique : (i j : ℕ) (key key' id : String) → Holds gs i key id → Holds gs j key' id → i ≡ j

  -- A goroutine that goes on from one phase to another holds nothing new.
  pub holds_before :
      (i n : ℕ) (before after : Phase V A) (gs : List (ℕ × Phase V A))
      → get_elem? gs i ≡ some (n, before)
      → (holds after ≡ holds before) ⊎ (holds after ≡ none)
      → (j : ℕ) (key id : String) → Holds (modify i (λ _. (n, after)) gs) j key id
      → Holds gs j key id
  holds_before i n before after gs here kept j key id (m, q, at, own) =
      elim (get_elem?-set_cases i j (n, after) (m, q) gs at) [
        | inr (ne, at') ↦ (m, q, at', own)
        | inl (e, e') ↦
            let own' = ap (λ x. holds x.1) e' ∙ own in
            elim kept [
              | inl same ↦ (
                n,
                before,
                subst (λ k. get_elem? gs k ≡ some (n, before)) e here,
                sym same ∙ own',
              )
              | inr free ↦ absurd (none-ne-some (sym free ∙ own'))
            ]
      ]

  pub go_on :
      (i n : ℕ) (before after : Phase V A) {locks drawn : Dict String} (gs : List (ℕ × Phase V A))
      → get_elem? gs i ≡ some (n, before)
      → (holds after ≡ holds before) ⊎ (holds after ≡ none)
      → IsExclusive locks drawn gs
      → IsExclusive locks drawn (modify i (λ _. (n, after)) gs)
  go_on i n before after gs here kept v = record {
    held = λ j key id h. v.held j key id (holds_before i n before after gs here kept j key id h);
    known = λ j key id h. v.known j key id (holds_before i n before after gs here kept j key id h);
    unique = λ j k key key' id h h'.
        v.unique j k key key' id (holds_before i n before after gs here kept j key id h)
          (holds_before i n before after gs here kept k key' id h');
  }

  -- Who holds a lock when a goroutine has begun to run a function.
  new_holder :
      (i n : ℕ) (key id : String) (c : ℕ) (gs : List (ℕ × Phase V A)) (j : ℕ) (k d : String)
      → Holds (modify i (λ _. (n, running key id c)) gs) j k d
      → ((i ≡ j) × (key ≡ k) × (id ≡ d)) ⊎ Holds gs j k d
  new_holder i n key id c gs j k d (m, q, at, own) =
      elim (get_elem?-set_cases i j (n, running key id c) (m, q) gs at) [
        | inl (e, e') ↦
            let same = some_inj (ap (λ x. holds x.1) e' ∙ own) in
            inl (e, ap (λ o. o.0) same, ap (λ o. o.1) same)
        | inr (ne, at') ↦ inr (m, q, at', own)
      ]

  -- A goroutine takes a free lock with an id that nobody has had.
  pub take_lock-IsExclusive :
      (i n : ℕ) (key id : String) (c : ℕ) {locks drawn : Dict String} (gs : List (ℕ × Phase V A))
      → lookup key locks ≡ none
      → lookup id drawn ≡ none
      → IsExclusive locks drawn gs
      → IsExclusive
          (insert key id locks)
          (insert id key drawn)
          (modify i (λ _. (n, running key id c)) gs)
  take_lock-IsExclusive i n key id c {locks} {drawn} gs free fresh v = record {
    held = λ j k d h. elim (new_holder i n key id c gs j k d h) [
      | inl (e, same, same') ↦
          subst (λ x. lookup x (insert key id locks) ≡ some d) same
            (lookup-insert_self key id locks ∙ ap some same')
      | inr h' ↦ insert-other key k id d locks free (v.held j k d h')
    ];
    known = λ j k d h. elim (new_holder i n key id c gs j k d h) [
      | inl (e, same, same') ↦
          subst (λ x. lookup x (insert id key drawn) ≡ some k) same'
            (lookup-insert_self id key drawn ∙ ap some same)
      | inr h' ↦ insert-other id d key k drawn fresh (v.known j k d h')
    ];
    unique = λ j l k k' d h h'. elim (new_holder i n key id c gs j k d h) [
      | inl (e, same, same') ↦ elim (new_holder i n key id c gs l k' d h') [
        | inl (f, f', f'') ↦ sym e ∙ f
        | inr old ↦
            absurd (none-ne-some (sym fresh ∙ ap (λ x. lookup x drawn) same' ∙ v.known l k' d old))
      ]
      | inr old ↦ elim (new_holder i n key id c gs l k' d h') [
        | inl (f, f', f'') ↦
            absurd (none-ne-some (sym fresh ∙ ap (λ x. lookup x drawn) f'' ∙ v.known j k d old))
        | inr old' ↦ v.unique j l k k' d old old'
      ]
    ];
  }

  -- Who holds a lock when another goroutine has stopped to.
  old_holder :
      (i n : ℕ) (after : Phase V A) (gs : List (ℕ × Phase V A)) (j : ℕ) (k d : String)
      → holds after ≡ none
      → Holds (modify i (λ _. (n, after)) gs) j k d
      → (i ≢ j) × Holds gs j k d
  old_holder i n after gs j k d free (m, q, at, own) =
      elim (get_elem?-set_cases i j (n, after) (m, q) gs at) [
        | inl (e, e') ↦ absurd (none-ne-some (sym free ∙ ap (λ x. holds x.1) e' ∙ own))
        | inr (ne, at') ↦ (ne, (m, q, at', own))
      ]

  -- Who holds a lock gives it back: others hold others.
  pub del_lock-IsExclusive :
      (i n : ℕ) (key id : String) (before after : Phase V A) {locks drawn : Dict String}
      (gs : List (ℕ × Phase V A))
      → get_elem? gs i ≡ some (n, before)
      → holds before ≡ some (key, id)
      → holds after ≡ none
      → IsExclusive locks drawn gs
      → IsExclusive (delete key locks) drawn (modify i (λ _. (n, after)) gs)
  del_lock-IsExclusive i n key id before after {locks} gs here own free v = record {
    held = λ j k d h.
        let (ne, h') = old_holder i n after gs j k d free h in
        let mine : Holds gs i key id = (n, before, here, own) in
        delete-other key k d locks
          (λ same.
            let same_id =
              same_call key k id d locks same (v.held i key id mine) (v.held j k d h') in
            ne (v.unique i j key k id mine (subst (λ x. Holds gs j k x) (sym same_id) h')))
          (v.held j k d h');
    known = λ j k d h. v.known j k d (old_holder i n after gs j k d free h).1;
    unique = λ j l k k' d h h'.
        v.unique j l k k' d (old_holder i n after gs j k d free h).1
          (old_holder i n after gs l k' d free h').1;
  }

  abbrev pub Exclusive : World V A → Type 0
  Exclusive w = IsExclusive w.locks w.drawn w.goroutines
