-- ===== src/Syncx/ResourceManager.antt =====
-- syncx/resourcemanager.go. `GetResource` is the function that it hands to `Do` (SingleFlight); only one
-- goroutine at a time runs it for a key. `create` is its result, `none` an error.
use g_micor.Base.{
  ◌≡◌, ◌≢◌, refl, ap, subst, sym, ◌∙◌, String, Option, none, some, Option-cases, inl, inr, Dict,
  lookup, insert, lookup-insert_self,
}

pub record ResourceManager {ℓ} (A : Type ℓ) : Type ℓ where
  pub resources : Dict A

none-ne-some {ℓ} : {A : Type ℓ} {a : A} → none ≢ some a
none-ne-some e = cc

module _ {ℓ} {A : Type ℓ} where
  unfoldable pub get_resource : String → Option A → ResourceManager A → Option A × ResourceManager A
  get_resource key create manager = elim (lookup key manager.resources) [
    | some res ↦ (some res, manager)
    | none ↦ elim create [
      | none ↦ (none, manager)
      | some res ↦ (some res, record { resources = insert key res manager.resources })
    ]
  ]

  unfoldable pub inject : String → A → ResourceManager A → ResourceManager A
  inject key resource manager = record { resources = insert key resource manager.resources }

  -- A resource that is kept, and one that is created.
  pub stored :
      (key : String) (create : Option A) (manager : ResourceManager A) (res : A)
      → lookup key manager.resources ≡ some res
      → get_resource key create manager ≡ (some res, manager)
  unfolding get_resource
  stored key create manager res h = rw (h, get_resource) refl

  pub created :
      (key : String) (create : Option A) (manager : ResourceManager A)
      → lookup key manager.resources ≡ none
      → get_resource key create manager ≡ elim create [
        | none ↦ (none, manager)
        | some res ↦ (some res, record { resources = insert key res manager.resources })
      ]
  unfolding get_resource
  created key create manager h = rw (h, get_resource) refl

  got_again :
      (key : String) (create later : Option A) (manager : ResourceManager A) (res : A)
      (r : Option A × ResourceManager A)
      → (get_resource key create manager).0 ≡ some res
      → get_resource key create manager ≡ r
      → get_resource key later r.1 ≡ r
      → get_resource key later (get_resource key create manager).1
        ≡ (some res, (get_resource key create manager).1)
  got_again key create later manager res r h e k =
      subst (λ r'. get_resource key later r'.1 ≡ (r'.0, r'.1)) (sym e) k
      ∙ ap (λ o. (o, (get_resource key create manager).1)) h

  -- A resource is created once: who asks for it again gets it, whatever would be created then, and
  -- nothing changes.
  pub created_once :
      (key : String) (create later : Option A) (manager : ResourceManager A) (res : A)
      → (get_resource key create manager).0 ≡ some res
      → let after = (get_resource key create manager).1 in
        get_resource key later after ≡ (some res, after)
  created_once key none later manager res h = elim (Option-cases (lookup key manager.resources)) [
    | inr (old, e) ↦
        got_again key none later manager res _ h (stored key none manager old e)
          (stored key later manager old e)
    | inl e ↦
        let lost = ap (λ r. r.0) (created key none manager e) in
        absurd (none-ne-some (sym lost ∙ h))
  ]
  created_once key (some new) later manager res h =
      elim (Option-cases (lookup key manager.resources)) [
        | inr (old, e) ↦
            got_again key (some new) later manager res _ h (stored key (some new) manager old e)
              (stored key later manager old e)
        | inl e ↦
            got_again key (some new) later manager res _ h (created key (some new) manager e) (
              stored key later (record { resources = insert key new manager.resources }) new
                (lookup-insert_self key new manager.resources))
      ]
