-- ===== src/Redisx/Flight/Outcome.antt =====
-- redisx/singleFlight.go: what is read off an item.
use g_micor.Base.{
  ◌≡◌, refl, ap, sym, subst, String, eq_iff, arith, Option, none, some, Option-cases, inl, inr, ◌∙◌,
}
use g_micor.Errorx.{GoError}
use g_micor.Redisx.Flight.{World, Json, CacheItem, new_cache_item, result}
use g_micor.Redisx.Flight.Genuine.{Ran, IsShared, IsFailed, IsOutcome}

module _ {V A : Type 0} (json : Json V A) where
  value_read : (item : CacheItem V A) → (result item).0 ≡ item.value
  unfolding result
  value_read item = elim (Option-cases item.bu_error) [
    | inl e ↦ rw (e, result) refl
    | inr (b, e) ↦ rw (e, result) refl
  ]

  -- What a function returned, for who ran it,
  pub own-IsOutcome :
      (w : World V A) (id : String) (res : A) (err : Option (GoError V))
      → Ran w id res err
      → IsOutcome json w id res err
  unfolding new_cache_item result
  own-IsOutcome w id res none r e = inl (none, r, refl)
  own-IsOutcome w id res (some err) r e = absurd cc

  result-value :
      (res : A) (err : Option (GoError V)) → (result (new_cache_item json res err)).0 ≡ res
  unfolding new_cache_item result
  result-value res none = refl
  result-value res (some err) = ground arith

  -- and for who reads an item that was made of it.
  pub shared-IsOutcome :
      (w : World V A) (id : String) (item : CacheItem V A)
      → IsShared json w id item
      → IsOutcome json w id (result item).0 (result item).1
  shared-IsOutcome w id item (res, err, r, made) =
      let made' = ap result made in
      subst (λ x. IsOutcome json w id x.0 x.1) (sym made')
        (λ none_seen.
          let same = result-value res err in
          inl (
            err,
            subst (λ x. Ran w id x err) (sym same) r,
            subst (λ x. result (new_cache_item json x err) ≡ (x, none)) (sym same)
                (λ k. (same k, none_seen k)),
          ))

  -- An item that tells of a failure is an error, and an emptied one has the zero value.
  pub failed-IsOutcome :
      (w : World V A) (id : String) (item : CacheItem V A)
      → IsFailed json item
      → IsOutcome json w id (result item).0 (result item).1
  unfolding result
  failed-IsOutcome w id item (inl bad) none_seen = absurd (ground (arith, eq_iff item.sys_error ""))
  failed-IsOutcome w id item (inr empty) none_seen = inr (value_read item ∙ empty)
