-- ===== src/Logx/Entry.antt =====
-- logx/ctx.go, and what logx/openObserver.go makes of a record. A map is an association list without
-- a key twice, in the order in which a loop goes over it.
use g_micor.Base.{
  String, ◌≡◌, refl, ap, ◌∙◌, Bool, true, false, Option, none, some, List, [], ◌∷◌, ◌++◌, map, Dict,
  lookup, insert, lookup-insert, elem, Distinct, str_eq, eq_iff, arith, Bool-cases, inl, inr, subst,
  if◌then◌else◌,
}
use g_micor.Logx.{OpenObserveHandler, handle}

-- `AddAttrs` of the attributes of a context; nil is no attributes.
unfoldable pub add_attrs {ℓ} : {V : Type ℓ} → String → V → Dict V → Dict V
add_attrs key value attrs = insert key value attrs

-- Calls of `AddAttrs` one behind the other.
unfoldable pub add_all {ℓ} : {V : Type ℓ} → List (String × V) → Dict V → Dict V
unfolding add_attrs
add_all [] attrs = attrs
add_all ((key, value) ∷ calls) attrs = add_all calls (add_attrs key value attrs)

-- What is read of a slog record; `source` is there if the record has a program counter in a file.
pub record Record {ℓ} (V : Type ℓ) : Type ℓ where
  pub level_name : V
  pub message : V
  pub source : Option V
  pub attrs : List (String × V)

module _ {ℓ} {V : Type ℓ} where
  -- `recordAddAttrs`
  unfoldable pub record_add_attrs : Dict V → Record V → Record V
  record_add_attrs ctx_attrs r = record r { attrs = r.attrs ++ ctx_attrs }

  -- The loop over the attributes.
  unfoldable pub set_fields : List (String × V) → Dict V → Dict V
  set_fields [] entry = entry
  set_fields ((key, value) ∷ attrs) entry = set_fields attrs (insert key value entry)

  -- The fields that do not come from attributes; `with_source` is the test of the level.
  unfoldable pub basic_fields : Bool → Record V → Dict V
  basic_fields with_source r =
      let fields = insert "message" r.message (insert "level" r.level_name []) in
      if with_source
      then elim r.source [ none ↦ fields | some s ↦ insert "source" s fields ]
      else fields

  -- `Handle`: the record for the next handler, or nothing if the level is not enabled.
  unfoldable pub handle_record :
      Bool
      → Bool
      → Dict V
      → Record V
      → OpenObserveHandler (Dict V)
      → Option (Record V) × OpenObserveHandler (Dict V)
  unfolding record_add_attrs set_fields basic_fields
  handle_record enabled with_source ctx_attrs r h =
      let r' = record_add_attrs ctx_attrs r in
      if enabled
      then (some r', handle (set_fields r'.attrs (basic_fields with_source r')) h)
      else (none, h)

  -- The loop of `sendBatch` over the values of an entry: errors become their texts.
  unfoldable pub errors_to_text : (V → V) → Dict V → Dict V
  errors_to_text text [] = []
  errors_to_text text ((key, value) ∷ entry) = (key, text value) ∷ errors_to_text text entry

  -- The value of the last attribute with a key, or else `before`.
  unfoldable pub last_attr : String → List (String × V) → Option V → Option V
  last_attr key [] before = before
  last_attr key ((name, value) ∷ attrs) before =
      last_attr key attrs (if str_eq name key then some value else before)

  lookup-set_fields :
      (key : String) (attrs : List (String × V)) (entry : Dict V)
      → lookup key (set_fields attrs entry) ≡ last_attr key attrs (lookup key entry)
  unfolding set_fields last_attr
  lookup-set_fields key [] entry = refl
  lookup-set_fields key ((name, value) ∷ attrs) entry =
      lookup-set_fields key attrs (insert name value entry)
      ∙ ap (last_attr key attrs) (lookup-insert name key value entry)

  last_attr-append :
      (key : String) (xs ys : List (String × V)) (before : Option V)
      → last_attr key (xs ++ ys) before ≡ last_attr key ys (last_attr key xs before)
  unfolding last_attr
  last_attr-append key [] ys before = refl
  last_attr-append key ((name, value) ∷ xs) ys before = last_attr-append key xs ys _

  abbrev pub or_else : Option V → Option V → Option V
  or_else none before = before
  or_else (some v) before = some v

  -- A map has no key twice.
  abbrev pub IsMap : Dict V → Type 0
  IsMap attrs = Distinct (map (λ a. a.0) attrs)

  last_attr-absent :
      (key : String) (attrs : Dict V) (before : Option V)
      → elem key (map (λ a. a.0) attrs) ≡ false
      → last_attr key attrs before ≡ before
  unfolding last_attr elem
  last_attr-absent key [] before h = refl
  last_attr-absent key ((name, value) ∷ attrs) before h =
      ground (arith, last_attr-absent key attrs before)

  last_attr-lookup :
      (key : String) (attrs : Dict V) (before : Option V)
      → IsMap attrs
      → last_attr key attrs before ≡ or_else (lookup key attrs) before
  unfolding last_attr lookup
  last_attr-lookup key [] before h = refl
  last_attr-lookup key ((name, value) ∷ attrs) before h = elim (Bool-cases (str_eq name key)) [
    | inl e ↦ rw e (
        last_attr-absent key attrs (some value)
          (subst (λ k. elem k (map (λ a. a.0) attrs) ≡ false) ((eq_iff name key).0 e) h.0))
    | inr e ↦ rw e (last_attr-lookup key attrs before h.1)
  ]

  lookup-add_all :
      (key : String) (calls : List (String × V)) (attrs : Dict V)
      → lookup key (add_all calls attrs) ≡ last_attr key calls (lookup key attrs)
  unfolding add_all last_attr
  lookup-add_all key [] attrs = refl
  lookup-add_all key ((name, value) ∷ calls) attrs =
      lookup-add_all key calls (insert name value attrs)
      ∙ ap (last_attr key calls) (lookup-insert name key value attrs)

  last_attr_or :
      (key : String) (calls : List (String × V)) (first before : Option V)
      → or_else (last_attr key calls first) before ≡ last_attr key calls (or_else first before)
  unfolding last_attr
  last_attr_or key [] first before = refl
  last_attr_or key ((name, value) ∷ calls) first before = elim (Bool-cases (str_eq name key)) [
    | inl e ↦ rw e (last_attr_or key calls (some value) before)
    | inr e ↦ rw e (last_attr_or key calls first before)
  ]

  -- What a loop over a context's attributes leaves of a key, in whatever order it runs.
  last_attr-context :
      (key : String) (calls : List (String × V)) (order : Dict V) (before : Option V)
      → IsMap order
      → lookup key order ≡ lookup key (add_all calls [])
      → last_attr key order before ≡ last_attr key calls before
  unfolding lookup
  last_attr-context key calls order before distinct same =
      last_attr-lookup key order before distinct
      ∙ ap (λ o. or_else o before) (same ∙ lookup-add_all key calls [])
      ∙ last_attr_or key calls none before

  -- A record of an enabled level is kept as one entry behind those of the buffer. Its value at a key is the
  -- one that the context was given last for the key by calls of AddAttrs; if it was given none, that of
  -- the record's last attribute of the key; and if there is none, the level, the message or the source.
  -- The order in which the loop goes over the context's attributes does not matter.
  pub handle_record-lookup :
      (with_source : Bool) (calls : List (String × V)) (order : Dict V) (r : Record V)
      (h : OpenObserveHandler (Dict V))
      → IsMap order
      → ((key : String) → lookup key order ≡ lookup key (add_all calls []))
      → (entry : Dict V) × ((handle_record true with_source order r h).1.buffer
          ≡ h.buffer ++ entry ∷ [])
        × ((key : String)
            → lookup key entry
              ≡ last_attr key calls
                  (last_attr key r.attrs (lookup key (basic_fields with_source r))))
  unfolding handle_record handle
  handle_record-lookup with_source calls order r h distinct same = (
    set_fields (r.attrs ++ order) (basic_fields with_source (record_add_attrs order r)),
    refl,
    λ key.
        lookup-set_fields key (r.attrs ++ order) (basic_fields with_source r)
        ∙ last_attr-append key r.attrs order (lookup key (basic_fields with_source r))
        ∙ last_attr-context key calls order _ distinct (same key),
  )
