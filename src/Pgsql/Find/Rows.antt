-- ===== src/Pgsql/Find/Rows.antt =====
-- pgsql/table.go, `finalizeScan`: the passes over the columns of one row.
use g_micor.Base.{
  ℕ, suc, ◌≡◌, ◌≢◌, refl, ap, sym, ◌∙◌, subst, Bool, true, false, List, [], ◌∷◌, ◌++◌, length,
  modify, length-append, append_assoc, All, Option, some, arith, Bool-cases, inl, inr,
  if◌then◌else◌,
}
use g_micor.Base.Bytes.{Bytes}
use g_micor.Pgsql.Types.{GoType, GoValue, ScanKind}
use g_micor.Pgsql.Result.{DbError, ok, err, wrong_target}
use g_micor.Pgsql.Scan.{
  Target, direct, json_buffer, null_string, null_bool, null_int64, null_float64, null_time,
  apply_slot,
}
use g_micor.Pgsql.Driver.{Decoder}
use g_micor.Pgsql.Table.{FieldMeta}
use g_micor.Pgsql.Find.{apply_slots, from_json, apply_json, finalize_scan}

pub modify-append {ℓ} :
    {A : Type ℓ} (f : A → A) (xs : List A) (y : A) (ys : List A)
    → modify (length xs) f (xs ++ y ∷ ys) ≡ xs ++ f y ∷ ys
modify-append f [] y ys = refl
modify-append f (x ∷ xs) y ys = ap (λ zs. x ∷ zs) (modify-append f xs y ys)

module _ (J F O : Type 0) where
  -- A field of the struct: `hidden` has no column; `shown` has its target and, of the field, the zero value and
  -- the value that it is to end with.
  pub data Cell : Type 0 where
    hidden : GoValue J F O → Cell
    shown : FieldMeta → Target J F O → GoValue J F O → GoValue J F O → Cell

module _ {J F O : Type 0} where
  abbrev is_buffer : Target J F O → Bool
  is_buffer (json_buffer text) = true
  is_buffer _ = false

  abbrev pub metas : List (Cell J F O) → List FieldMeta
  metas [] = []
  metas (hidden z ∷ cells) = metas cells
  metas (shown m target z v ∷ cells) = m ∷ metas cells

  abbrev pub targets : List (Cell J F O) → List (Target J F O)
  targets [] = []
  targets (hidden z ∷ cells) = targets cells
  targets (shown m target z v ∷ cells) = target ∷ targets cells

  abbrev pub zeros : List (Cell J F O) → List (GoValue J F O)
  zeros [] = []
  zeros (hidden z ∷ cells) = z ∷ zeros cells
  zeros (shown m target z v ∷ cells) = z ∷ zeros cells

  -- The fields between the two passes.
  abbrev mids : List (Cell J F O) → List (GoValue J F O)
  mids [] = []
  mids (hidden z ∷ cells) = z ∷ mids cells
  mids (shown m target z v ∷ cells) = (if is_buffer target then z else v) ∷ mids cells

  abbrev pub values : List (Cell J F O) → List (GoValue J F O)
  values [] = []
  values (hidden z ∷ cells) = z ∷ values cells
  values (shown m target z v ∷ cells) = v ∷ values cells

  abbrev pub IsIndexed : ℕ → List (Cell J F O) → Type 0
  IsIndexed i [] = Unit
  IsIndexed i (hidden z ∷ cells) = IsIndexed (suc i) cells
  IsIndexed i (shown m target z v ∷ cells) = (m.index ≡ i) × IsIndexed (suc i) cells

err-ne-ok {ℓ} : {A : Type ℓ} {e : DbError} {a : A} → err e ≢ ok a
err-ne-ok h = cc

apply_slot-buffer :
    {J F O : Type 0} (kind : ScanKind) (elem_type : Option GoType) (text : Bytes)
    → apply_slot {J = J} {F = F} {O = O} kind elem_type (json_buffer text) ≡ err wrong_target
unfolding apply_slot
apply_slot-buffer kind elem_type text = ground arith

module _ {J F O R : Type 0} (de : Decoder J F O R) where
  -- What a column's target makes of its field.
  abbrev pub IsReadAs : Cell J F O → Type 0
  IsReadAs (hidden z) = Unit
  IsReadAs (shown m (json_buffer []) z v) = v ≡ z
  IsReadAs (shown m (json_buffer (c ∷ s)) z v) = from_json de m.go_type (c ∷ s) ≡ some v
  IsReadAs (shown m target z v) = apply_slot m.scan_kind m.elem_type target ≡ ok v

  -- A target that its slot takes is no buffer.
  pub slot_read :
      (m : FieldMeta) (target : Target J F O) (z v : GoValue J F O)
      → apply_slot m.scan_kind m.elem_type target ≡ ok v
      → IsReadAs (shown m target z v)
  slot_read m (json_buffer text) z v h =
      absurd (err-ne-ok (sym (apply_slot-buffer m.scan_kind m.elem_type text) ∙ h))
  slot_read m (direct x) z v h = h
  slot_read m (null_string x) z v h = h
  slot_read m (null_bool x) z v h = h
  slot_read m (null_int64 x) z v h = h
  slot_read m (null_float64 x) z v h = h
  slot_read m (null_time x) z v h = h

  one_slot :
      (m : FieldMeta) (target : Target J F O) (z v : GoValue J F O) (ms : List FieldMeta)
      (ts : List (Target J F O)) (entity : List (GoValue J F O))
      → IsReadAs (shown m target z v)
      → apply_slots de (m ∷ ms) (target ∷ ts) entity
        ≡ apply_slots de ms ts (if is_buffer target then entity else modify m.index (λ _. v) entity)
  unfolding apply_slots
  one_slot m (json_buffer text) z v ms ts entity h = refl
  one_slot m (direct x) z v ms ts entity h = rw (h, apply_slots) refl
  one_slot m (null_string x) z v ms ts entity h = rw (h, apply_slots) refl
  one_slot m (null_bool x) z v ms ts entity h = rw (h, apply_slots) refl
  one_slot m (null_int64 x) z v ms ts entity h = rw (h, apply_slots) refl
  one_slot m (null_float64 x) z v ms ts entity h = rw (h, apply_slots) refl
  one_slot m (null_time x) z v ms ts entity h = rw (h, apply_slots) refl

  -- The same for the second pass, over what the first one left.
  one_buffer :
      (m : FieldMeta) (target : Target J F O) (z v : GoValue J F O) (ms : List FieldMeta)
      (ts : List (Target J F O)) (pre rest : List (GoValue J F O))
      → m.index ≡ length pre
      → IsReadAs (shown m target z v)
      → apply_json de (m ∷ ms) (target ∷ ts) (pre ++ (if is_buffer target then z else v) ∷ rest)
        ≡ apply_json de ms ts (pre ++ v ∷ rest)
  unfolding apply_json
  one_buffer m (json_buffer []) z v ms ts pre rest e h = rw h refl
  one_buffer m (json_buffer (c ∷ s)) z v ms ts pre rest e h =
      rw (h, apply_json) (rw (e, modify-append (λ _. v) pre z rest) refl)
  one_buffer m (direct x) z v ms ts pre rest e h = refl
  one_buffer m (null_string x) z v ms ts pre rest e h = refl
  one_buffer m (null_bool x) z v ms ts pre rest e h = refl
  one_buffer m (null_int64 x) z v ms ts pre rest e h = refl
  one_buffer m (null_float64 x) z v ms ts pre rest e h = refl
  one_buffer m (null_time x) z v ms ts pre rest e h = refl

  snoc_length :
      (pre : List (GoValue J F O)) (z : GoValue J F O) → length (pre ++ z ∷ []) ≡ suc (length pre)
  snoc_length pre z = omega (arith, length-append pre (z ∷ []))

  slots_step :
      (m : FieldMeta) (target : Target J F O) (z v : GoValue J F O)
      (pre rest : List (GoValue J F O))
      → m.index ≡ length pre
      → (if is_buffer target then pre ++ z ∷ rest else modify m.index (λ _. v) (pre ++ z ∷ rest))
        ≡ (pre ++ (if is_buffer target then z else v) ∷ []) ++ rest
  slots_step m target z v pre rest e = elim (Bool-cases (is_buffer target)) [
    | inl b ↦ rw b (sym (append_assoc pre (z ∷ []) rest))
    | inr b ↦ rw (b, e, modify-append (λ _. v) pre z rest) (sym (append_assoc pre (v ∷ []) rest))
  ]

  apply_slots-mids :
      (cells : List (Cell J F O)) (pre : List (GoValue J F O))
      → All IsReadAs cells
      → IsIndexed (length pre) cells
      → apply_slots de (metas cells) (targets cells) (pre ++ zeros cells) ≡ ok (pre ++ mids cells)
  unfolding apply_slots
  apply_slots-mids [] pre h k = refl
  apply_slots-mids (hidden z ∷ cells) pre h k =
      ap (apply_slots de (metas cells) (targets cells))
        (sym (append_assoc pre (z ∷ []) (zeros cells)))
      ∙ apply_slots-mids cells (pre ++ z ∷ []) h.1
          (subst (λ n. IsIndexed n cells) (sym (snoc_length pre z)) k)
      ∙ ap ok (append_assoc pre (z ∷ []) (mids cells))
  apply_slots-mids (shown m target z v ∷ cells) pre h k =
      let mid = if is_buffer target then z else v in
      one_slot m target z v (metas cells) (targets cells) (pre ++ z ∷ zeros cells) h.0
      ∙ ap (apply_slots de (metas cells) (targets cells))
          (slots_step m target z v pre (zeros cells) k.0)
      ∙ apply_slots-mids cells (pre ++ mid ∷ []) h.1
          (subst (λ n. IsIndexed n cells) (sym (snoc_length pre mid)) k.1)
      ∙ ap ok (append_assoc pre (mid ∷ []) (mids cells))

  apply_json-values :
      (cells : List (Cell J F O)) (pre : List (GoValue J F O))
      → All IsReadAs cells
      → IsIndexed (length pre) cells
      → apply_json de (metas cells) (targets cells) (pre ++ mids cells) ≡ ok (pre ++ values cells)
  unfolding apply_json
  apply_json-values [] pre h k = refl
  apply_json-values (hidden z ∷ cells) pre h k =
      ap (apply_json de (metas cells) (targets cells))
        (sym (append_assoc pre (z ∷ []) (mids cells)))
      ∙ apply_json-values cells (pre ++ z ∷ []) h.1
          (subst (λ n. IsIndexed n cells) (sym (snoc_length pre z)) k)
      ∙ ap ok (append_assoc pre (z ∷ []) (values cells))
  apply_json-values (shown m target z v ∷ cells) pre h k =
      one_buffer m target z v (metas cells) (targets cells) pre (mids cells) k.0 h.0
      ∙ ap (apply_json de (metas cells) (targets cells))
          (sym (append_assoc pre (v ∷ []) (mids cells)))
      ∙ apply_json-values cells (pre ++ v ∷ []) h.1
          (subst (λ n. IsIndexed n cells) (sym (snoc_length pre v)) k.1)
      ∙ ap ok (append_assoc pre (v ∷ []) (values cells))

  -- A row whose targets make of each field the value that it is to end with makes them all.
  pub finalize_scan-values :
      (cells : List (Cell J F O))
      → All IsReadAs cells
      → IsIndexed 0 cells
      → finalize_scan de (metas cells) (targets cells) (zeros cells) ≡ ok (values cells)
  unfolding finalize_scan
  finalize_scan-values cells h k =
      ap
        (λ r. elim r [
          | err e ↦ err e
          | ok entity ↦ apply_json de (metas cells) (targets cells) entity
        ])
        (apply_slots-mids cells [] h k)
      ∙ apply_json-values cells [] h k
