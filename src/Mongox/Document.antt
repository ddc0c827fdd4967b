-- ===== src/Mongox/Document.antt =====
-- mongox/model.go and what mongox/collection.go writes into documents. Documents are behind pointers, which are
-- numbers; the same one may stand in a list twice. Each write is given the id that bson.NewObjectID would
-- draw, the time, and the tenant of the context; the zero id is 0.
use g_micor.Base.{
  ℕ, String, ◌≡◌, ◌≢◌, refl, ap, sym, ◌∙◌, Option, none, some, List, [], ◌∷◌, ◌==◌, All, map,
  str_eq, arith, if◌then◌else◌,
}

pub record Document : Type 0 where
  pub id : ℕ
  pub tenant_id : String
  pub update_time : ℕ

-- What a write reads: a new id, the clock, and the tenant of a context, if there is one.
pub record Moment : Type 0 where
  pub new_id : ℕ
  pub now : ℕ
  pub tenant : Option String

-- `setTenantId`
abbrev pub tenant_or : String → Option String → String
tenant_or before none = before
tenant_or before (some tenant) = tenant

-- `Write`
unfoldable pub write : Moment → Document → Document
write m b = record {
  id = if b.id == 0 then m.new_id else b.id;
  tenant_id = if str_eq b.tenant_id "" then tenant_or b.tenant_id m.tenant else b.tenant_id;
  update_time = m.now;
}

-- The documents that pointers lead to.
abbrev pub Documents : Type 0
Documents = ℕ → Document

unfoldable pub write_at : ℕ → Moment → Documents → Documents
unfolding write
write_at p m docs q = if q == p then write m (docs q) else docs q

-- A model of a bulk write: an upsert of the document behind `document` where `_id` is `filter_id`.
pub record UpdateOneModel : Type 0 where
  pub filter_id : ℕ
  pub document : ℕ

-- The loop of `UpsertManyById` over the pointers, with a moment for each.
unfoldable pub upsert_models : List (ℕ × Moment) → Documents → List UpdateOneModel × Documents
unfolding write_at
upsert_models [] docs = ([], docs)
upsert_models ((p, m) ∷ documents) docs =
    let docs1 = write_at p m docs in
    let (models, docs2) = upsert_models documents docs1 in
    (record { filter_id = (docs1 p).id; document = p } ∷ models, docs2)

-- A moment's id is new: it is not zero.
abbrev pub DrawsId : ℕ × Moment → Type 0
DrawsId (p, m) = m.new_id ≢ 0

write_at-id :
    (p : ℕ) (m : Moment) (docs : Documents) (q : ℕ)
    → (docs q).id ≢ 0
    → (write_at p m docs q).id ≡ (docs q).id
unfolding write_at write
write_at-id p m docs q some_id = ground arith

write_at_self :
    (p : ℕ) (m : Moment) (docs : Documents) → m.new_id ≢ 0 → (write_at p m docs p).id ≢ 0
unfolding write_at write
write_at_self p m docs new = ground arith

-- The loop keeps an id once it is there.
upsert_models-id :
    (documents : List (ℕ × Moment)) (docs : Documents) (q : ℕ)
    → (docs q).id ≢ 0
    → ((upsert_models documents docs).1 q).id ≡ (docs q).id
unfolding upsert_models
upsert_models-id [] docs q some_id = refl
upsert_models-id ((p, m) ∷ documents) docs q some_id =
    let kept = write_at-id p m docs q some_id in
    upsert_models-id documents (write_at p m docs) q (λ e. some_id (sym kept ∙ e)) ∙ kept

-- A model that sets the document with its own id, which is one.
abbrev pub IsOwn : Documents → UpdateOneModel → Type 0
IsOwn docs model = (model.filter_id ≡ (docs model.document).id) × (model.filter_id ≢ 0)

-- When `UpsertManyById` hands its models to the driver there is one for each pointer, in order, and each sets
-- the document behind its pointer where `_id` is the id that the document has by then, which is not the zero id, even
-- if pointers stand in the list twice, if no drawn id is zero.
pub upsert_models-IsOwn :
    (documents : List (ℕ × Moment)) (docs : Documents)
    → All DrawsId documents
    → let (models, after) = upsert_models documents docs in
      All (IsOwn after) models × (map (λ model. model.document) models ≡ map (λ d. d.0) documents)
unfolding upsert_models
upsert_models-IsOwn [] docs new = (tt, refl)
upsert_models-IsOwn ((p, m) ∷ documents) docs new =
    let docs1 = write_at p m docs in
    let some_id = write_at_self p m docs new.0 in
    let (own, same) = upsert_models-IsOwn documents docs1 new.1 in
    (((sym (upsert_models-id documents docs1 p some_id), some_id), own), ap (λ ps. p ∷ ps) same)
