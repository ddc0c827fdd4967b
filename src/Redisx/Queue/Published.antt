-- ===== src/Redisx/Queue/Published.antt =====
-- redisx/mq.go: `Publish` and `Listen` together.
use g_micor.Base.{
  ◌≡◌, refl, ap, sym, ◌∙◌, subst, Bool, String, some, some_inj, Option-cases, inl, inr, List, [],
  ◌∷◌, ◌++◌, if◌then◌else◌, lookup, none-ne-some,
}
use g_micor.Base.Bytes.{Bytes}
use g_micor.Redisx.Queue.{text, Message, Round, Codec, publish, entity_of, listen}
use g_micor.Redisx.Queue.Delivery.{messages_read, entities, well_handled, listen-Gains}

module _ {T : Type 0} (codec : Codec T) (handler : T → Bool) where
  -- The messages hold what `Publish` puts into the stream for the entities.
  abbrev pub ArePublished : List T → List Message → Type 0
  ArePublished [] [] = Unit
  ArePublished [] (msg ∷ msgs) = ⊥
  ArePublished (t ∷ ts) [] = ⊥
  ArePublished (t ∷ ts) (msg ∷ msgs) = (publish codec t ≡ some msg.values) × ArePublished ts msgs

  -- The ids of the messages whose entities the handler takes.
  abbrev pub taken : List T → List Message → List String
  taken [] msgs = []
  taken (t ∷ ts) [] = []
  taken (t ∷ ts) (msg ∷ msgs) = (if handler t then msg.id ∷ [] else []) ++ taken ts msgs

  module _
      (lossless : (t : T) (bytes : Bytes)
        → codec.marshal t ≡ some bytes
        → codec.unmarshal bytes ≡ some t) where
    entity_of-published :
        (t : T) (msg : Message) → publish codec t ≡ some msg.values → entity_of codec msg ≡ some t
    unfolding publish entity_of lookup
    entity_of-published t msg h = elim (Option-cases (codec.marshal t)) [
      | inl e ↦ absurd (none-ne-some (sym (rw (e, publish) refl) ∙ h))
      | inr (bytes, e) ↦
          let same : ("data", text bytes) ∷ [] ≡ msg.values =
            some_inj (sym (rw (e, publish) refl) ∙ h) in
          subst (λ v. entity_of codec (record { id = msg.id; values = v }) ≡ some t) same
            (lossless t bytes e)
    ]

    published-entities :
        (ts : List T) (msgs : List Message)
        → ArePublished ts msgs
        → (entities codec handler msgs ≡ ts) × (well_handled codec handler msgs ≡ taken ts msgs)
    published-entities [] [] h = (refl, refl)
    published-entities [] (msg ∷ msgs) h = absurd h
    published-entities (t ∷ ts) [] h = absurd h
    published-entities (t ∷ ts) (msg ∷ msgs) h =
        let (all, acks) = published-entities ts msgs h.1 in
        let e = entity_of-published t msg h.0 in
        (
          rw e (ap (λ x. t ∷ x) all),
          rw e (ap (λ x. (if handler t then msg.id ∷ [] else []) ++ x) acks),
        )

    -- What is published is what listeners handle: if a new listener reads the messages that were published
    -- for some entities, its handler is given these entities in their order, and the messages that are
    -- acknowledged are those of the entities that it takes. Protobuf reads back what it wrote.
    pub published_handled :
        (rounds : List Round) (ts : List T)
        → ArePublished ts (messages_read rounds)
        → listen codec handler rounds (record { handled = []; acked = [] })
          ≡ record { handled = ts; acked = taken ts (messages_read rounds) }
    published_handled rounds ts h =
        let (handled, acked) =
          listen-Gains codec handler rounds (record { handled = []; acked = [] }) in
        let (all, acks) = published-entities ts (messages_read rounds) h in
        λ i. record { handled = (handled ∙ all) i; acked = (acked ∙ acks) i }
