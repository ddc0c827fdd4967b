-- ===== src/Redisx/Queue/Delivery.antt =====
-- redisx/mq.go: which messages are handled and acknowledged.
use g_micor.Base.{
  ◌≡◌, refl, ap, sym, ◌∙◌, Bool, String, Option, none, some, Bool-cases, inl, inr, List, [], ◌∷◌,
  ◌++◌, append-nil, append_assoc, if◌then◌else◌,
}
use g_micor.Redisx.Queue.{
  Message, streams, no_message, read_failed, Round, stopped, answered, Codec, Listener, entity_of,
  handle_entity, handle_message, handle_messages, handle_streams, handle_reply, listen,
}

-- The messages that are read until the listener is stopped.
abbrev concat : List (List Message) → List Message
concat [] = []
concat (msgs ∷ rest) = msgs ++ concat rest

abbrev pub messages_read : List Round → List Message
messages_read [] = []
messages_read (stopped ∷ rounds) = []
messages_read (answered (streams msgs) ∷ rounds) = concat msgs ++ messages_read rounds
messages_read (answered no_message ∷ rounds) = messages_read rounds
messages_read (answered read_failed ∷ rounds) = messages_read rounds

module _ {T : Type 0} (codec : Codec T) (handler : T → Bool) where
  abbrev listed : Option T → List T
  listed none = []
  listed (some entity) = entity ∷ []

  abbrev ids_of : String → Option T → List String
  ids_of id none = []
  ids_of id (some entity) = if handler entity then id ∷ [] else []

  -- The entities of messages that have one, and the ids of those that are handled well.
  abbrev pub entities : List Message → List T
  entities [] = []
  entities (msg ∷ msgs) = listed (entity_of codec msg) ++ entities msgs

  abbrev pub well_handled : List Message → List String
  well_handled [] = []
  well_handled (msg ∷ msgs) = ids_of msg.id (entity_of codec msg) ++ well_handled msgs

  abbrev Gains : Listener T → List Message → Listener T → Type 0
  Gains l msgs l' =
      (l'.handled ≡ l.handled ++ entities msgs) × (l'.acked ≡ l.acked ++ well_handled msgs)

  entity_handled :
      (o : Option T) (id : String) (l : Listener T)
      → ((handle_entity codec handler o id l).handled ≡ l.handled ++ listed o)
        × ((handle_entity codec handler o id l).acked ≡ l.acked ++ ids_of id o)
  unfolding handle_entity
  entity_handled none id l = (sym (append-nil l.handled), sym (append-nil l.acked))
  entity_handled (some entity) id l = elim (Bool-cases (handler entity)) [
    | inl e ↦ (rw e refl, rw e refl)
    | inr e ↦ (rw e refl, rw e (sym (append-nil l.acked)))
  ]

  messages-Gains :
      (msgs : List Message) (l : Listener T) → Gains l msgs (handle_messages codec handler msgs l)
  unfolding handle_messages handle_message
  messages-Gains [] l = (sym (append-nil l.handled), sym (append-nil l.acked))
  messages-Gains (msg ∷ msgs) l =
      let o = entity_of codec msg in
      let l' = handle_entity codec handler o msg.id l in
      let (h, a) = entity_handled o msg.id l in
      let (h', a') = messages-Gains msgs l' in
      (
        h' ∙ ap (λ x. x ++ entities msgs) h ∙ append_assoc l.handled (listed o) (entities msgs),
        a'
            ∙ ap (λ x. x ++ well_handled msgs) a
            ∙ append_assoc l.acked (ids_of msg.id o) (well_handled msgs),
      )

  entities-append : (xs ys : List Message) → entities (xs ++ ys) ≡ entities xs ++ entities ys
  entities-append [] ys = refl
  entities-append (x ∷ xs) ys =
      ap (λ t. listed (entity_of codec x) ++ t) (entities-append xs ys)
      ∙ sym (append_assoc (listed (entity_of codec x)) (entities xs) (entities ys))

  well_handled-append :
      (xs ys : List Message) → well_handled (xs ++ ys) ≡ well_handled xs ++ well_handled ys
  well_handled-append [] ys = refl
  well_handled-append (x ∷ xs) ys =
      ap (λ t. ids_of x.id (entity_of codec x) ++ t) (well_handled-append xs ys)
      ∙ sym (append_assoc (ids_of x.id (entity_of codec x)) (well_handled xs) (well_handled ys))

  Gains-then :
      (l l' l'' : Listener T) (xs ys : List Message)
      → Gains l xs l'
      → Gains l' ys l''
      → Gains l (xs ++ ys) l''
  Gains-then l l' l'' xs ys (h, a) (h', a') = (
    h'
        ∙ ap (λ t. t ++ entities ys) h
        ∙ append_assoc l.handled (entities xs) (entities ys)
        ∙ ap (λ t. l.handled ++ t) (sym (entities-append xs ys)),
    a'
        ∙ ap (λ t. t ++ well_handled ys) a
        ∙ append_assoc l.acked (well_handled xs) (well_handled ys)
        ∙ ap (λ t. l.acked ++ t) (sym (well_handled-append xs ys)),
  )

  streams-Gains :
      (msgs : List (List Message)) (l : Listener T)
      → Gains l (concat msgs) (handle_streams codec handler msgs l)
  unfolding handle_streams
  streams-Gains [] l = (sym (append-nil l.handled), sym (append-nil l.acked))
  streams-Gains (msgs ∷ rest) l =
      let l' = handle_messages codec handler msgs l in
      Gains-then l l' _ msgs (concat rest) (messages-Gains msgs l) (streams-Gains rest l')

  -- Whatever Redis answers, and until it is stopped, a listener gives its handler each message that it reads
  -- and that can be converted, in order, and acknowledges exactly those that the handler takes
  -- without an error; a failure does not keep it from those behind it.
  pub listen-Gains :
      (rounds : List Round) (l : Listener T)
      → ((listen codec handler rounds l).handled ≡ l.handled ++ entities (messages_read rounds))
        × ((listen codec handler rounds l).acked ≡ l.acked ++ well_handled (messages_read rounds))
  unfolding listen handle_reply
  listen-Gains [] l = (sym (append-nil l.handled), sym (append-nil l.acked))
  listen-Gains (stopped ∷ rounds) l = (sym (append-nil l.handled), sym (append-nil l.acked))
  listen-Gains (answered (streams msgs) ∷ rounds) l =
      let l' = handle_streams codec handler msgs l in
      Gains-then l l' _ (concat msgs) (messages_read rounds) (streams-Gains msgs l)
        (listen-Gains rounds l')
  listen-Gains (answered no_message ∷ rounds) l = listen-Gains rounds l
  listen-Gains (answered read_failed ∷ rounds) l = listen-Gains rounds l
