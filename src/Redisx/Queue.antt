-- ===== src/Redisx/Queue.antt =====
-- redisx/mq.go: a queue on a stream of Redis. Redis' answers to a listener are an argument, one for each round of
-- its loop, and so are Protobuf's messages and the handler, which returns with an error or without one;
-- if it panics, the listener ends.
pub mod Delivery
pub mod Published
mod Tests
use g_micor.Base.{
  ℕ, Bool, true, false, String, Option, none, some, List, [], ◌∷◌, ◌++◌, str_eq, Dict, lookup,
  insert, if◌then◌else◌,
}
use g_micor.Base.Bytes.{Bytes}

-- A value of a field of an entry: a text, or a value of another type.
pub data FieldValue : Type 0 where
  text : Bytes → FieldValue
  other : FieldValue

-- An entry of the stream.
pub record Message : Type 0 where
  pub id : String
  pub values : Dict FieldValue

-- What `XReadGroup` answers: the messages of each stream, nothing for 20 seconds, or an error.
pub data Reply : Type 0 where
  streams : List (List Message) → Reply
  no_message : Reply
  read_failed : Reply

-- A round of the loop: `stopCh` is closed, or a reply is read.
pub data Round : Type 0 where
  stopped : Round
  answered : Reply → Round

-- Protobuf's messages of a type; `none` is an error.
pub record Codec (T : Type 0) : Type 0 where
  pub marshal : T → Option Bytes
  pub unmarshal : Bytes → Option T

-- `handled` are the entities that the handler was given, `acked` the ids of the messages that were acknowledged.
pub record Listener (T : Type 0) : Type 0 where
  pub handled : List T
  pub acked : List String

-- `Listen` for a group that is there already is a panic, `none`.
unfoldable pub add_group : String → Dict Bool → Option (Dict Bool)
add_group group groups = elim (lookup group groups) [
  | some old ↦ none
  | none ↦ some (insert group true groups)
]

module _ {T : Type 0} (codec : Codec T) where
  -- `Publish` up to the command: the values of the entry, or `none`, the error of the conversion.
  unfoldable pub publish : T → Option (Dict FieldValue)
  publish msg = elim (codec.marshal msg) [
    | none ↦ none
    | some bytes ↦ some (("data", text bytes) ∷ [])
  ]

  -- The entity of a message, or `none` if it has no text of the right form.
  unfoldable pub entity_of : Message → Option T
  entity_of msg = elim (lookup "data" msg.values) [
    | none ↦ none
    | some other ↦ none
    | some (text bytes) ↦ codec.unmarshal bytes
  ]

  module _ (handler : T → Bool) where
    -- The handler is given an entity, and the message is acknowledged if it went well.
    unfoldable pub handle_entity : Option T → String → Listener T → Listener T
    handle_entity none id l = l
    handle_entity (some entity) id l =
        if handler entity
        then record { handled = l.handled ++ entity ∷ []; acked = l.acked ++ id ∷ [] }
        else record l { handled = l.handled ++ entity ∷ [] }

    -- The body of the loop over messages: what cannot be converted is passed over.
    unfoldable pub handle_message : Message → Listener T → Listener T
    unfolding entity_of handle_entity
    handle_message msg l = handle_entity (entity_of msg) msg.id l

    -- The loop over the messages of a stream, and the one over streams.
    unfoldable pub handle_messages : List Message → Listener T → Listener T
    unfolding handle_message
    handle_messages [] l = l
    handle_messages (msg ∷ msgs) l = handle_messages msgs (handle_message msg l)

    unfoldable pub handle_streams : List (List Message) → Listener T → Listener T
    unfolding handle_messages
    handle_streams [] l = l
    handle_streams (msgs ∷ rest) l = handle_streams rest (handle_messages msgs l)

    unfoldable pub handle_reply : Reply → Listener T → Listener T
    unfolding handle_streams
    handle_reply (streams msgs) l = handle_streams msgs l
    handle_reply no_message l = l
    handle_reply read_failed l = l

    -- The loop of `Listen`, over the rounds that there are.
    unfoldable pub listen : List Round → Listener T → Listener T
    unfolding handle_reply
    listen [] l = l
    listen (stopped ∷ rounds) l = l
    listen (answered reply ∷ rounds) l = listen rounds (handle_reply reply l)
