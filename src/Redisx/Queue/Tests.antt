-- ===== src/Redisx/Queue/Tests.antt =====
-- redisx/mq.go: two published messages, of which the handler refuses the second.
use g_micor.Base.{
  ℕ, ◌≡◌, refl, Bool, Option, none, some, some_inj, sym, ap, List, [], ◌∷◌, ◌==◌, lookup,
}
use g_micor.Base.Bytes.{Bytes}
use g_micor.Redisx.Queue.{
  text, other, Message, streams, no_message, read_failed, Round, stopped, answered, Codec, Listener,
  publish, entity_of, listen,
}
use g_micor.Redisx.Queue.Delivery.{listen-Gains}
use g_micor.Redisx.Queue.Published.{published_handled}

abbrev one_byte : Bytes → Option ℕ
one_byte [] = none
one_byte (b ∷ rest) = some b

abbrev byte_codec : Codec ℕ
byte_codec = record { marshal = λ n. some (n ∷ []); unmarshal = one_byte }

abbrev message : ℕ → Message
message n = record { id = "m"; values = ("data", text (n ∷ [])) ∷ [] }

abbrev broken : Message
broken = record { id = "b"; values = ("data", other) ∷ [] }

abbrev rounds : List Round
rounds =
    answered no_message
    ∷ answered (streams ((message 1 ∷ []) ∷ []))
    ∷ answered read_failed
    ∷ answered (streams ((message 2 ∷ []) ∷ []))
    ∷ stopped
    ∷ answered (streams ((message 3 ∷ []) ∷ []))
    ∷ []

abbrev is_one : ℕ → Bool
is_one n = n == 1

abbrev fresh : Listener ℕ
fresh = record { handled = []; acked = [] }

lossless : (n : ℕ) (bytes : Bytes) → some (n ∷ []) ≡ some bytes → one_byte bytes ≡ some n
lossless n bytes h = ap one_byte (sym (some_inj h))

published_handled_example :
    listen byte_codec is_one rounds fresh ≡ record { handled = 1 ∷ 2 ∷ []; acked = "m" ∷ [] }
unfolding publish
published_handled_example =
    published_handled byte_codec is_one lossless rounds (1 ∷ 2 ∷ []) (refl, (refl, tt))

listen-Gains_example :
    let some_rounds = answered (streams ((broken ∷ message 1 ∷ []) ∷ [])) ∷ [] in
    ((listen byte_codec is_one some_rounds fresh).handled ≡ 1 ∷ [])
    × ((listen byte_codec is_one some_rounds fresh).acked ≡ "m" ∷ [])
unfolding entity_of lookup
listen-Gains_example =
    listen-Gains byte_codec is_one (answered (streams ((broken ∷ message 1 ∷ []) ∷ [])) ∷ []) fresh
