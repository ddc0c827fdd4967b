-- ===== src/Logx/Tests.antt =====
-- logx/openObserver.go: two entries, one of them sent.
use g_micor.Base.{
  ℕ, String, ◌≡◌, refl, Bool, true, arith, is_some, ltb, if◌then◌else◌, none, some, List, [], ◌∷◌,
  ◌++◌, Dict, lookup, insert, elem,
}
use g_micor.Logx.Entry.{
  Record, errors_to_text, add_attrs, add_all, handle_record, basic_fields, last_attr,
  handle_record-lookup,
}
use g_micor.Logx.{
  OpenObserveHandler, handle, flush, send_batch, Reach, start, handles, flushes, sends, kept,
  Reach-kept,
}

-- A value is an error if it is below 5; its text is 8.
abbrev text_of : ℕ → ℕ
text_of n = if ltb n 5 then 8 else n

abbrev some_level : Dict ℕ
some_level = ("level", 7) ∷ ("err", 3) ∷ []

abbrev no_level : Dict ℕ
no_level = ("err", 4) ∷ []

abbrev all_marshal : List (Dict ℕ) → Bool
all_marshal batch = true

abbrev one_sent : OpenObserveHandler (Dict ℕ)
one_sent = record {
  buffer = no_level ∷ [];
  in_flight = [];
  sent = ((("level", 7) ∷ ("err", 8) ∷ []) ∷ []) ∷ [];
  sent_empty = [];
  failed = [];
}

one_sent_reached : Reach (errors_to_text text_of) all_marshal (some_level ∷ no_level ∷ []) one_sent
unfolding handle flush send_batch errors_to_text
one_sent_reached =
    sends 0 (some_level ∷ []) true (handles no_level (flushes (handles some_level start))) refl

has_key-errors_to_text :
    (key : String) (entry : Dict ℕ)
    → is_some (lookup key (errors_to_text text_of entry)) ≡ is_some (lookup key entry)
unfolding errors_to_text lookup
has_key-errors_to_text key [] = refl
has_key-errors_to_text key ((name, value) ∷ entry) =
    ground (arith, has_key-errors_to_text key entry)

Reach-kept_example : kept (λ e. is_some (lookup "level" e)) one_sent ≡ 1
unfolding lookup
Reach-kept_example =
    Reach-kept (λ e. is_some (lookup "level" e)) (has_key-errors_to_text "level") one_sent_reached

-- A record whose own attribute has the name of one of its context's, and of a field.
abbrev record_of_user : Record String
record_of_user = record {
  level_name = "INFO";
  message = "hello";
  source = none;
  attrs = ("traceID", "none") ∷ ("level", "7") ∷ [];
}

abbrev empty_buffer : OpenObserveHandler (Dict String)
empty_buffer = record { buffer = []; in_flight = []; sent = []; sent_empty = []; failed = [] }

abbrev traced : List (String × String)
traced = ("traceID", "t1") ∷ []

level_replaced :
    last_attr "level" traced (last_attr "level" record_of_user.attrs (some "INFO")) ≡ some "7"
unfolding last_attr
level_replaced = refl

handle_record-lookup_example :
    (entry : Dict String) × ((handle_record true true traced record_of_user empty_buffer).1.buffer
      ≡ [] ++ entry ∷ [])
    × ((key : String)
        → lookup key entry
          ≡ last_attr key traced
              (last_attr key record_of_user.attrs (lookup key (basic_fields true record_of_user))))
unfolding add_all add_attrs lookup insert elem
handle_record-lookup_example =
    handle_record-lookup true traced traced record_of_user empty_buffer (refl, tt) (λ key. refl)
