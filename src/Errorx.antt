-- ===== src/Errorx.antt =====
-- errorx/err.go: the errors of a business, and how Go looks for one in a chain of errors.
use g_micor.Base.{String, Option, none, some}

pub record ErrorCode (V : Type 0) : Type 0 where
  pub model : String
  pub code : String
  pub msg : String
  pub details : Option V

-- An error: an ErrorCode or a pointer to one, an error of another type by its text, or a text with the
-- error that it wraps.
pub data GoError (V : Type 0) : Type 0 where
  error_code : ErrorCode V → GoError V
  error_code_pointer : ErrorCode V → GoError V
  plain : (text : String) → GoError V
  wrapped : (text : String) → GoError V → GoError V

module _ {V : Type 0} where
  -- `errors.As` for a variable of type ErrorCode, and for one of type *ErrorCode.
  abbrev pub as_error_code : GoError V → Option (ErrorCode V)
  as_error_code (error_code e) = some e
  as_error_code (error_code_pointer e) = none
  as_error_code (plain text) = none
  as_error_code (wrapped text err) = as_error_code err

  abbrev pub as_error_code_pointer : GoError V → Option (ErrorCode V)
  as_error_code_pointer (error_code e) = none
  as_error_code_pointer (error_code_pointer e) = some e
  as_error_code_pointer (plain text) = none
  as_error_code_pointer (wrapped text err) = as_error_code_pointer err

  -- `err.Error()`; an ErrorCode's is its JSON.
  abbrev pub error_text : (ErrorCode V → String) → GoError V → String
  error_text to_json (error_code e) = to_json e
  error_text to_json (error_code_pointer e) = to_json e
  error_text to_json (plain text) = text
  error_text to_json (wrapped text err) = text
