-- ===== src/Ginx/Tests.antt =====
-- ginx/: requests for a greeting.
use g_micor.Base.{ℕ, ◌≡◌, refl, false, Bool, none, some, ◌⊎◌, inl, List, [], ◌∷◌}
use g_micor.Base.Int.{negsuc}
use g_micor.Base.Bytes.{codes}
use g_micor.Ginx.Answer.{
  ErrorCode, Any, nil, error_code, value, error_body, Context, basic_middleware, get_handler,
  process,
}
use g_micor.Ginx.Answer.Laws.{request_answer}
use g_micor.Ginx.Params.{an_int, str_convert}
use g_micor.Redisx.Simple.{Floats, format_bool, parse_bool}

abbrev floats : Floats Bool
floats = record { format = format_bool; parse = parse_bool }

minus_seven : str_convert floats (codes "-7") "INT" ≡ some (an_int (negsuc 6))
unfolding str_convert
minus_seven = refl

abbrev fresh_context : Context ℕ
fresh_context = record { written = []; func_result = none; aborted = false }

abbrev not_found : ErrorCode ℕ
not_found = record { model = "user"; code = "E404"; msg = "not found"; details = none }

-- A function with one parameter, that finds nothing.
abbrev find_user : List (Any ℕ) → List (Any ℕ) ⊎ Any ℕ
find_user args = inl (nil ∷ error_code not_found ∷ [])

abbrev id_param : List (Context ℕ → Any ℕ ⊎ Any ℕ)
id_param = (λ c. inl (value 7)) ∷ []

request_answer_example :
    (basic_middleware (get_handler find_user id_param) fresh_context).written
    ≡ (200, error_body not_found) ∷ []
unfolding process
request_answer_example = request_answer find_user id_param fresh_context refl
