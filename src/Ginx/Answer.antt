-- ===== src/Ginx/Answer.antt =====
-- ginx/middleware_basic.go and ginx/handler.go: how a request is answered. Gin's context is what it was given to
-- write, what was set in it and whether it was aborted; the rest of gin's chain of handlers, which gin
-- runs, is an argument of the middleware.
pub mod Laws
use g_micor.Base.{
  ℕ, Bool, true, false, String, Option, none, some, ◌⊎◌, inl, inr, List, [], ◌∷◌, ◌++◌,
  if◌then◌else◌,
}
pub use g_micor.Errorx.{ErrorCode}

-- A value of type any: nil, an ErrorCode, or anything else, other errors among them.
pub data Any (V : Type 0) : Type 0 where
  nil : Any V
  error_code : ErrorCode V → Any V
  value : V → Any V

-- What is written: a Response, an ErrorCode, or a status alone.
pub data Body (V : Type 0) : Type 0 where
  response : (code : String) → (result : Any V) → Body V
  error_body : ErrorCode V → Body V
  no_body : Body V

pub record Context (V : Type 0) : Type 0 where
  pub written : List (ℕ × Body V)
  pub func_result : Option (List (Any V))
  pub aborted : Bool

-- How a handler ends.
pub data Ending (V : Type 0) : Type 0 where
  finished : Context V → Ending V
  panicked : Any V → Context V → Ending V

module _ {V : Type 0} where
  -- `c.JSON`
  abbrev pub json : ℕ → Body V → Context V → Context V
  json status body c = record c { written = c.written ++ (status, body) ∷ [] }

  -- `c.AbortWithStatusJSON` and `c.AbortWithStatus`
  abbrev pub abort_with : ℕ → Body V → Context V → Context V
  abort_with status body c = record c { written = c.written ++ (status, body) ∷ []; aborted = true }

  abbrev pub is_written : Context V → Bool
  is_written c = elim c.written [ [] ↦ false | w ∷ ws ↦ true ]

  -- What a caller is told of a system error.
  abbrev pub system_error : ErrorCode V
  system_error = record { model = ""; code = "F000"; msg = "请联系管理员"; details = none }

  -- `wrapError`
  unfoldable pub wrap_error : Any V → Bool → Context V → Context V
  wrap_error (error_code e) is_panic c = abort_with 200 (error_body e) c
  wrap_error a is_panic c =
      if is_panic
      then abort_with 500 (error_body system_error) c
      else abort_with 200 (error_body system_error) c

  -- The answer from the results of the function: exactly two, the second of them an error or nil.
  unfoldable pub wrap_results : List (Any V) → Context V → Context V
  unfolding wrap_error
  wrap_results (result ∷ nil ∷ []) c = json 200 (response "S000" result) c
  wrap_results (result ∷ err ∷ []) c = wrap_error err false c
  wrap_results results c = abort_with 500 no_body c

  -- `wrapResponse`
  unfoldable pub wrap_response : Context V → Context V
  unfolding wrap_results
  wrap_response c = if is_written c then c else elim c.func_result [
    | none ↦ json 200 (response "S000" nil) c
    | some results ↦ wrap_results results c
  ]

  -- The end of a request: the recovery of a panic, or the answer.
  unfoldable pub end_request : Ending V → Context V
  unfolding wrap_response wrap_error
  end_request (panicked a c) = wrap_error a true c
  end_request (finished c) = wrap_response c

  -- `BasicMiddleware` around the rest of the chain.
  unfoldable pub basic_middleware : (Context V → Ending V) → Context V → Context V
  unfolding end_request
  basic_middleware next c = end_request (next c)

  -- `handlerConvert` of one handler: its context and its error, nil if it has none.
  unfoldable pub handler_convert : (Context V → Context V × Any V) → Context V → Context V
  unfolding wrap_error
  handler_convert handler c =
      let (c', err) = handler c in
      elim err [
        | nil ↦ c'
        | error_code e ↦ wrap_error (error_code e) false c'
        | value v ↦ wrap_error (value v) false c'
      ]

  -- The parameters of a call in order; an error, the right side, ends the loop.
  unfoldable pub get_params : List (Context V → Any V ⊎ Any V) → Context V → List (Any V) ⊎ Any V
  get_params [] c = inl []
  get_params (param ∷ params) c = elim (param c) [
    | inr e ↦ inr e
    | inl arg ↦ elim (get_params params c) [ inr e ↦ inr e | inl args ↦ inl (arg ∷ args) ]
  ]

  -- `process`: an error of a parameter is a panic, on the right side, as is a panic of the function.
  unfoldable pub process :
      (List (Any V) → List (Any V) ⊎ Any V)
      → List (Context V → Any V ⊎ Any V)
      → Context V
      → List (Any V) ⊎ Any V
  unfolding get_params
  process fun params c = elim (get_params params c) [ inr e ↦ inr e | inl args ↦ fun args ]

  -- The results are set in the context.
  abbrev pub set_results : List (Any V) ⊎ Any V → Context V → Ending V
  set_results (inr a) c = panicked a c
  set_results (inl results) c = finished (record c { func_result = some results })

  -- `getHandler`
  unfoldable pub get_handler :
      (List (Any V) → List (Any V) ⊎ Any V)
      → List (Context V → Any V ⊎ Any V)
      → Context V
      → Ending V
  unfolding process
  get_handler fun params c = set_results (process fun params c) c
