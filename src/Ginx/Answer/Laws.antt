-- ===== src/Ginx/Answer/Laws.antt =====
-- ginx/middleware_basic.go and ginx/handler.go: every request is answered, and how.
use g_micor.Base.{
  ℕ, ◌≤◌, ◌≡◌, ◌≢◌, refl, ap, subst, sym, ◌∙◌, Bool, true, Option, none, some, ◌⊎◌, inl, inr, List,
  [], ◌∷◌, ◌++◌, length, arith,
}
use g_micor.Ginx.Answer.{
  Any, nil, error_code, value, Body, response, error_body, no_body, Context, Ending, finished,
  panicked, system_error, wrap_error, wrap_results, wrap_response, basic_middleware, end_request,
  process, set_results, get_handler,
}

append-ne-nil : {A : Type 0} (xs : List A) (x : A) → (xs ++ x ∷ []) ≢ []
append-ne-nil [] x e = cc
append-ne-nil (y ∷ xs) x e = cc

module _ {V : Type 0} where
  -- The answer to what a function returned or panicked with.
  abbrev pub answer : List (Any V) ⊎ Any V → ℕ × Body V
  answer (inr (error_code e)) = (200, error_body e)
  answer (inr a) = (500, error_body system_error)
  answer (inl (result ∷ nil ∷ [])) = (200, response "S000" result)
  answer (inl (result ∷ error_code e ∷ [])) = (200, error_body e)
  answer (inl (result ∷ value v ∷ [])) = (200, error_body system_error)
  answer (inl results) = (500, no_body)

  wrap_error-written :
      (a : Any V) (c : Context V) → (wrap_error a true c).written ≡ c.written ++ answer (inr a) ∷ []
  unfolding wrap_error
  wrap_error-written nil c = refl
  wrap_error-written (error_code e) c = refl
  wrap_error-written (value v) c = refl

  wrap_results-written :
      (results : List (Any V)) (c : Context V)
      → (wrap_results results c).written ≡ c.written ++ answer (inl results) ∷ []
  unfolding wrap_results wrap_error
  wrap_results-written [] c = refl
  wrap_results-written (r ∷ []) c = refl
  wrap_results-written (r ∷ nil ∷ []) c = refl
  wrap_results-written (r ∷ error_code e ∷ []) c = refl
  wrap_results-written (r ∷ value v ∷ []) c = refl
  wrap_results-written (r ∷ nil ∷ t ∷ rest) c = refl
  wrap_results-written (r ∷ error_code e ∷ t ∷ rest) c = refl
  wrap_results-written (r ∷ value v ∷ t ∷ rest) c = refl

  -- A context in which nothing is written yet.
  abbrev fresh : Option (List (Any V)) → Bool → Context V
  fresh results aborted = record { written = []; func_result = results; aborted = aborted }

  answers_once :
      (r : List (Any V) ⊎ Any V) (results : Option (List (Any V))) (aborted : Bool)
      → (end_request (set_results r (fresh results aborted))).written ≡ answer r ∷ []
  unfolding end_request wrap_response
  answers_once (inr a) results aborted = wrap_error-written a (fresh results aborted)
  answers_once (inl rs) results aborted = wrap_results-written rs (fresh (some rs) aborted)

  -- A request that nobody has answered yet gets exactly one answer, the one to what its parameters
  -- and its function came to: a business error is passed on, and of any other error nothing is told.
  pub request_answer :
      (fun : List (Any V) → List (Any V) ⊎ Any V) (params : List (Context V → Any V ⊎ Any V))
      (c : Context V)
      → c.written ≡ []
      → (basic_middleware (get_handler fun params) c).written ≡ answer (process fun params c) ∷ []
  unfolding basic_middleware get_handler
  request_answer fun params c h =
      subst
        (λ ws.
          (end_request (set_results (process fun params c) (record c { written = ws }))).written
          ≡ answer (process fun params c) ∷ [])
        (sym h) (answers_once (process fun params c) c.func_result c.aborted)

  -- A chain that ended.
  wrap_response-written :
      (ws : List (ℕ × Body V)) (results : Option (List (Any V))) (aborted : Bool)
      → let c : Context V = record { written = ws; func_result = results; aborted = aborted } in
        ((wrap_response c).written ≢ []) × (length ws ≤ 1 → length (wrap_response c).written ≡ 1)
  unfolding wrap_response
  wrap_response-written [] none aborted = ((λ e. cc), λ h. refl)
  wrap_response-written [] (some rs) aborted =
      let written = wrap_results-written rs (fresh (some rs) aborted) in
      ((λ e. let none_there = sym written ∙ e in cc), λ h. ap length written)
  wrap_response-written (w ∷ ws) results aborted = ((λ e. cc), λ h. omega arith)

  finished_inj : {c c' : Context V} → finished c ≡ finished c' → c ≡ c'
  finished_inj e = cc

  end_request-written :
      (e : Ending V)
      → ((end_request e).written ≢ [])
        × ((c' : Context V)
            → e ≡ finished c'
            → length c'.written ≤ 1
            → length (end_request e).written ≡ 1)
  unfolding end_request
  end_request-written (panicked a c) = (
    (λ e. append-ne-nil c.written (answer (inr a)) (sym (wrap_error-written a c) ∙ e)),
    λ c' e. absurd cc,
  )
  end_request-written (finished c) =
      let (some_there, once) = wrap_response-written c.written c.func_result c.aborted in
      (some_there, λ c' e h. once (subst (λ x. length x.written ≤ 1) (sym (finished_inj e)) h))

  -- Whatever the rest of the chain does, the request is answered; once, if the chain ended and wrote
  -- at most one answer.
  pub one_answer :
      (next : Context V → Ending V) (c : Context V)
      → ((basic_middleware next c).written ≢ [])
        × ((c' : Context V)
            → next c ≡ finished c'
            → length c'.written ≤ 1
            → length (basic_middleware next c).written ≡ 1)
  unfolding basic_middleware
  one_answer next c = end_request-written (next c)
