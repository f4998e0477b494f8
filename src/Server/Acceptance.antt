-- ===== src/Server/Acceptance.antt =====
-- src/server.rs: the requests that the preparation lets through, and the errors of the others.
use hetero_paged_infer.Prelude.Lists.{is_empty}
use hetero_paged_infer.Config.{EngineConfig, is_blank}
use hetero_paged_infer.Error.{EngineError}
use hetero_paged_infer.Server.Prepare.{
  check_messages, requested_params, unwrap_or, CompletionRequest, ChatCompletionRequest,
  prepare_completion_request, generation_params, prepare_chat_request, prepared,
  PreparedGenerationRequest, or_bad_request, ChatMessage, validate_prompt, candidate_count,
  resolve_model, check_roles,
}
use hetero_paged_infer.Server.Params.{
  stop_sequences, StopSequence, count, switch, LogprobsParam, UnsupportedParams,
  reject_unsupported_params, logprobs_param,
}
use hetero_paged_infer.Prelude.Float.{F32, FloatOps}
use hetero_paged_infer.Server.Errors.{status_of, ApiError}
use Prim.Native.String.{String}
use package.text.Mathlib.TextEquality.{eq_iff}
use package.text.Mathlib.Text
use hetero_paged_infer.Server.Outcomes.{
  Outcome, gives, fails, Anything, Outcome-bind, fail_if-Outcome, of_error,
}
use hetero_paged_infer.Types.Request.{validate, GenerationParams}
use hetero_paged_infer.Engine.Accounts.{both_branches}
use hetero_paged_infer.Prelude.{
  ℕ, ◌≤◌, ◌≡◌, ◌⊎◌, inl, inr, refl, Bool, true, false, Option, none, some, List, [], ◌∷◌, arith,
}
use hetero_paged_infer.Prelude.Tests.{◌==◌, leb, ltb, Bool-cases}
use hetero_paged_infer.Prelude.Results.{Result, ok, err, fail_if, ◌>>◌}

-- The error is the client's: its status is 400, or 404 for a model that is not served.
abbrev pub ClientError : ApiError → Type 0
ClientError x = (status_of x ≡ 400) ⊎ (status_of x ≡ 404)

-- What the engine is asked for is served by this configuration and within the limits.
pub record Acceptable (ops : FloatOps) (c : EngineConfig) (p : PreparedGenerationRequest)
    : Type 0 where
  pub model : p.model ≡ c.serving.model_name
  pub prompt : is_blank p.prompt ≡ false
  pub params : validate ops p.params ≡ ok tt
  pub at_least_one : 1 ≤ p.n
  pub at_most : p.n ≤ 16

reject-Outcome :
    {J : Type 0} (array_len : J → Option ℕ) (ops : FloatOps) (p : UnsupportedParams J)
    → Outcome ClientError Anything (reject_unsupported_params array_len ops p)
unfolding reject_unsupported_params
reject-Outcome array_len ops p = of_error (λ x h. ground arith)

resolve_model-Outcome :
    (c : EngineConfig) (requested : Option String)
    → Outcome ClientError (λ (m : String). m ≡ c.serving.model_name) (resolve_model c requested)
unfolding resolve_model
resolve_model-Outcome c none = gives refl
resolve_model-Outcome c (some name) = elim (Bool-cases (Text.◌==◌ name c.serving.model_name)) [
  | inl e ↦ rw e (gives ((eq_iff name c.serving.model_name).0 e))
  | inr e ↦ rw e (fails (inr refl))
]

logprobs_param-Outcome :
    (p : Option LogprobsParam) → Outcome ClientError Anything (logprobs_param p)
unfolding logprobs_param
logprobs_param-Outcome none = gives tt
logprobs_param-Outcome (some (switch true)) = gives tt
logprobs_param-Outcome (some (switch false)) = gives tt
logprobs_param-Outcome (some (count k)) =
    both_branches (Outcome ClientError Anything) (k == 0) _ _ (gives tt)
      (both_branches (Outcome ClientError Anything) (leb k 5) _ _ (gives tt) (fails (inl refl)))

validate_prompt-Outcome :
    (prompt : String)
    → Outcome ClientError (λ (s : String). is_blank s ≡ false) (validate_prompt prompt)
unfolding validate_prompt
validate_prompt-Outcome prompt = elim (Bool-cases (is_blank prompt)) [
  | inl e ↦ rw e (fails (inl refl))
  | inr e ↦ rw e (gives e)
]

candidate_count-Outcome :
    (requested : Option ℕ)
    → Outcome ClientError (λ (n : ℕ). (1 ≤ n) × (n ≤ 16)) (candidate_count requested)
unfolding candidate_count
candidate_count-Outcome requested =
    let m = unwrap_or requested 1 in
    fail_if-Outcome _ (m == 0) _ (fail_if (ltb 16 m) _ >> ok m) (inl refl) (λ h.
      fail_if-Outcome _ (ltb 16 m) _ (ok m) (inl refl)
        (λ g. gives (ground (arith, h), ground (arith, g))))

check_roles-Outcome :
    (messages : List ChatMessage) → Outcome ClientError Anything (check_roles messages)
unfolding check_roles
check_roles-Outcome [] = gives tt
check_roles-Outcome (m ∷ messages) =
    fail_if-Outcome Anything _ _ _ (inl refl) (λ h. check_roles-Outcome messages)

check_messages-Outcome :
    (messages : List ChatMessage) → Outcome ClientError Anything (check_messages messages)
unfolding check_messages
check_messages-Outcome messages =
    fail_if-Outcome Anything (is_empty messages) _ (check_roles messages) (inl refl)
      (λ h. check_roles-Outcome messages)

or_bad_request-Outcome :
    (r : Result EngineError (Unit {0}))
    → Outcome ClientError (λ (t : Unit {0}). r ≡ ok tt) (or_bad_request r)
or_bad_request-Outcome (ok t) = gives refl
or_bad_request-Outcome (err e) = fails (inl refl)

generation_params-Outcome :
    (ops : FloatOps) (max_tokens : Option ℕ) (temperature top_p : Option F32) (stop : List String)
    (logprobs priority : Option ℕ)
    → Outcome ClientError
        (λ (p : GenerationParams). validate ops p ≡ ok tt)
        (generation_params ops max_tokens temperature top_p stop logprobs priority)
unfolding generation_params
generation_params-Outcome ops max_tokens temperature top_p stop logprobs priority =
    let params = requested_params max_tokens temperature top_p stop logprobs priority in
    Outcome-bind ClientError _ _ _ (λ t. ok params) (or_bad_request-Outcome (validate ops params))
      (λ t h. gives h)

prepared-Outcome :
    (ops : FloatOps) (c : EngineConfig) (requested : Option String) (prompt : String)
    (max_tokens : Option ℕ) (temperature top_p : Option F32) (stop : Option StopSequence)
    (logprobs : Option LogprobsParam) (priority : Option ℕ) (stream : Option Bool) (n : Option ℕ)
    → is_blank prompt ≡ false
    → Outcome ClientError (Acceptable ops c) (
        prepared ops c requested prompt max_tokens temperature top_p stop logprobs priority stream
          n)
unfolding prepared
prepared-Outcome ops c requested prompt max_tokens temperature top_p stop logprobs priority stream n
      h =
    unfold prepared in
    Outcome-bind ClientError _ _ _ _ (resolve_model-Outcome c requested) (λ model hm.
      Outcome-bind ClientError _ _ _ _ (logprobs_param-Outcome logprobs) (λ k hk.
        Outcome-bind ClientError _ _ _ _
          (generation_params-Outcome ops max_tokens temperature top_p (stop_sequences stop) k
            priority)
          (λ params hp. Outcome-bind ClientError _ _ _ _ (candidate_count-Outcome n) (λ m hn.
            gives (record {
              model = hm;
              prompt = h;
              params = hp;
              at_least_one = hn.0;
              at_most = hn.1;
            })))))

module _ {J : Type 0} (array_len : J → Option ℕ) (ops : FloatOps) (c : EngineConfig) where
  -- The body of a completion request either gives a prompt that is not blank, parameters that pass
  -- `GenerationParams::validate`, 1 to 16 candidates and the configured model, or an error of the
  -- client: status 400 or 404.
  pub prepare_completion_request-Outcome :
      (r : CompletionRequest J)
      → Outcome ClientError (Acceptable ops c) (prepare_completion_request array_len ops c r)
  unfolding prepare_completion_request
  prepare_completion_request-Outcome r =
      unfold prepare_completion_request in
      Outcome-bind ClientError _ _ _ _ (reject-Outcome array_len ops r.unsupported) (λ t ht.
        Outcome-bind ClientError _ _ _ _ (validate_prompt-Outcome r.prompt)
          (λ prompt h. prepared-Outcome ops c _ prompt _ _ _ _ _ _ _ _ h))

  -- The body of a chat request either gives a prompt that is not blank, parameters that pass
  -- `GenerationParams::validate`, 1 to 16 candidates and the configured model, or an error of the
  -- client: status 400 or 404.
  pub prepare_chat_request-Outcome :
      (r : ChatCompletionRequest J)
      → Outcome ClientError (Acceptable ops c) (prepare_chat_request array_len ops c r)
  unfolding prepare_chat_request
  prepare_chat_request-Outcome r =
      unfold prepare_chat_request in
      Outcome-bind ClientError _ _ _ _ (reject-Outcome array_len ops r.unsupported) (λ t ht.
        Outcome-bind ClientError _ _ _ _ (check_messages-Outcome r.messages) (λ u hu.
          Outcome-bind ClientError _ _ _ _ (validate_prompt-Outcome _)
            (λ prompt h. prepared-Outcome ops c _ prompt _ _ _ _ _ _ _ _ h)))
