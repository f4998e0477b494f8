-- ===== src/Engine/Tokens.antt =====
-- src/engine.rs, `step_events`: what its two loops over the tokens of a step keep of the engine.
use Prim.Native.String.{String}
use hetero_paged_infer.Prelude.{◌∙◌, ℕ, ◌≡◌, refl, Option, none, some, List, [], ◌∷◌}
use hetero_paged_infer.Prelude.Results.{Result, ok, err}
use hetero_paged_infer.SeqMap.{lookup}
use hetero_paged_infer.Error.{decode_failed}
use hetero_paged_infer.Types.Request.{TokenLogprobs}
use hetero_paged_infer.Scheduler.Invariant.{Valid}
use hetero_paged_infer.Scheduler.Conservation.{Keeps, Keeps-refl, Keeps-trans}
use hetero_paged_infer.Scheduler.Progress.{
  complete_by_stop_sequence-Keeps, fail_by_request_id-Keeps,
}
use hetero_paged_infer.Tokenizer.{Tokenizer}
use hetero_paged_infer.Engine.{InferenceEngine}
use hetero_paged_infer.Engine.Steps.{stop_each, pushed, push_token_of, push_tokens}

module _ {D S : Type 0} (tokenizer : Tokenizer D) where
  pub stop_each-Keeps :
      (stops : List (ℕ × ℕ)) (e : InferenceEngine D S)
      → Valid e.scheduler
      → Keeps e.scheduler (stop_each stops e).scheduler
  unfolding stop_each
  stop_each-Keeps [] e v = Keeps-refl e.scheduler v
  stop_each-Keeps ((request_id, keep) ∷ stops) e v =
      let k = complete_by_stop_sequence-Keeps e.scheduler request_id keep v in
      Keeps-trans e.scheduler _ _ k (stop_each-Keeps stops _ k.valid)

  pushed-Keeps :
      (request_id : ℕ) (lp : Option TokenLogprobs) (r : Result String (Option String))
      (e : InferenceEngine D S)
      → Valid e.scheduler
      → Keeps e.scheduler (pushed request_id lp r e).1.scheduler
  unfolding pushed
  pushed-Keeps request_id lp (ok none) e v = Keeps-refl e.scheduler v
  pushed-Keeps request_id lp (ok (some chunk)) e v = Keeps-refl e.scheduler v
  pushed-Keeps request_id lp (err message) e v =
      fail_by_request_id-Keeps e.scheduler request_id (decode_failed message) v

  push_token_of-Keeps :
      (request_id token : ℕ) (decoder : Option D) (e : InferenceEngine D S)
      → Valid e.scheduler
      → Keeps e.scheduler (push_token_of tokenizer request_id token decoder e).1.scheduler
  unfolding push_token_of
  push_token_of-Keeps request_id token none e v = Keeps-refl e.scheduler v
  push_token_of-Keeps request_id token (some decoder) e v = pushed-Keeps request_id _ _ _ v

  pub push_tokens-Keeps :
      (generated : List (ℕ × ℕ)) (e : InferenceEngine D S)
      → Valid e.scheduler
      → Keeps e.scheduler (push_tokens tokenizer generated e).1.scheduler
  unfolding push_tokens
  push_tokens-Keeps [] e v = Keeps-refl e.scheduler v
  push_tokens-Keeps ((request_id, token) ∷ generated) e v =
      let k = push_token_of-Keeps request_id token (lookup request_id e.decoders) e v in
      Keeps-trans e.scheduler _ _ k (push_tokens-Keeps generated _ k.valid)

-- The token that ends a sequence stays what it is.
pub stop_each-eos :
    {D S : Type 0} (stops : List (ℕ × ℕ)) (e : InferenceEngine D S)
    → (stop_each stops e).eos_token_id ≡ e.eos_token_id
unfolding stop_each
stop_each-eos [] e = refl
stop_each-eos ((request_id, keep) ∷ stops) e = stop_each-eos stops _

module _ {D S : Type 0} (tokenizer : Tokenizer D) where
  pushed-eos :
      (request_id : ℕ) (lp : Option TokenLogprobs) (r : Result String (Option String))
      (e : InferenceEngine D S)
      → (pushed request_id lp r e).1.eos_token_id ≡ e.eos_token_id
  unfolding pushed
  pushed-eos request_id lp (ok none) e = refl
  pushed-eos request_id lp (ok (some chunk)) e = refl
  pushed-eos request_id lp (err message) e = refl

  push_token_of-eos :
      (request_id token : ℕ) (decoder : Option D) (e : InferenceEngine D S)
      → (push_token_of tokenizer request_id token decoder e).1.eos_token_id ≡ e.eos_token_id
  unfolding push_token_of
  push_token_of-eos request_id token none e = refl
  push_token_of-eos request_id token (some decoder) e = pushed-eos request_id _ _ _

  pub push_tokens-eos :
      (generated : List (ℕ × ℕ)) (e : InferenceEngine D S)
      → (push_tokens tokenizer generated e).1.eos_token_id ≡ e.eos_token_id
  unfolding push_tokens
  push_tokens-eos [] e = refl
  push_tokens-eos ((request_id, token) ∷ generated) e =
      let d = lookup request_id e.decoders in
      push_tokens-eos generated _ ∙ push_token_of-eos request_id token d e
