-- ===== src/Engine/Samples.antt =====
-- Test data: an engine with a tokenizer of one token for each character and the backend of the tests.
use Prim.Native.String.{String}
use Prim.Native.Char.{code}
use hetero_paged_infer.Prelude.{ℕ, none, List, [], ◌∷◌}
use hetero_paged_infer.Prelude.Float.{fixed_point}
use hetero_paged_infer.Prelude.Results.{ok}
use hetero_paged_infer.Config.{default_config}
use hetero_paged_infer.Types.Request.{new_request, default_params}
use hetero_paged_infer.Scheduler.Accounts.{adds, cancels, SchedulerCall, calls, start}
use hetero_paged_infer.Pipeline.Mock.{MockGpuExecutor}
use hetero_paged_infer.Tokenizer.{Tokenizer}
use hetero_paged_infer.Engine.{InferenceEngine}

abbrev pub codes : String → List ℕ
codes String.[] = []
codes (String.◌∷◌ c s) = code c ∷ codes s

-- A decoder without state, whose tokens all decode to a dot.
abbrev pub dots : Tokenizer (Unit {0})
dots = record {
  try_encode = λ text. ok (codes text);
  try_decode = λ tokens. ok "...";
  vocab_size = 100;
  eos_token_id = 2;
  create_decoder = tt;
  push = λ d token. (ok none, d);
  finish = λ d. (ok none, d);
}

abbrev pub one_cancelled : List SchedulerCall
one_cancelled =
    adds (new_request 1 (5 ∷ 6 ∷ []) default_params)
    ∷ adds (new_request 2 (7 ∷ []) default_params)
    ∷ cancels 1
    ∷ []

abbrev pub engine : InferenceEngine (Unit {0}) MockGpuExecutor
engine = record {
  config = default_config;
  scheduler = (calls fixed_point (start default_config) one_cancelled).scheduler;
  backend = record { config = default_config; vocab_size = 1000; token_counter = 100 };
  max_retry_attempts = 2;
  decoders = (1, tt) ∷ (2, tt) ∷ [];
  eos_token_id = 2;
  total_requests = 2;
  completed_requests_count = 0;
  failed_requests_count = 0;
  total_tokens_generated = 0;
  next_request_id = 3;
}
