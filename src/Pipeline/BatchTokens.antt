-- ===== src/Pipeline/BatchTokens.antt =====
-- src/execution_pipeline.rs, `build_execution_batch`: the tokens of a batch.
use mathlib.Core.List.{append-nil}
use hetero_paged_infer.Prelude.{
  zero, suc, ◌+◌, ◌-◌, ℕ, ◌<◌, ◌≡◌, refl, sym, ◌∙◌, ap, some, none, List, [], ◌∷◌, ◌++◌, map, arith,
}
use hetero_paged_infer.Prelude.Lists.{length, last?}
use hetero_paged_infer.Prelude.Words.{u32_mod, to_u32}
use hetero_paged_infer.Pipeline.Batches.{positions_from}
use hetero_paged_infer.Types.Sequences.{context_len, decode_input_token, Sequence}

-- The prompts of the sequences, one after the other.
abbrev pub prompts : List Sequence → List ℕ
prompts [] = []
prompts (q ∷ qs) = q.request.input_tokens ++ prompts qs

-- The last token of a list, or 0.
abbrev pub last_token : List ℕ → ℕ
last_token [] = 0
last_token (x ∷ []) = x
last_token (x ∷ y ∷ ys) = last_token (y ∷ ys)

-- For each sequence the last token of its prompt and what has been generated.
abbrev pub last_tokens : List Sequence → List ℕ
last_tokens = map (λ q. last_token (q.request.input_tokens ++ q.request.output_tokens))

-- `i`, `i + 1` and so on, `n` numbers
abbrev pub range : ℕ → ℕ → List ℕ
range i zero = []
range i (suc n) = i ∷ range (i + 1) n

-- The tokens of each prompt are numbered from 0.
abbrev pub prompt_positions : List Sequence → List ℕ
prompt_positions [] = []
prompt_positions (q ∷ qs) = range 0 (length q.request.input_tokens) ++ prompt_positions qs

-- The token that a decode sequence is fed stands last in its context.
abbrev pub last_positions : List Sequence → List ℕ
last_positions = map (λ q. context_len q - 1)

pub positions_from-range : (i n : ℕ) → i + n < u32_mod → positions_from i n ≡ range i n
unfolding positions_from
positions_from-range i zero h = refl
positions_from-range i (suc n) h =
    let small : to_u32 i ≡ i = omega (arith, h) in
    cc (small, positions_from-range (i + 1) n (omega (arith, h)))

last?-last_token : (x : ℕ) (xs : List ℕ) → last? (x ∷ xs) ≡ some (last_token (x ∷ xs))
last?-last_token x [] = refl
last?-last_token x (y ∷ ys) = last?-last_token y ys

last_token-append :
    (xs : List ℕ) (y : ℕ) (ys : List ℕ) → last_token (xs ++ y ∷ ys) ≡ last_token (y ∷ ys)
last_token-append [] y ys = refl
last_token-append (x ∷ []) y ys = refl
last_token-append (x ∷ z ∷ xs) y ys = last_token-append (z ∷ xs) y ys

input_token_of :
    (i : ℕ) (input output : List ℕ) (token : ℕ)
    → (elim (last? output) [ some t ↦ some t | none ↦ last? (i ∷ input) ]) ≡ some token
    → token ≡ last_token ((i ∷ input) ++ output)
input_token_of i input [] token h =
    let f : some (last_token (i ∷ input)) ≡ some token = sym (last?-last_token i input) ∙ h in
    let g : token ≡ last_token (i ∷ input) = ground (arith, f) in
    g ∙ ap last_token (sym (append-nil (i ∷ input)))
input_token_of i input (o ∷ output) token h =
    let f : some (last_token (o ∷ output)) ≡ some token =
      ground (arith, h, last?-last_token o output) in
    sym (last_token-append (i ∷ input) o output ∙ ground (arith, f))

-- What `decode_input_token` finds is the last token of the prompt and the output.
pub decode_input_token-last_token :
    (q : Sequence) (input : List ℕ) (token : ℕ)
    → q.request.input_tokens ≡ input
    → 0 < length input
    → decode_input_token q ≡ some token
    → token ≡ last_token (q.request.input_tokens ++ q.request.output_tokens)
unfolding decode_input_token
decode_input_token-last_token q [] token e p h = absurd (omega arith)
decode_input_token-last_token q (i ∷ input) token e p h =
    rw e (input_token_of i input q.request.output_tokens token (rw e at h))
