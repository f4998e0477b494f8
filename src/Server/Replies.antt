-- ===== src/Server/Replies.antt =====
-- src/server.rs: the choices of a response.
use hetero_paged_infer.Pipeline.Retries.{Result-cases}
use hetero_paged_infer.Engine.Accounts.{both_branches}
use hetero_paged_infer.Server.Generation.{GenerationResult}
use hetero_paged_infer.Server.Prepare.{unwrap_or, PreparedGenerationRequest}
use hetero_paged_infer.Server.Streams.{StreamKind}
use hetero_paged_infer.Server.Errors.{ApiError}
use hetero_paged_infer.Server.Answers.{
  generate_many, join_candidates, spawn_candidates, AppState, next_id,
}
use hetero_paged_infer.Server.Handlers.{
  GenerationResponse, Choice, choice_of, choices_from, respond_many, respond_one, event_stream,
  Answered, respond_stream, response, failure, respond_generation, error_reply, Reply,
}
use Prim.Native.String.{String}
use hetero_paged_infer.Prelude.{ℕ, suc, zero, ◌+◌, ◌≡◌, refl, List, [], ◌∷◌, arith, inl, inr}
use hetero_paged_infer.Prelude.Tests.{Bool-cases, ◌==◌, if◌then◌else◌}
use hetero_paged_infer.Prelude.Words.{to_u32}
use hetero_paged_infer.Prelude.Results.{Result, ok, err}

-- What is known of one choice where the candidates have the results `results`: its index is `j` as
-- a u32, and it carries the text and the reason of the result of candidate `j`.
pub record Answers (results : ℕ → Result ApiError GenerationResult) (j : ℕ) (c : Choice)
    : Type 0 where
  pub result : GenerationResult
  pub of_candidate : results j ≡ ok result
  pub index : c.index ≡ to_u32 j
  pub content : c.content ≡ result.text
  pub finish_reason : c.finish_reason ≡ result.finish_reason

-- `choices` has a choice for each of `n` candidates from `i` on, in order.
abbrev pub Answer : (ℕ → Result ApiError GenerationResult) → ℕ → ℕ → List Choice → Type 0
Answer results i zero [] = Unit {0}
Answer results i zero (c ∷ choices) = ⊥
Answer results i (suc n) [] = ⊥
Answer results i (suc n) (c ∷ choices) = Answers results i c × Answer results (i + 1) n choices

-- `gs` are the results of `n` candidates from `i` on.
abbrev Gathered : (ℕ → Result ApiError GenerationResult) → ℕ → ℕ → List GenerationResult → Type 0
Gathered results i zero [] = Unit {0}
Gathered results i zero (g ∷ gs) = ⊥
Gathered results i (suc n) [] = ⊥
Gathered results i (suc n) (g ∷ gs) = (results i ≡ ok g) × Gathered results (i + 1) n gs

module _ (results : ℕ → Result ApiError GenerationResult) where
  joined-Gathered :
      (i n : ℕ) (r : Result ApiError GenerationResult)
      (rest : List (Result ApiError GenerationResult)) (gs : List GenerationResult)
      → results i ≡ r
      → ((hs : List GenerationResult)
          → join_candidates rest ≡ ok hs
          → Gathered results (i + 1) n hs)
      → join_candidates (r ∷ rest) ≡ ok gs
      → Gathered results i (suc n) gs
  unfolding join_candidates
  joined-Gathered i n (err e) rest gs f ih h = cc
  joined-Gathered i n (ok g) rest gs f ih h = elim (Result-cases (join_candidates rest)) [
    | inl (hs, e) ↦ let same : (g ∷ hs) ≡ gs = ground (arith, h, e) in rw (← same) (f, ih hs e)
    | inr (x, e) ↦ absurd (ground (arith, h, e))
  ]

  spawned-Gathered :
      (i n : ℕ) (gs : List GenerationResult)
      → join_candidates (spawn_candidates i n results) ≡ ok gs
      → Gathered results i n gs
  unfolding spawn_candidates
  spawned-Gathered i zero gs h =
      let same : [] ≡ gs = unfold join_candidates in ground (arith, h) in rw (← same) tt
  spawned-Gathered i (suc n) gs h =
      joined-Gathered i n (results i) (spawn_candidates (i + 1) n results) gs refl
        (spawned-Gathered (i + 1) n) h

module _ (try_decode : List ℕ → Result String String)
    (results : ℕ → Result ApiError GenerationResult) where
  choices_from-Answer :
      (kind : StreamKind) (k i n : ℕ) (gs : List GenerationResult)
      → Gathered results i n gs
      → Answer results i n (choices_from try_decode kind k i gs)
  unfolding choices_from choice_of
  choices_from-Answer kind k i zero [] h = tt
  choices_from-Answer kind k i zero (g ∷ gs) h = elim h [ ]
  choices_from-Answer kind k i (suc n) [] h = elim h [ ]
  choices_from-Answer kind k i (suc n) (g ∷ gs) (f, h) = (
    record { result = g; of_candidate = f; index = refl; content = refl; finish_reason = refl },
    choices_from-Answer kind k (i + 1) n gs h,
  )

-- A response has a choice for each of the `n` candidates.
abbrev AllOneEach : (ℕ → Result ApiError GenerationResult) → ℕ → Reply → Type 0
AllOneEach results n (response r) = Answer results 0 n r.choices
AllOneEach results n (failure e) = Unit {0}
AllOneEach results n (event_stream id kind model p m k) = Unit {0}

of_reply :
    (results : ℕ → Result ApiError GenerationResult) (n : ℕ) (x : Reply) (r : GenerationResponse)
    → AllOneEach results n x
    → x ≡ response r
    → Answer results 0 n r.choices
of_reply results n (response q) r h e = let same : q ≡ r = cc in rw (← same) h
of_reply results n (failure x) r h e = cc
of_reply results n (event_stream id kind model p m k) r h e = cc

module _ (try_decode : List ℕ → Result String String)
    (results : ℕ → Result ApiError GenerationResult) where
  one-Answer :
      (kind : StreamKind) (prefix : String) (p : PreparedGenerationRequest) (n : ℕ)
      (r : Result ApiError GenerationResult) (s : AppState)
      → n ≡ 1
      → results 0 ≡ r
      → AllOneEach results n (respond_one try_decode kind prefix p r s).0
  unfolding next_id choice_of error_reply
  one-Answer kind prefix p n (err e) s f h = tt
  one-Answer kind prefix p n (ok g) s f h = rw f (
    record { result = g; of_candidate = h; index = refl; content = refl; finish_reason = refl },
    tt,
  )

  stream-Answer :
      (kind : StreamKind) (prefix : String) (p : PreparedGenerationRequest) (n : ℕ)
      (r : Result ApiError ℕ) (s : AppState)
      → AllOneEach results n (respond_stream try_decode kind prefix p r s).0
  unfolding next_id error_reply
  stream-Answer kind prefix p n (err e) s = tt
  stream-Answer kind prefix p n (ok m) s = tt

  many-Answer :
      (kind : StreamKind) (prefix : String) (p : PreparedGenerationRequest) (n : ℕ)
      (r : Result ApiError (List GenerationResult)) (s : AppState)
      → ((gs : List GenerationResult) → r ≡ ok gs → Gathered results 0 n gs)
      → AllOneEach results n (respond_many try_decode kind prefix p r s).0
  unfolding next_id error_reply
  many-Answer kind prefix p n (err e) s h = tt
  many-Answer kind prefix p n (ok gs) s h =
      choices_from-Answer try_decode results kind (unwrap_or p.params.logprobs 1) 0 n gs (h gs refl)

-- A response that is not a stream has exactly one choice for each candidate that the request asks
-- for, whatever the engine answers: choice `j` has the index `j` as a u32, and the text and the
-- finish reason of the result of candidate `j`, which was not an error.
pub respond_generation-Answer :
    (try_decode : List ℕ → Result String String) (kind : StreamKind) (prefix : String)
    (p : PreparedGenerationRequest) (a : Answered) (s : AppState) (r : GenerationResponse)
    → (respond_generation try_decode kind prefix p a s).0 ≡ response r
    → Answer a.results 0 p.n r.choices
unfolding respond_generation generate_many
respond_generation-Answer try_decode kind prefix p a s r e =
    let P : Reply × AppState → Type 0 = λ x. AllOneEach a.results p.n x.0 in
    let one = respond_one try_decode kind prefix p (a.results 0) s in
    let many = respond_many try_decode kind prefix p (generate_many p.n a.results) s in
    let both : P (if p.n == 1 then one else many) = elim (Bool-cases (p.n == 1)) [
      | inl f ↦
          rw f (one-Answer try_decode a.results kind prefix p p.n _ s (ground (arith, f)) refl)
      | inr f ↦ rw f (
          many-Answer try_decode a.results kind prefix p p.n _ s (spawned-Gathered a.results 0 p.n))
    ] in
    of_reply a.results p.n _ r
      (both_branches P p.stream _ _ (stream-Answer try_decode a.results kind prefix p p.n _ s) both)
      e
