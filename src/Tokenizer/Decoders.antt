-- ===== src/Tokenizer/Decoders.antt =====
-- src/tokenizer.rs: the two tokenizers behind `TokenizerTrait`, and `build_tokenizer`.
use Prim.Native.String.{String}
use hetero_paged_infer.Prelude.{ℕ, Option, none, some, []}
use hetero_paged_infer.Prelude.Results.{Result, ok, err}
use hetero_paged_infer.Error.{EngineError, config, missing_tokenizer_path, tokenization}
use hetero_paged_infer.Config.{TokenizerKind, EngineConfig, simple, hugging_face}
use hetero_paged_infer.Tokenizer.{Tokenizer}
use hetero_paged_infer.Tokenizer.Simple.{
  SimpleTokenizer, SimpleDecoder, with_special_tokens, encode_text, decode_text, simple_decoder_of,
  push_simple,
}
use hetero_paged_infer.Tokenizer.HuggingFace.{
  Library, HuggingFaceTokenizer, BufferedDecoder, with_special_tokens_from_file,
  encode_with_library, decode_with_library, library_vocab_size, push_buffered, finish_buffered,
}

-- A `Box<dyn IncrementalDecoder>`.
pub data Decoder : Type 0 where
  simple_decoder : SimpleDecoder → Decoder
  buffered_decoder : BufferedDecoder → Decoder

unfoldable pub push_decoder : Decoder → ℕ → Result String (Option String) × Decoder
push_decoder (simple_decoder d) token = (push_simple d token, simple_decoder d)
push_decoder (buffered_decoder d) token = (ok none, buffered_decoder (push_buffered d token))

unfoldable pub finish_decoder : Decoder → Result String (Option String) × Decoder
finish_decoder (simple_decoder d) = (ok none, simple_decoder d)
finish_decoder (buffered_decoder d) = (finish_buffered d, buffered_decoder d)

abbrev pub simple_tokenizer : SimpleTokenizer → Tokenizer Decoder
simple_tokenizer t = record {
  try_encode = encode_text t;
  try_decode = decode_text t;
  vocab_size = t.vocab_size;
  eos_token_id = t.special_tokens.eos;
  create_decoder = simple_decoder (simple_decoder_of t);
  push = push_decoder;
  finish = finish_decoder;
}

abbrev pub hugging_face_tokenizer : HuggingFaceTokenizer → Tokenizer Decoder
hugging_face_tokenizer t = record {
  try_encode = encode_with_library t;
  try_decode = decode_with_library t;
  vocab_size = library_vocab_size t;
  eos_token_id = t.special_tokens.eos;
  create_decoder = buffered_decoder (record { inner = t.inner; tokens = [] });
  push = push_decoder;
  finish = finish_decoder;
}

-- `.map_err(EngineError::Tokenization)?` and the box
abbrev pub boxed : Result String HuggingFaceTokenizer → Result EngineError (Tokenizer Decoder)
boxed (ok t) = ok (hugging_face_tokenizer t)
boxed (err message) = err (tokenization message)

unfoldable pub load_hugging_face :
    (String → Result String Library)
    → EngineConfig
    → Option String
    → Result EngineError (Tokenizer Decoder)
load_hugging_face from_file c none = err (config missing_tokenizer_path)
load_hugging_face from_file c (some path) =
    boxed (with_special_tokens_from_file from_file path c.special_tokens)

-- `match config.tokenizer.kind`
unfoldable pub tokenizer_of_kind :
    (String → Result String Library)
    → EngineConfig
    → TokenizerKind
    → Result EngineError (Tokenizer Decoder)
tokenizer_of_kind from_file c simple = ok (simple_tokenizer (with_special_tokens c.special_tokens))
tokenizer_of_kind from_file c hugging_face = load_hugging_face from_file c c.tokenizer.path

unfoldable pub build_tokenizer :
    (String → Result String Library) → EngineConfig → Result EngineError (Tokenizer Decoder)
build_tokenizer from_file c = tokenizer_of_kind from_file c c.tokenizer.kind
