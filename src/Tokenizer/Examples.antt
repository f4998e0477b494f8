-- ===== src/Tokenizer/Examples.antt =====
-- The tokenizers at concrete inputs.
use hetero_paged_infer.SeqMap.{insert, lookup}
use hetero_paged_infer.Tokenizer.Decoders.{tokenizer_of_kind, build_tokenizer, simple_tokenizer}
use hetero_paged_infer.Tokenizer.Streaming.{stream-try_decode, stream}
use hetero_paged_infer.Tokenizer.RoundTrip.{known_part, decode_text-encode_text, Reserved}
use hetero_paged_infer.Tokenizer.Simple.{
  add_char, add_chars, add_new_chars, is_skipped, char_table, decode_tokens, decode_text,
  with_special_tokens, encode_text, printable_ascii,
}
use Prim.Native.String.{String}
use Prim.Native.Char.{code}
use hetero_paged_infer.Prelude.{ℕ, ◌+◌, ◌≡◌, refl, List, [], ◌∷◌, inl, arith}
use hetero_paged_infer.Prelude.Results.{Result, ok, err, ◌>>=◌}
use hetero_paged_infer.Config.{default_config, default_special_tokens}
use hetero_paged_infer.Tokenizer.HuggingFace.{Library}

no_file : String → Result String Library
no_file path = err "no such file"

codes : String → List ℕ
codes String.[] = []
codes (String.◌∷◌ c s) = code c ∷ codes s

-- `n` numbers from `k` on
count_from : ℕ → ℕ → List ℕ
count_from ℕ.zero k = []
count_from (ℕ.suc n) k = k ∷ count_from n (k + 1)

printable_ascii_test : codes printable_ascii ≡ count_from 95 32
unfolding codes count_from
printable_ascii_test = refl

default-Reserved : Reserved default_special_tokens
default-Reserved = record {
  bos_outside = inl (omega arith);
  eos_outside = inl (omega arith);
  pad_outside = inl (omega arith);
  unk_outside = inl (omega arith);
}

stream-try_decode_example :
    stream (simple_tokenizer (with_special_tokens default_special_tokens)) (1 ∷ 76 ∷ 77 ∷ 2 ∷ [])
    ≡ ok "hi"
unfolding build_tokenizer tokenizer_of_kind decode_text decode_tokens is_skipped with_special_tokens
    lookup char_table add_new_chars add_chars add_char insert
stream-try_decode_example =
    stream-try_decode no_file default_config _ refl (1 ∷ 76 ∷ 77 ∷ 2 ∷ []) "hi" (λ e. cc) refl

decode_text-encode_text_example :
    (encode_text (with_special_tokens default_special_tokens) "a→b"
      >>= decode_text (with_special_tokens default_special_tokens))
    ≡ ok "ab"
unfolding known_part lookup char_table add_new_chars add_chars add_char insert
decode_text-encode_text_example =
    decode_text-encode_text default_special_tokens default-Reserved "a→b"
