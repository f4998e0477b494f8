-- ===== src/Tokenizer/Simple.antt =====
-- src/tokenizer.rs, `SimpleTokenizer` and `SimpleDecoder`: one token for each character. The map
-- from characters is keyed by their code points.
use Prim.Native.String.{String}
use Prim.Native.Char.{Char, code}
use hetero_paged_infer.Prelude.{
  ℕ, ◌+◌, Bool, true, false, ◌&&◌, ◌||◌, Option, none, some, List, [], ◌∷◌, ◌++◌,
}
use hetero_paged_infer.Prelude.Tests.{◌==◌, if◌then◌else◌}
use hetero_paged_infer.Prelude.Results.{Result, ok}
use hetero_paged_infer.SeqMap.{SeqMap, lookup, insert, contains_key}
use hetero_paged_infer.Config.{SpecialTokenIds, default_special_tokens}

-- The two maps while they are filled.
pub record CharTable : Type 0 where
  pub char_to_id : SeqMap ℕ
  pub id_to_char : SeqMap Char
  pub next_id : ℕ

unfoldable pub add_char : Char → CharTable → CharTable
add_char c t = record {
  char_to_id = insert (code c) t.next_id t.char_to_id;
  id_to_char = insert t.next_id c t.id_to_char;
  next_id = t.next_id + 1;
}

-- `(32u8..=126).map(|b| b as char)`
abbrev pub printable_ascii : String
printable_ascii =
    " !\"#$%&'()*+,-./0123456789:;<=>?@ABCDEFGHIJKLMNOPQRSTUVWXYZ[\\]^_`abcdefghijklmnopqrstuvwxyz{|}~"

abbrev pub white_space : String
white_space = "\n\r\t"

unfoldable pub add_chars : String → CharTable → CharTable
add_chars String.[] t = t
add_chars (String.◌∷◌ c s) t = add_chars s (add_char c t)

-- `if let Entry::Vacant(entry) = char_to_id.entry(c)`
unfoldable pub add_new_chars : String → CharTable → CharTable
add_new_chars String.[] t = t
add_new_chars (String.◌∷◌ c s) t =
    add_new_chars s (if contains_key (code c) t.char_to_id then t else add_char c t)

abbrev pub reserved_table : CharTable
reserved_table = record { char_to_id = []; id_to_char = []; next_id = 4 }

unfoldable pub char_table : CharTable
char_table = add_new_chars white_space (add_chars printable_ascii reserved_table)

pub record SimpleTokenizer : Type 0 where
  pub char_to_id : SeqMap ℕ
  pub id_to_char : SeqMap Char
  pub vocab_size : ℕ
  pub special_tokens : SpecialTokenIds
  pub add_special_tokens : Bool

unfoldable pub with_special_tokens : SpecialTokenIds → SimpleTokenizer
with_special_tokens special_tokens = record {
  char_to_id = char_table.char_to_id;
  id_to_char = char_table.id_to_char;
  vocab_size = char_table.next_id;
  special_tokens = special_tokens;
  add_special_tokens = true;
}

unfoldable pub without_special_tokens : SimpleTokenizer
without_special_tokens = record (with_special_tokens default_special_tokens) {
  add_special_tokens = false;
}

unfoldable pub encode_char : SimpleTokenizer → Char → ℕ
encode_char t c = elim (lookup (code c) t.char_to_id) [ none ↦ t.special_tokens.unk | some i ↦ i ]

unfoldable pub encode_chars : SimpleTokenizer → String → List ℕ
encode_chars t String.[] = []
encode_chars t (String.◌∷◌ c s) = encode_char t c ∷ encode_chars t s

unfoldable pub encode_text : SimpleTokenizer → String → Result String (List ℕ)
encode_text t text = ok (
    if t.add_special_tokens
    then t.special_tokens.bos ∷ (encode_chars t text ++ t.special_tokens.eos ∷ [])
    else encode_chars t text)

-- The tokens that decoding leaves out; PAD is one of them, UNK is not.
unfoldable pub is_skipped : Bool → SpecialTokenIds → ℕ → Bool
is_skipped add_special_tokens special token =
    add_special_tokens && (token == special.bos || token == special.eos || token == special.pad)

abbrev pub push_char : Option Char → String → String
push_char none s = s
push_char (some c) s = String.◌∷◌ c s

unfoldable pub decode_tokens : SimpleTokenizer → List ℕ → String
decode_tokens t [] = String.[]
decode_tokens t (token ∷ tokens) =
    let rest = decode_tokens t tokens in
    if is_skipped t.add_special_tokens t.special_tokens token
    then rest
    else push_char (lookup token t.id_to_char) rest

unfoldable pub decode_text : SimpleTokenizer → List ℕ → Result String String
decode_text t tokens = ok (decode_tokens t tokens)

pub record SimpleDecoder : Type 0 where
  pub id_to_char : SeqMap Char
  pub special_tokens : SpecialTokenIds
  pub add_special_tokens : Bool

unfoldable pub simple_decoder_of : SimpleTokenizer → SimpleDecoder
simple_decoder_of t = record {
  id_to_char = t.id_to_char;
  special_tokens = t.special_tokens;
  add_special_tokens = t.add_special_tokens;
}

-- `c.to_string()`
abbrev pub char_text : Option Char → Option String
char_text none = none
char_text (some c) = some (String.◌∷◌ c String.[])

unfoldable pub push_simple : SimpleDecoder → ℕ → Result String (Option String)
push_simple d token =
    if is_skipped d.add_special_tokens d.special_tokens token
    then ok none
    else ok (char_text (lookup token d.id_to_char))
