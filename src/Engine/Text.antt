-- ===== src/Engine/Text.antt =====
-- src/engine.rs: the search for stop sequences. A text is a list of characters, and offsets and
-- lengths count the bytes of its UTF-8 form, as `str::find` and `str::len` do.
use Prim.Native.String.{String}
use Prim.Native.Char.{Char, code}
use hetero_paged_infer.Prelude.{ℕ, ◌+◌, Bool, true, false, ◌&&◌, Option, none, some, List, [], ◌∷◌}
use hetero_paged_infer.Prelude.Tests.{ltb, leb, ◌==◌, if◌then◌else◌}
use hetero_paged_infer.Prelude.Results.{Result, ok, err}

unfoldable pub is_empty_text : String → Bool
is_empty_text String.[] = true
is_empty_text (String.◌∷◌ c s) = false

unfoldable pub utf8_len : Char → ℕ
utf8_len c =
    if ltb (code c) 128
    then 1
    else if ltb (code c) 2048
    then 2
    else if ltb (code c) 65536
    then 3
    else 4

-- `str::len`
unfoldable pub byte_len : String → ℕ
byte_len String.[] = 0
byte_len (String.◌∷◌ c s) = utf8_len c + byte_len s

unfoldable pub starts_with : String → String → Bool
starts_with text String.[] = true
starts_with String.[] (String.◌∷◌ c s) = false
starts_with (String.◌∷◌ b text) (String.◌∷◌ c s) = (code b == code c) && starts_with text s

abbrev pub shift : ℕ → Option ℕ → Option ℕ
shift n none = none
shift n (some i) = some (n + i)

-- `text.find(pattern)`: the byte offset of the first occurrence
unfoldable pub find : String → String → Option ℕ
find String.[] pattern = if is_empty_text pattern then some 0 else none
find (String.◌∷◌ c text) pattern =
    let rest = find text pattern in
    if starts_with (String.◌∷◌ c text) pattern then some 0 else shift (utf8_len c) rest

-- `Iterator::min` of one more offset
abbrev pub earlier : Option ℕ → Option ℕ → Option ℕ
earlier none j = j
earlier (some i) none = some i
earlier (some i) (some j) = some (if leb i j then i else j)

unfoldable pub find_stop_sequence : String → List String → Option ℕ
find_stop_sequence text [] = none
find_stop_sequence text (s ∷ stops) =
    let rest = find_stop_sequence text stops in
    if is_empty_text s then rest else earlier (find text s) rest

-- What `tokenizer.try_decode(&[token])` adds to the length; nothing where it fails.
abbrev pub decoded_len : Result String String → ℕ
decoded_len (ok segment) = byte_len segment
decoded_len (err message) = 0

-- The loop of `tokens_before_char`, at the index `i` after `len` bytes.
unfoldable pub tokens_before_from : (List ℕ → Result String String) → ℕ → ℕ → ℕ → List ℕ → ℕ
tokens_before_from try_decode byte_offset i len [] = i
tokens_before_from try_decode byte_offset i len (token ∷ tokens) =
    let rest =
      tokens_before_from try_decode byte_offset (i + 1)
        (len + decoded_len (try_decode (token ∷ []))) tokens in
    if leb byte_offset len then i else rest

unfoldable pub tokens_before_char : (List ℕ → Result String String) → List ℕ → ℕ → ℕ
tokens_before_char try_decode tokens byte_offset =
    tokens_before_from try_decode byte_offset 0 0 tokens
