-- ===== src/Tokenizer/RoundTrip.antt =====
-- src/tokenizer.rs: the two maps of `SimpleTokenizer`, and decoding what was encoded.
use Prim.Native.String.{String}
use Prim.Native.Char.{Char, code}
use hetero_paged_infer.Prelude.{
  ℕ, ◌≤◌, ◌<◌, ◌≡◌, ◌⊎◌, ◌++◌, [], ◌∷◌, Bool, true, false, refl, none, some, arith, inl, inr,
}
use hetero_paged_infer.Prelude.Tests.{Option-cases, if◌then◌else◌, ◌==◌, Bool-cases}
use hetero_paged_infer.Prelude.Results.{ok, ◌>>=◌}
use hetero_paged_infer.Config.{SpecialTokenIds}
use text.Mathlib.TextEquality.{Char-path}
use hetero_paged_infer.SeqMap
use hetero_paged_infer.SeqMap.{lookup, contains_key}
use hetero_paged_infer.SeqMap.Laws.{lookup-insert}
use hetero_paged_infer.Tokenizer.Simple.{
  CharTable, add_char, add_chars, add_new_chars, char_table, reserved_table, with_special_tokens,
  is_skipped, decode_tokens, encode_chars, encode_char, encode_text, decode_text,
}

-- The id of a character leads back to the character, and stands above the reserved ids.
pub record Inverse (t : CharTable) : Type 0 where
  pub back :
      (k i : ℕ)
      → lookup k t.char_to_id ≡ some i
      → (c : Char) × (lookup i t.id_to_char ≡ some c) × (code c ≡ k)
  pub above : (k i : ℕ) → lookup k t.char_to_id ≡ some i → (4 ≤ i) × (i < t.next_id)
  pub only : (i : ℕ) (c : Char) → lookup i t.id_to_char ≡ some c → (4 ≤ i) × (i < t.next_id)
  pub next : 4 ≤ t.next_id

add_char-Inverse : (c : Char) (t : CharTable) → Inverse t → Inverse (add_char c t)
unfolding add_char
add_char-Inverse c t v = record {
  back = λ k i h. elim (Bool-cases (code c == k)) [
    | inl e ↦ (
      c,
      ground (
        arith,
        lookup-insert k (code c) t.next_id t.char_to_id,
        lookup-insert i t.next_id c t.id_to_char,
      ),
      ground arith,
    )
    | inr e ↦
        let g : lookup k t.char_to_id ≡ some i =
          ground (arith, lookup-insert k (code c) t.next_id t.char_to_id) in
        let x = v.back k i g in
        (x.0, ground (arith, lookup-insert i t.next_id c t.id_to_char, v.above k i g, x.1), x.2)
  ];
  above =
      λ k i h. ground (arith, lookup-insert k (code c) t.next_id t.char_to_id, v.above k i, v.next);
  only = λ i d h. ground (arith, lookup-insert i t.next_id c t.id_to_char, v.only i d, v.next);
  next = omega (arith, v.next);
}

add_chars-Inverse : (s : String) (t : CharTable) → Inverse t → Inverse (add_chars s t)
unfolding add_chars
add_chars-Inverse String.[] t v = v
add_chars-Inverse (String.◌∷◌ c s) t v = add_chars-Inverse s (add_char c t) (add_char-Inverse c t v)

add_new_chars-Inverse : (s : String) (t : CharTable) → Inverse t → Inverse (add_new_chars s t)
unfolding add_new_chars
add_new_chars-Inverse String.[] t v = v
add_new_chars-Inverse (String.◌∷◌ c s) t v =
    elim (Bool-cases (contains_key (code c) t.char_to_id)) [
      | inl e ↦ rw e (add_new_chars-Inverse s t v)
      | inr e ↦ rw e (add_new_chars-Inverse s (add_char c t) (add_char-Inverse c t v))
    ]

char_table-Inverse : Inverse char_table
unfolding char_table lookup
char_table-Inverse = add_new_chars-Inverse _ _ (
    add_chars-Inverse _ reserved_table
      (record { back = λ k i h. cc; above = λ k i h. cc; only = λ i c h. cc; next = omega arith }))

char_table_size : char_table.next_id ≡ 102
unfolding char_table lookup add_new_chars add_chars add_char SeqMap.insert
char_table_size = refl

-- The id is none of the character ids.
abbrev pub Outside : ℕ → Type 0
Outside i = (i < 4) ⊎ (102 ≤ i)

pub record Reserved (special : SpecialTokenIds) : Type 0 where
  pub bos_outside : Outside special.bos
  pub eos_outside : Outside special.eos
  pub pad_outside : Outside special.pad
  pub unk_outside : Outside special.unk

abbrev pub is_known : Char → Bool
is_known c = contains_key (code c) char_table.char_to_id

-- The characters that have an id of their own, in their order.
unfoldable pub known_part : String → String
known_part String.[] = String.[]
known_part (String.◌∷◌ c s) =
    let rest = known_part s in if is_known c then String.◌∷◌ c rest else rest

module _ (special : SpecialTokenIds) (r : Reserved special) where
  inside_not_skipped : (i : ℕ) → 4 ≤ i → i < 102 → is_skipped true special i ≡ false
  unfolding is_skipped
  inside_not_skipped i h g = ground (arith, r.bos_outside, r.eos_outside, r.pad_outside)

  no_char : (i : ℕ) → Outside i → lookup i char_table.id_to_char ≡ none
  no_char i o = elim (Option-cases (lookup i char_table.id_to_char)) [
    | inl e ↦ e
    | inr (c, e) ↦
        let x = char_table-Inverse.only i c e in ground (arith, o, char_table_size, x.0, x.1)
  ]

  decode_known :
      (s : String)
      → decode_tokens
          (with_special_tokens special)
          (encode_chars (with_special_tokens special) s ++ special.eos ∷ [])
        ≡ known_part s
  unfolding decode_tokens encode_chars encode_char known_part with_special_tokens is_skipped
  decode_known String.[] = ground arith
  decode_known (String.◌∷◌ c s) = elim (Option-cases (lookup (code c) char_table.char_to_id)) [
    | inl e ↦ ground (arith, decode_known s, no_char special.unk r.unk_outside)
    | inr (i, e) ↦
        let x = char_table-Inverse.back (code c) i e in
        let y = char_table-Inverse.above (code c) i e in
        let same : x.0 ≡ c = Char-path x.0 c x.2 in
        let n = inside_not_skipped i y.0 (omega (arith, y, char_table_size)) in
        ground (arith, decode_known s, x.1, same, n)
  ]

  -- With special tokens whose ids are none of the character ids 4 to 101, decoding what a text is
  -- encoded to gives the text back, its characters outside the vocabulary left out.
  pub decode_text-encode_text :
      (text : String)
      → (encode_text (with_special_tokens special) text
          >>= decode_text (with_special_tokens special))
        ≡ ok (known_part text)
  unfolding encode_text decode_text decode_tokens with_special_tokens is_skipped
  decode_text-encode_text text = ground (arith, decode_known text)
