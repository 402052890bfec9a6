-- ===== src/Util/Replaced.antt =====
-- What the replacement of byte arrays makes of a text.
use Prim.Native.String.{String}
use text.Mathlib.TextLemmas.{cons-append, nil-append, append_assoc}
use lipa_lightning_lib.Prelude.{
  byte_len-append, ℕ, ◌+◌, ◌-◌, true, false, ◌≡◌, refl, sym, ap, ◌∙◌, arith, Option, none, some,
  List, [], ◌∷◌, text_append, byte_len, utf8_bytes, leb, ◌==◌, map_option, bind_option,
}
use lipa_lightning_lib.SymmetricEncryption.{Bytes}
use lipa_lightning_lib.Util.{
  Capture, drop_bytes, take_bytes, get_range, hex_of, replace_all,
  replace_byte_arrays_by_hex_string,
}

-- A match of the regular expression: what stands before it, the match and its group.
pub record Piece : Type 0 where
  pub before : String
  pub found : String
  pub group : String

unfoldable pub text_of : List Piece → String → String
text_of [] tail = tail
text_of (p ∷ pieces) tail = text_append p.before (text_append p.found (text_of pieces tail))

unfoldable pub captures_from : ℕ → List Piece → List Capture
captures_from last [] = []
captures_from last (p ∷ pieces) =
    let start = last + byte_len p.before in
    let end = start + byte_len p.found in
    record { start = start; end = end; group = some p.group } ∷ captures_from end pieces

-- The text with every match replaced, unless a group is no list of bytes.
unfoldable pub replaced : (Bytes → String) → List Piece → String → Option String
unfolding hex_of
replaced encode_hex [] tail = some tail
replaced encode_hex (p ∷ pieces) tail =
    let rest = replaced encode_hex pieces tail in
    bind_option (hex_of encode_hex (some p.group)) (λ hex.
      map_option
        (λ t. text_append p.before (text_append "\"" (text_append hex (text_append "\"" t)))) rest)

abbrev pub value_or : String → Option String → String
value_or s none = s
value_or s (some t) = t

drop_bytes_zero : (s : String) → drop_bytes 0 s ≡ some s
unfolding drop_bytes
drop_bytes_zero String.[] = refl
drop_bytes_zero (String.◌∷◌ c s) = refl

take_bytes_zero : (s : String) → take_bytes 0 s ≡ some String.[]
unfolding take_bytes
take_bytes_zero String.[] = refl
take_bytes_zero (String.◌∷◌ c s) = refl

drop_bytes-append : (s t : String) → drop_bytes (byte_len s) (text_append s t) ≡ some t
unfolding drop_bytes byte_len
drop_bytes-append String.[] t = ap (drop_bytes 0) (nil-append t) ∙ drop_bytes_zero t
drop_bytes-append (String.◌∷◌ c s) t =
    let n = utf8_bytes c + byte_len s in
    let some_bytes : (n == 0) ≡ false = ground arith in
    let fits : leb (utf8_bytes c) n ≡ true = ground arith in
    let less : n - utf8_bytes c ≡ byte_len s = omega arith in
    ap (drop_bytes n) (cons-append c s t) ∙ rw (some_bytes, fits, less) (drop_bytes-append s t)

take_bytes-append : (s t : String) → take_bytes (byte_len s) (text_append s t) ≡ some s
unfolding take_bytes byte_len
take_bytes-append String.[] t = take_bytes_zero (text_append String.[] t)
take_bytes-append (String.◌∷◌ c s) t =
    let n = utf8_bytes c + byte_len s in
    let some_bytes : (n == 0) ≡ false = ground arith in
    let fits : leb (utf8_bytes c) n ≡ true = ground arith in
    let less : n - utf8_bytes c ≡ byte_len s = omega arith in
    ap (take_bytes n) (cons-append c s t) ∙ rw (some_bytes, fits, less, take_bytes-append s t) refl

get_range-append :
    (s t u : String)
    → get_range (byte_len s) (byte_len s + byte_len t) (text_append s (text_append t u)) ≡ some t
unfolding get_range
get_range-append s t u =
    let in_order : leb (byte_len s) (byte_len s + byte_len t) ≡ true = ground arith in
    let long : byte_len s + byte_len t - byte_len s ≡ byte_len t = omega arith in
    rw (in_order, drop_bytes-append s (text_append t u), long) (take_bytes-append t u)

module _ (encode_hex : Bytes → String) where
  replace_all-replaced :
      (seen : String) (pieces : List Piece) (tail : String)
      → replace_all encode_hex
          (text_append seen (text_of pieces tail))
          (byte_len seen)
          (captures_from (byte_len seen) pieces)
        ≡ replaced encode_hex pieces tail
  unfolding replace_all replaced text_of captures_from
  replace_all-replaced seen [] tail = drop_bytes-append seen tail
  replace_all-replaced seen (p ∷ pieces) tail =
      let rest = text_of pieces tail in
      let seen' = text_append (text_append seen p.before) p.found in
      let at : byte_len seen' ≡ byte_len seen + byte_len p.before + byte_len p.found =
        byte_len-append (text_append seen p.before) p.found
        ∙ ap (λ n. n + byte_len p.found) (byte_len-append seen p.before) in
      let same : text_append seen' rest
          ≡ text_append seen (text_append p.before (text_append p.found rest)) =
        append_assoc (text_append seen p.before) p.found rest
        ∙ append_assoc seen p.before (text_append p.found rest) in
      let later : replace_all encode_hex
            (text_append seen (text_append p.before (text_append p.found rest)))
            (byte_len seen + byte_len p.before + byte_len p.found)
            (captures_from (byte_len seen + byte_len p.before + byte_len p.found) pieces)
          ≡ replaced encode_hex pieces tail =
        ap
          (λ t.
            replace_all encode_hex t (byte_len seen + byte_len p.before + byte_len p.found)
              (captures_from (byte_len seen + byte_len p.before + byte_len p.found) pieces))
          (sym same)
        ∙ ap (λ n. replace_all encode_hex (text_append seen' rest) n (captures_from n pieces))
            (sym at)
        ∙ replace_all-replaced seen' pieces tail in
      rw (get_range-append seen p.before (text_append p.found rest), later) refl

  -- A text is cut into the matches of the regular expression and what stands between them: the text that
  -- comes back has each match replaced by the quoted hexadecimal digits of its bytes and the rest as it
  -- was, and it is the text itself where a match is no list of bytes.
  pub replace_byte_arrays_by_hex_string_lem :
      (captures_iter : String → List Capture) (pieces : List Piece) (tail : String)
      → captures_iter (text_of pieces tail) ≡ captures_from 0 pieces
      → replace_byte_arrays_by_hex_string encode_hex captures_iter (text_of pieces tail)
        ≡ value_or (text_of pieces tail) (replaced encode_hex pieces tail)
  unfolding replace_byte_arrays_by_hex_string byte_len replaced
  replace_byte_arrays_by_hex_string_lem captures_iter pieces tail h =
      let original = text_of pieces tail in
      let all : replace_all encode_hex original 0 (captures_iter original)
          ≡ replaced encode_hex pieces tail =
        ap (replace_all encode_hex original 0) h
        ∙ ap (λ t. replace_all encode_hex t 0 (captures_from 0 pieces)) (sym (nil-append original))
        ∙ replace_all-replaced "" pieces tail in
      ap (value_or original) all
