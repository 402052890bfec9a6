-- ===== src/Prelude/Texts.antt =====
-- Operations of Rust's `str` on texts, which are lists of characters.
use Prim.Native.Nat.{ℕ, suc, ◌+◌}
use Prim.Native.Char.{Char, code}
use Prim.Native.String.{String, [], ◌∷◌, ◌++◌, count}
use mathlib.Core.Path.{◌≡◌, refl, sym, ap, ◌∙◌}
use mathlib.Core.Logic.{inl, inr}
use mathlib.Core.Bool.{Bool, true, false, ◌&&◌, ◌||◌}
use mathlib.Core.Option.{Option, none, some}
use native.Mathlib.Omega.{arith}
use text.Mathlib.Text.{◌==◌ as str_eq}
use text.Mathlib.TextEquality.{eq_iff, Char-path}
use text.Mathlib.TextPositions.{eq_refl}
use text.Mathlib.TextLemmas.{cons-append, nil-append, length-append, length-cons}
use lipa_lightning_lib.Prelude.Tests.{◌==◌, leb, if◌then◌else◌, Bool-cases, Option-cases}
use lipa_lightning_lib.Prelude.Find.{map_option}

-- `starts_with`, `strip_prefix` and `replacen(_, _, 1)`, of characters
unfoldable pub starts_with_char : Char → String → Bool
starts_with_char c [] = false
starts_with_char c (d ∷ s) = code d == code c

unfoldable pub strip_prefix_char : Char → String → Option String
strip_prefix_char c [] = none
strip_prefix_char c (d ∷ s) = if code d == code c then some s else none

unfoldable pub replace_first : Char → Char → String → String
replace_first c d [] = []
replace_first c d (x ∷ s) = if code x == code c then d ∷ s else x ∷ replace_first c d s

-- `strip_suffix`
unfoldable pub strip_suffix : String → String → Option String
strip_suffix [] d = if str_eq [] d then some [] else none
strip_suffix (c ∷ s) d =
    let rest = strip_suffix s d in
    if str_eq (c ∷ s) d then some [] else map_option (λ u. c ∷ u) rest

-- `strip_prefix`
unfoldable pub strip_prefix : String → String → Option String
strip_prefix [] s = some s
strip_prefix (c ∷ p) [] = none
strip_prefix (c ∷ p) (d ∷ s) =
    let rest = strip_prefix p s in if code d == code c then rest else none

-- `replacen(from, to, 1)`, of a text
unfoldable pub replace_once : String → String → String → String
unfolding strip_prefix
replace_once from to [] = elim (strip_prefix from []) [ none ↦ [] | some rest ↦ to ++ rest ]
replace_once from to (c ∷ s) =
    let later = c ∷ replace_once from to s in
    elim (strip_prefix from (c ∷ s)) [ none ↦ later | some rest ↦ to ++ rest ]

-- `char::is_whitespace`: the characters of Unicode's White_Space
unfoldable pub is_whitespace : Char → Bool
is_whitespace c =
    (leb 9 (code c) && leb (code c) 13)
    || (leb 8192 (code c) && leb (code c) 8202)
    || code c == 32
    || code c == 133
    || code c == 160
    || code c == 5760
    || code c == 8232
    || code c == 8233
    || code c == 8239
    || code c == 8287
    || code c == 12288

unfoldable pub trim_start : String → String
unfolding is_whitespace
trim_start [] = []
trim_start (c ∷ s) = let rest = trim_start s in if is_whitespace c then rest else c ∷ s

unfoldable pub trim_end : String → String
unfolding is_whitespace
trim_end [] = []
trim_end (c ∷ s) =
    let rest = trim_end s in if is_whitespace c && str_eq rest [] then [] else c ∷ rest

-- `trim`
unfoldable pub trim : String → String
unfolding trim_start trim_end
trim s = trim_end (trim_start s)

-- `char == char`
abbrev pub same_char : Char → Char → Bool
same_char c d = code c == code d

-- `char::is_ascii`, `is_ascii_alphabetic`, `is_ascii_alphanumeric`
abbrev pub is_ascii : Char → Bool
is_ascii c = leb (code c) 127

abbrev pub is_ascii_alphabetic : Char → Bool
is_ascii_alphabetic c =
    (leb 65 (code c) && leb (code c) 90) || (leb 97 (code c) && leb (code c) 122)

abbrev pub is_space_or_tab : Char → Bool
is_space_or_tab c = code c == 32 || code c == 9

-- `str::contains` of a character
unfoldable pub contains_char : Char → String → Bool
contains_char c [] = false
contains_char c (d ∷ s) = code d == code c || contains_char c s

-- the longest beginning of characters that satisfy a test, and what comes after
unfoldable pub take_chars : (Char → Bool) → String → String
take_chars p [] = []
take_chars p (c ∷ s) = let rest = take_chars p s in if p c then c ∷ rest else []

unfoldable pub drop_chars : (Char → Bool) → String → String
drop_chars p [] = []
drop_chars p (c ∷ s) = let rest = drop_chars p s in if p c then rest else c ∷ s

unfoldable pub head_is : (Char → Bool) → String → Bool
head_is p [] = false
head_is p (c ∷ s) = p c

-- `chars().filter`
unfoldable pub filter_chars : (Char → Bool) → String → String
filter_chars p [] = []
filter_chars p (c ∷ s) = let rest = filter_chars p s in if p c then c ∷ rest else rest

-- `chars().count()`
unfoldable pub count_chars : String → ℕ
count_chars [] = 0
count_chars (c ∷ s) = suc (count_chars s)

-- the bytes of a character in UTF-8, and `str::len`
abbrev pub utf8_bytes : Char → ℕ
utf8_bytes c =
    if leb (code c) 127
    then 1
    else if leb (code c) 2047
    then 2
    else if leb (code c) 65535
    then 3
    else 4

unfoldable pub byte_len : String → ℕ
byte_len [] = 0
byte_len (c ∷ s) = utf8_bytes c + byte_len s

-- `chars().all`
unfoldable pub all_chars : (Char → Bool) → String → Bool
all_chars p [] = true
all_chars p (c ∷ s) = p c && all_chars p s

-- `char::is_ascii_digit`
abbrev pub is_ascii_digit : Char → Bool
is_ascii_digit c = leb 48 (code c) && leb (code c) 57

abbrev pub is_ascii_alphanumeric : Char → Bool
is_ascii_alphanumeric c = is_ascii_alphabetic c || is_ascii_digit c

str_eq_self : (s : String) → (str_eq s s) ≡ true
str_eq_self s = eq_refl s

str_eq-longer : (c : Char) (u d : String) → str_eq ((c ∷ u) ++ d) d ≡ false
str_eq-longer c u d = elim (Bool-cases (str_eq ((c ∷ u) ++ d) d)) [
  | inl same ↦ absurd (
      omega (
        arith,
        ap count ((eq_iff ((c ∷ u) ++ d) d).0 same),
        length-append (c ∷ u) d,
        length-cons c u,
      ))
  | inr other ↦ other
]

-- A text without its suffix, which is empty only where the text is the suffix.
strip_suffix_self : (d : String) → strip_suffix d d ≡ some []
unfolding strip_suffix
strip_suffix_self [] = refl
strip_suffix_self (c ∷ d) = rw (str_eq_self (c ∷ d)) refl

-- What is left of a text whose suffix was there.
pub strip_suffix-append : (u d : String) → strip_suffix (u ++ d) d ≡ some u
unfolding strip_suffix
strip_suffix-append [] d = rw (nil-append d) (strip_suffix_self d)
strip_suffix-append (c ∷ u) d =
    let other = str_eq-longer c u d in
    rw (cons-append c u d, (rw (cons-append c u d) at other), strip_suffix-append u d) refl

suffix_self : (s d : String) {u : String} → str_eq s d ≡ true → some [] ≡ some u → u ++ d ≡ s
suffix_self s d {u} same h =
    let empty : u ≡ [] = cc in rw empty (nil-append d ∙ sym ((eq_iff s d).0 same))

-- The suffix that was stripped was there.
pub append-strip_suffix : (s d : String) {u : String} → strip_suffix s d ≡ some u → u ++ d ≡ s
unfolding strip_suffix
append-strip_suffix [] d h = elim (Bool-cases (str_eq [] d)) [
  | inl same ↦ suffix_self [] d same (rw same at h)
  | inr other ↦ (let k = rw other at h in cc)
]
append-strip_suffix (c ∷ s) d {u} h = elim (Bool-cases (str_eq (c ∷ s) d)) [
  | inl same ↦ suffix_self (c ∷ s) d same (rw same at h)
  | inr other ↦ elim (Option-cases (strip_suffix s d)) [
    | inl gone ↦ (let k = rw (other, gone) at h in cc)
    | inr (v, found) ↦
        (let k = rw (other, found) at h in
          let e : u ≡ c ∷ v = cc in
          rw e (cons-append c v d ∙ ap (λ t. c ∷ t) (append-strip_suffix s d found)))
  ]
]

append_char : (c : Char) (s : String) → (c ∷ []) ++ s ≡ c ∷ s
append_char c s = cons-append c [] s ∙ ap (λ t. c ∷ t) (nil-append s)

code_refl : (c : Char) → (code c == code c) ≡ true
code_refl c = ground arith

-- The first character of a text is replaced, or taken off.
pub replace_first-head :
    (c d : Char) (s : String) → replace_first c d ((c ∷ []) ++ s) ≡ (d ∷ []) ++ s
unfolding replace_first
replace_first-head c d s = rw (append_char c s, append_char d s, code_refl c) refl

pub strip_prefix_char-head : (c : Char) (s : String) → strip_prefix_char c ((c ∷ []) ++ s) ≡ some s
unfolding strip_prefix_char
strip_prefix_char-head c s = rw (append_char c s, code_refl c) refl

-- The character that was taken off was the first.
pub head-strip_prefix_char :
    (c : Char) (s : String) {u : String} → strip_prefix_char c s ≡ some u → (c ∷ []) ++ u ≡ s
unfolding strip_prefix_char
head-strip_prefix_char c [] h = cc
head-strip_prefix_char c (d ∷ s) {u} h = elim (Bool-cases (code d == code c)) [
  | inl same ↦
      (let k = rw same at h in
        let e : u ≡ s = cc in
        let f : c ≡ d = Char-path c d (ground arith) in rw (e, f) (append_char d s))
  | inr other ↦ (let k = rw other at h in cc)
]
