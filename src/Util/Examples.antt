-- ===== src/Util/Examples.antt =====
-- The texts of the tests of src/util.rs.
use lipa_lightning_lib.Prelude.{byte_len}
use lipa_lightning_lib.Util.Replaced.{replaced}
use lipa_lightning_lib.Prelude.{String, ◌≡◌, refl, List, [], ◌∷◌}
use lipa_lightning_lib.SymmetricEncryption.{Bytes}
use lipa_lightning_lib.Util.{replace_byte_arrays_by_hex_string}
use lipa_lightning_lib.Util.Replaced.{
  Piece, text_of, captures_from, replace_byte_arrays_by_hex_string_lem,
}

-- the digits of the bytes of the test
abbrev encoded : Bytes → String
encoded bytes = "0f10ff"

abbrev hello : List Piece
hello = record { before = "Hello "; found = "[15, 16, 255]"; group = "15, 16, 255" } ∷ []

abbrev flawed : List Piece
flawed = record { before = "Hello "; found = "[15, 16, 1234]"; group = "15, 16, 1234" } ∷ []

flawed_lem :
    replace_byte_arrays_by_hex_string encoded
      (λ _. captures_from 0 flawed)
      "Hello [15, 16, 1234] world"
    ≡ "Hello [15, 16, 1234] world"
unfolding replace_byte_arrays_by_hex_string captures_from byte_len
flawed_lem = refl

replace_byte_arrays_by_hex_string_lem_example :
    replace_byte_arrays_by_hex_string encoded
      (λ _. captures_from 0 hello)
      "Hello [15, 16, 255] world"
    ≡ "Hello \"0f10ff\" world"
unfolding text_of replaced
replace_byte_arrays_by_hex_string_lem_example =
    replace_byte_arrays_by_hex_string_lem encoded (λ _. captures_from 0 hello) hello " world" refl
