-- ===== src/Json/Tests.antt =====
-- Strings read by the model of `parse_string`.
use sera_c.Json.Parser.{
  json_parse, value_within, value_of, parse_object, object_members, object_loop, parse_array,
  array_items, array_loop, colon, keyword, json_end,
}
use sera_c.Json.Values.{
  no_items, item, no_members, member, array, object, boolean, integer, json_new, grow_items,
  after_item, skip_ws, parse_number, digits, sign, fraction, exponent, decimal, to_integer,
  grow_items, Request, grow_members, grown_cap, node,
}
use sera_c.Json.Checking.{HasRoom}
use sera_c.Json.Escape.{escape_all, parse_string-quoted}
use sera_c.Json.{
  Buffer, parse_string, string_loop, unicode_escape, string_next, string_step, read_escape,
  known_escape, escape_char, hex_digits, hex_digit, write_lead, last_byte, append_char, make_room,
  write, oom,
}
use sera_c.Json.Unicode.{hex_value, Encoded, unicode_escape-Encoded}
use sera_c.Common.{
  ℕ, Bool, Bytes, true, [], arith, ◌∷◌, Returns, refl, ◌++◌, ◌≡◌, ok, codes, false, not, ◌==◌, err,
}

abbrev memory : ℕ → Bool
memory n = true

abbrev no_bytes : Buffer
no_bytes = record { bytes = []; cap = 32 }

no_bytes-HasRoom : HasRoom 0 0 no_bytes
no_bytes-HasRoom = record {
  holds = refl;
  fits = omega arith;
  small = omega arith;
  big = omega arith;
}

-- "a\n\u20aC" and a comma.
abbrev text : Bytes
text = 34 ∷ 97 ∷ 92 ∷ 110 ∷ 92 ∷ 117 ∷ 50 ∷ 48 ∷ 97 ∷ 67 ∷ 34 ∷ 44 ∷ []

parse_text : parse_string memory text ≡ ok (97 ∷ 10 ∷ 0xe2 ∷ 0x82 ∷ 0xac ∷ [], 44 ∷ [])
unfolding parse_string string_loop string_next string_step read_escape known_escape escape_char
    unicode_escape hex_digits hex_digit write_lead last_byte append_char make_room write
parse_text = refl

parse_string-quoted_example :
    parse_string memory (34 ∷ escape_all (97 ∷ 34 ∷ 10 ∷ 200 ∷ 0 ∷ []) ++ (34 ∷ 44 ∷ []))
    ≡ ok (97 ∷ 34 ∷ 10 ∷ 200 ∷ 0 ∷ [], 44 ∷ [])
parse_string-quoted_example =
    parse_string-quoted memory (λ n. refl) (97 ∷ 34 ∷ 10 ∷ 200 ∷ 0 ∷ []) (44 ∷ []) (omega arith)

unicode_escape-Encoded_example :
    Returns
      (unicode_escape memory no_bytes (50 ∷ 48 ∷ 97 ∷ 67 ∷ 44 ∷ []))
      (Encoded 0x20ac no_bytes (44 ∷ []))
unfolding hex_value
unicode_escape-Encoded_example =
    unicode_escape-Encoded memory (λ n. refl) 0 no_bytes 50 48 97 67 2 0 10 12 (44 ∷ [])
      (omega arith) no_bytes-HasRoom refl refl refl refl

-- {"a": [1, -2, true]}
abbrev document : Bytes
document = codes "{\"a\": [1, -2, true]} "

parse_document :
    json_parse (λ place request. true) document
    ≡ ok (
        object (
          member
            (codes "a")
            (array (item (integer false 1) (item (integer true 2) (item (boolean true) no_items))))
            no_members))
unfolding json_parse value_within value_of parse_object object_members object_loop parse_array
    array_items array_loop colon keyword json_new json_end grow_items grow_members grown_cap
    after_item skip_ws parse_number digits sign fraction exponent decimal to_integer parse_string
    string_loop string_next string_step append_char make_room write
parse_document = refl

-- The third node, at the number 1, is not there.
abbrev third_lacks : ℕ → Request → Bool
third_lacks place node = not (place == 14)
third_lacks place request = true

refused_document : json_parse third_lacks document ≡ err oom
unfolding json_parse value_within value_of parse_object object_members object_loop parse_array
    array_items array_loop colon keyword json_new json_end grow_items grow_members grown_cap
    after_item skip_ws parse_number digits sign fraction exponent decimal to_integer parse_string
    string_loop string_next string_step append_char make_room write
refused_document = refl
