-- ===== src/BlobmsgJson/Tests.antt =====
-- Tests of the model of blobmsg_json.c, and instances of what is proved of it.
use libubox.Base.{ℕ, suc, ◌≡◌, refl, Bool, true, false, none, some, [], ◌∷◌, arith, ltb, Yields}
use libubox.BlobmsgJson.{escape, escaped, puts, put_at, add_separator, format_string, format_loop}
use libubox.BlobmsgJson.Format.{
  field, refused, unspec, int8, int16, int32, string, array, Fields, end, item, digits, decimal,
  format_name, format_comma, open_list, close_list, list_loop, format_element, is_array,
  format_json_with_cb, finish,
}
use libubox.BlobmsgJson.Print.{print_json}
use libubox.BlobmsgJson.Read.{read_value, made, elements_of, size_of_fields, AreNamed}
use libubox.BlobmsgJson.ReadBack.{none_custom}
use libubox.BlobmsgJson.Written.{format_json_with_cb-print}
use libubox.BlobmsgJson.RoundTrip.{format_json_with_cb-read}

abbrev always : ℕ → Bool
always n = true

-- The headers of a table and an array with 8 bytes of data, and of a table with one.
abbrev a_table : ℕ
a_table = 2181038092

abbrev an_array : ℕ
an_array = 2164260876

abbrev small_table : ℕ
small_table = 2181038085

-- {"a": -2, "b/": [null, true, "\u0001"]}
abbrev fields : Fields
fields = item (field (b'a' ∷ []) (int32 4294967294)) (
    item
      (field (b'b' ∷ b'/' ∷ []) (
        array (
          item (field [] unspec)
            (item (field [] (int8 1)) (item (field [] (string (1 ∷ []))) end)))))
      end)

text_of_fields :
    format_json_with_cb always none_custom a_table refused fields true none
    ≡ some (
        some (
          b'{' ∷ 34 ∷ b'a' ∷ 34 ∷ b':' ∷ b'-' ∷ b'2' ∷ b',' ∷ 34 ∷ b'b' ∷ 92 ∷ b'/' ∷ 34 ∷ b':'
          ∷ b'[' ∷ b'n' ∷ b'u' ∷ b'l' ∷ b'l' ∷ b',' ∷ b't' ∷ b'r' ∷ b'u' ∷ b'e' ∷ b',' ∷ 34 ∷ 92
          ∷ b'u' ∷ 48 ∷ 48 ∷ 48 ∷ 49 ∷ 34 ∷ b']' ∷ b'}' ∷ []))
unfolding format_json_with_cb open_list puts put_at add_separator list_loop format_comma format_name
    format_string format_loop escape decimal digits escaped close_list finish format_element
text_of_fields = refl

-- The type of 16 bits is printed without a sign.
unsigned_16 :
    format_json_with_cb always none_custom a_table (field [] (int16 65535)) end false none
    ≡ some (some (b'6' ∷ b'5' ∷ b'5' ∷ b'3' ∷ b'5' ∷ []))
unfolding format_json_with_cb open_list puts put_at add_separator list_loop format_comma format_name
    format_string format_loop escape decimal digits escaped close_list finish format_element
unsigned_16 = refl

-- After a reallocation that fails the next write goes through NULL.
write_through_null :
    format_json_with_cb (λ n. ltb n 8) none_custom small_table refused end true none ≡ none
unfolding format_json_with_cb open_list puts put_at add_separator list_loop format_comma format_name
    format_string format_loop escape decimal digits escaped close_list finish format_element
write_through_null = refl

-- A refused attribute leaves its comma.
comma_of_refused :
    format_json_with_cb always none_custom an_array refused
      (item (field [] unspec) (item refused end))
      true
      none
    ≡ some (some (b'[' ∷ b'n' ∷ b'u' ∷ b'l' ∷ b'l' ∷ b',' ∷ b']' ∷ []))
unfolding format_json_with_cb open_list puts put_at add_separator list_loop format_comma format_name
    format_string format_loop escape decimal digits escaped close_list finish format_element
comma_of_refused = refl

format_json_with_cb-print_example :
    format_json_with_cb always none_custom a_table refused fields true (some 0)
    ≡ some (some (print_json none_custom (is_array a_table) refused fields true (some 0)))
format_json_with_cb-print_example =
    format_json_with_cb-print always none_custom a_table refused fields true (some 0) (λ n. refl)
      (omega arith)

fields-AreNamed : AreNamed false fields
unfolding AreNamed
fields-AreNamed = (refl, tt, (refl, (refl, tt, (refl, tt, (refl, tt, tt))), tt))

format_json_with_cb-read_example :
    Yields
      (Yields (λ text.
        read_value (suc (size_of_fields fields)) text
        ≡ some (made (is_array a_table) (elements_of (is_array a_table) fields), [])))
      (format_json_with_cb always none_custom a_table refused fields true (some 1))
format_json_with_cb-read_example =
    format_json_with_cb-read always a_table refused fields (some 1) (λ n. refl) (omega arith)
      fields-AreNamed
