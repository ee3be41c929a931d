-- ===== src/Core/Encode.antt =====
-- core/encode.go: replies and commands as bytes.
use learning_redis.Common.{List, [], ◌∷◌, ◌++◌, Bytes, length, codes}
use learning_redis.Common.Int.{ℤ}
use learning_redis.Common.Decimal.{format_nat, format_int}

abbrev pub crlf : Bytes
crlf = 13 ∷ 10 ∷ []

unfoldable pub encode_simple_string : Bytes → Bytes
encode_simple_string s = b'+' ∷ (s ++ crlf)

unfoldable pub encode_error : Bytes → Bytes
encode_error s = b'-' ∷ (s ++ crlf)

unfoldable pub encode_bulk_string : Bytes → Bytes
encode_bulk_string s = b'$' ∷ (format_nat (length s) ++ (crlf ++ (s ++ crlf)))

unfoldable pub encode_null_bulk_string : Bytes
encode_null_bulk_string = codes "$-1" ++ crlf

unfoldable pub encode_integer : ℤ → Bytes
encode_integer n = b':' ∷ (format_int n ++ crlf)

unfoldable pub concat : List Bytes → Bytes
concat [] = []
concat (x ∷ xs) = x ++ concat xs

unfoldable pub encode_raw_array : List Bytes → Bytes
unfolding concat
encode_raw_array items = b'*' ∷ (format_nat (length items) ++ (crlf ++ concat items))

unfoldable pub bulk_strings : List Bytes → Bytes
bulk_strings [] = []
bulk_strings (arg ∷ args) = encode_bulk_string arg ++ bulk_strings args

unfoldable pub encode_array : List Bytes → Bytes
unfolding bulk_strings
encode_array args = b'*' ∷ (format_nat (length args) ++ (crlf ++ bulk_strings args))
