-- ===== src/Core/Tests.antt =====
-- RESP values and append-only files of a few commands, and the theorems on them.
use learning_redis.Common.{
  ◌-◌, ◌^◌, ◌≤◌, ◌≡◌, refl, arith, List, [], ◌∷◌, ◌++◌, Bytes, some, codes, length, take, All,
}
use learning_redis.Common.Int.{pos, negsuc}
use learning_redis.Common.Decimal.{
  parse_int, read_nat, read_digits, format_nat, format_int, decimal,
}
use learning_redis.Core.Encode.{
  crlf, encode_array, bulk_strings, encode_bulk_string, encode_integer,
}
use learning_redis.Core.Decode.{
  no_values, more_values, array, string, integer, got, panicked, read_string, read_line,
  read_integer, read_bulk_string, read_elements, read_array, decode, decode_value, decode_integer,
}
use learning_redis.Core.Decode.Prefix.{Extends, decode_value-Extends}
use learning_redis.Core.Decode.Total.{Leaves, decode_value-Leaves}
use learning_redis.Core.Decode.Written.{ArgsFit}
use learning_redis.Core.Decode.Replies.{IsReply}
use learning_redis.Core.Frame.{number, frame-IsReply}
use learning_redis.Core.Aof.{recover, recover_loop, args_of}
use learning_redis.Core.Aof.Recovered.{write_all, complete, recover-cut}

nested_runs :
    decode_value (
      codes "*2"
      ++ (crlf
          ++ (codes ":42"
              ++ (crlf ++ (codes "$2" ++ (crlf ++ (codes "hi" ++ (crlf ++ codes "+"))))))))
    ≡ got
        (array (more_values (integer (pos 42)) (more_values (string (codes "hi")) no_values)))
        (codes "+")
unfolding decode_value decode read_array read_elements read_line read_string read_integer
    read_bulk_string parse_int read_nat read_digits
nested_runs = refl

-- A length below -1 panics, as a negative number of elements does.
negative_bulk_runs : decode_value (codes "$-2" ++ crlf) ≡ panicked
unfolding decode_value decode read_line read_string read_bulk_string parse_int read_nat read_digits
negative_bulk_runs = refl

negative_array_runs : decode_value (codes "*-1" ++ crlf) ≡ panicked
unfolding decode_value decode read_array read_line read_string parse_int read_nat read_digits
negative_array_runs = refl

integer_runs : decode_integer (codes ":-7" ++ crlf) ≡ some (negsuc 6)
unfolding decode_integer parse_int read_nat read_digits
integer_runs = refl

abbrev pub ping : List Bytes
ping = codes "PING" ∷ []

abbrev pub set_a : List Bytes
set_a = codes "SET" ∷ codes "a" ∷ codes "1" ∷ []

abbrev two_commands : List (List Bytes)
two_commands = set_a ∷ ping ∷ []

two_commands-ArgsFit : All ArgsFit two_commands
two_commands-ArgsFit = ground arith

-- A command that is cut, then a whole one: the cut one takes bytes of the other, and both are lost.
cut_tail_runs : recover (take 12 (encode_array ping) ++ encode_array set_a) ≡ some []
unfolding recover recover_loop args_of encode_array bulk_strings encode_bulk_string format_nat
    decimal decode_value decode read_array read_elements read_line read_string read_bulk_string
    parse_int read_nat read_digits
cut_tail_runs = refl

recover-cut_example :
    recover (take 30 (write_all [] two_commands)) ≡ some (complete 30 two_commands)
recover-cut_example = recover-cut two_commands 30 two_commands-ArgsFit

cut_keeps_one : complete 30 two_commands ≡ set_a ∷ []
unfolding encode_array bulk_strings encode_bulk_string format_nat decimal
cut_keeps_one = refl

abbrev seven : Bytes
seven = encode_integer (pos 7)

seven_short : length seven ≤ 2 ^ 44
unfolding encode_integer format_int format_nat decimal
seven_short = omega arith

frame-IsReply_example : IsReply seven
frame-IsReply_example = frame-IsReply seven (number (pos 7) (omega arith)) seven_short

decode_value-Extends_example :
    Extends
      (decode_value (codes ":1" ++ crlf))
      (codes "x")
      (decode_value ((codes ":1" ++ crlf) ++ codes "x"))
decode_value-Extends_example = decode_value-Extends (codes ":1" ++ crlf) (codes "x")

decode_value-Leaves_example : Leaves (length (codes "*1") - 1) (decode_value (codes "*1"))
decode_value-Leaves_example = decode_value-Leaves (codes "*1")
