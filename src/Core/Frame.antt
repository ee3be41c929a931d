-- ===== src/Core/Frame.antt =====
-- core/encode.go: what a reply is built of.
use learning_redis.Common.{
  ◌^◌, ◌≤◌, ◌≡◌, arith, List, [], ◌∷◌, ◌++◌, Bytes, All, length, length-append, Bool, true, false,
  not, ◌&&◌, ◌==◌, ==_iff, Bool-cases, inl, inr, sym, ◌∙◌,
}
use learning_redis.Common.Int.{ℤ}
use learning_redis.Common.Decimal.{InInt64, format_nat}
use learning_redis.Core.Encode.{
  crlf, concat, encode_simple_string, encode_error, encode_bulk_string, encode_null_bulk_string,
  encode_integer, encode_raw_array,
}
use learning_redis.Core.Decode.Written.{NotNewline}
use learning_redis.Core.Decode.Replies.{
  IsReply, encode_simple_string-IsReply, encode_error-IsReply, encode_integer-IsReply,
  encode_bulk_string-IsReply, encode_null_bulk_string-IsReply, encode_raw_array-IsReply,
}

-- One line of text.
abbrev pub Plain : Bytes → Type 0
Plain = All NotNewline

abbrev pub is_plain : Bytes → Bool
is_plain [] = true
is_plain (c ∷ cs) = not (c == 10) && is_plain cs

-- The test of a literal.
pub is_plain-Plain : (s : Bytes) → is_plain s ≡ true → Plain s
is_plain-Plain [] h = tt
is_plain-Plain (c ∷ cs) h = elim (Bool-cases (c == 10)) [
  | inl end ↦ let same : false ≡ true = simp end at h in ground (arith, same)
  | inr other ↦
      let rest : is_plain cs ≡ true = simp other at h in
      (
        λ e. let hit : (c == 10) ≡ true = (==_iff c 10).1 e in ground (arith, sym hit ∙ other),
        is_plain-Plain cs rest,
      )
]

-- The bytes are one RESP value: a line, a number of int64, a string of any bytes, or an array of values.
mutual
  pub data Frame : Bytes → Type 0 where
    simple : (s : Bytes) → Plain s → Frame (encode_simple_string s)
    failure : (s : Bytes) → Plain s → Frame (encode_error s)
    number : (n : ℤ) → InInt64 n → Frame (encode_integer n)
    bulk : (s : Bytes) → Frame (encode_bulk_string s)
    null : Frame encode_null_bulk_string
    items : (bs : List Bytes) → Frames bs → Frame (encode_raw_array bs)

  pub data Frames : List Bytes → Type 0 where
    no_frames : Frames []
    more_frames : (b : Bytes) (bs : List Bytes) → Frame b → Frames bs → Frames (b ∷ bs)

length-encode_bulk_string : (s : Bytes) → length s ≤ length (encode_bulk_string s)
unfolding encode_bulk_string
length-encode_bulk_string s =
    omega (arith, length-append (format_nat (length s)) (crlf ++ (s ++ crlf)), length-append s crlf)

length-encode_raw_array : (bs : List Bytes) → length (concat bs) ≤ length (encode_raw_array bs)
unfolding encode_raw_array
length-encode_raw_array bs =
    omega (arith, length-append (format_nat (length bs)) (crlf ++ concat bs))

frame-nonempty : (b : Bytes) → Frame b → 1 ≤ length b
unfolding encode_simple_string encode_error encode_bulk_string encode_null_bulk_string
    encode_integer encode_raw_array
frame-nonempty _ (simple s h) = omega arith
frame-nonempty _ (failure s h) = omega arith
frame-nonempty _ (number n h) = omega arith
frame-nonempty _ (bulk s) = omega arith
frame-nonempty _ null = omega arith
frame-nonempty _ (items bs h) = omega arith

Frames-length : (bs : List Bytes) → Frames bs → length bs ≤ length (concat bs)
unfolding concat
Frames-length _ no_frames = omega arith
Frames-length _ (more_frames b bs h hs) =
    omega (arith, frame-nonempty b h, Frames-length bs hs, length-append b (concat bs))

mutual
  unfolding concat

  one_value : (b : Bytes) → Frame b → length b ≤ 2 ^ 44 → IsReply b
  one_value _ (simple s h) le = encode_simple_string-IsReply s h
  one_value _ (failure s h) le = encode_error-IsReply s h
  one_value _ (number n h) le = encode_integer-IsReply n h
  one_value _ (bulk s) le =
      encode_bulk_string-IsReply s (omega (arith, le, length-encode_bulk_string s))
  one_value _ null le = encode_null_bulk_string-IsReply
  one_value _ (items bs h) le =
      encode_raw_array-IsReply bs
        (omega (arith, le, length-encode_raw_array bs, Frames-length bs h))
        (each_value bs h (omega (arith, le, length-encode_raw_array bs)))

  each_value : (bs : List Bytes) → Frames bs → length (concat bs) ≤ 2 ^ 44 → All IsReply bs
  each_value _ no_frames le = tt
  each_value _ (more_frames b bs h hs) le = (
    one_value b h (omega (arith, le, length-append b (concat bs))),
    each_value bs hs (omega (arith, le, length-append b (concat bs))),
  )

-- What is built as one RESP value, of at most 2^44 bytes, is read as one value by Decode, which
-- leaves nothing.
pub frame-IsReply : (b : Bytes) → Frame b → length b ≤ 2 ^ 44 → IsReply b
frame-IsReply b h le = one_value b h le
