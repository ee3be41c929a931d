-- ===== src/Store/Entry.antt =====
-- An entry of store/store.go and its size in store/lru.go, with the string of core/sds/sds.go.
use learning_redis.Common.{
  ℕ, ◌+◌, ◌*◌, ◌++◌, Bytes, Option, none, some, ltb, leb, if◌then◌else◌, length,
}
use learning_redis.Common.Int.{ℤ, pos}
use learning_redis.Common.Decimal.{parse_int}
use learning_redis.Hll.Sketch.{Hll, size}

pub data Encoding : Type 0 where
  encoding_int encoding_embstr encoding_raw encoding_hll : Encoding

-- The bytes, with the capacity of the slice that holds them.
pub record Sds : Type 0 where
  pub buf : Bytes
  pub cap : ℕ

abbrev pub sds_max_pre_alloc : ℕ
sds_max_pre_alloc = 1024 * 1024

unfoldable pub new_sds : Bytes → Sds
new_sds s = record { buf = s; cap = length s }

unfoldable pub grow_to : Sds → ℕ → Sds
grow_to s needed = record s {
  cap = if ltb needed sds_max_pre_alloc then needed * 2 else needed + sds_max_pre_alloc;
}

-- `append(s.buf, bytes...)` keeps a slice that has room; `grow` is the capacity that the runtime
-- chooses for one that has not.
unfoldable pub append_slice : (ℕ → ℕ → ℕ) → Sds → Bytes → Sds
append_slice grow s bytes =
    let needed = length s.buf + length bytes in
    record { buf = s.buf ++ bytes; cap = if leb needed s.cap then s.cap else grow s.cap needed }

unfoldable pub append_string : (ℕ → ℕ → ℕ) → Sds → Bytes → Sds
unfolding append_slice grow_to
append_string grow s v =
    let needed = length s.buf + length v in
    append_slice grow (if ltb sds_max_pre_alloc needed then grow_to s needed else s) v

-- The tagged union; a nil pointer, or the zero time of a key that never expires, is `none`.
-- `expires_at` is in nanoseconds since 1970.
pub record Entry : Type 0 where
  pub encoding : Encoding
  pub int_val : ℤ
  pub str_val : Option Sds
  pub hll_val : Option Hll
  pub expires_at : Option ℕ
  pub lru : ℕ

abbrev pub entry_overhead : ℕ
entry_overhead = 64

abbrev pub cap_of : Option Sds → ℕ
cap_of none = 0
cap_of (some s) = s.cap

abbrev pub size_of : Option Hll → ℕ
size_of none = 0
size_of (some h) = size h

unfoldable pub value_size : Encoding → Entry → ℕ
value_size encoding_int e = 8
value_size encoding_embstr e = cap_of e.str_val
value_size encoding_raw e = cap_of e.str_val
value_size encoding_hll e = size_of e.hll_val

unfoldable pub entry_size : Bytes → Entry → ℕ
unfolding value_size
entry_size key e = length key + value_size e.encoding e + entry_overhead

abbrev pub encoding_for : Bytes → Option ℤ → Encoding
encoding_for value (some n) = encoding_int
encoding_for value none = if leb (length value) 44 then encoding_embstr else encoding_raw

unfoldable pub detect_encoding : Bytes → Encoding
detect_encoding value = encoding_for value (parse_int value)

-- `Get`'s and `Set`'s reading of a number, with the 0 that comes with an error.
abbrev pub int_or_zero : Option ℤ → ℤ
int_or_zero none = pos 0
int_or_zero (some n) = n
