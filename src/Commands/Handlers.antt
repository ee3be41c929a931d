-- ===== src/Commands/Handlers.antt =====
-- commands/: the handlers of the commands on strings and sketches, and of INFO, OBJECT, DEBUG and PING.
-- A handler reads the clock once.
pub mod Values
pub mod Inspect
pub mod Effects
pub mod Lasting
use learning_redis.Common.{
  ℕ, zero, suc, ◌+◌, ◌-◌, ◌*◌, ◌%◌, ◌^◌, List, [], ◌∷◌, ◌++◌, Bytes, Bool, true, false, ◌&&◌,
  Option, none, some, ◌>>=◌, ltb, leb, if◌then◌else◌, codes, bytes_eq, length, map,
}
use learning_redis.Common.Int.{ℤ, signed_word, word_of, pos, negsuc, sub_ℕ, ltb_ℤ}
use learning_redis.Common.Decimal.{parse_int, format_int}
use learning_redis.Hll.Sketch.Histogram.{Float}
use learning_redis.Core.Encode.{
  crlf, encode_simple_string, encode_error, encode_bulk_string, encode_null_bulk_string,
  encode_integer,
}
use learning_redis.Store.Entry.{Encoding, encoding_int, encoding_embstr, encoding_raw, encoding_hll}
use learning_redis.Store.Keys.{Store}
use learning_redis.Store.Strings.{
  set, get, append, delete, ttl, get_int, get_encoding, get_freq, delete_expired, IntResult,
  missing, not_an_integer,
}
use learning_redis.Store.Strings
use learning_redis.Store.Sketches.{pf_add, pf_count, pf_merge}
use learning_redis.Commands.Command.{to_upper}
use learning_redis.Commands.Registry.{Moment, HandlerFunc}

-- `time.Duration(n) * unit`, which wraps around.
abbrev pub duration : ℤ → ℕ → ℤ
duration n unit = signed_word (word_of n * unit % 2 ^ 64)

abbrev pub second : ℕ
second = 1000000000

abbrev pub millisecond : ℕ
millisecond = 1000000

abbrev pub err : Store → Bytes → Option (Store × Bytes)
err s text = some (s, encode_error text)

abbrev pub set_arguments : Bytes
set_arguments = codes "ERR wrong number of arguments for 'set' command"

abbrev pub set_for : Moment → Store → Bytes → Bytes → ℤ → Option (Store × Bytes)
set_for m s key value life = some (set m.env s key value life, encode_simple_string (codes "OK"))

-- The switch over the option, on a number that is above 0.
abbrev pub set_option : Moment → Store → Bytes → Bytes → Bytes → ℤ → Option (Store × Bytes)
set_option m s key value option n =
    if bytes_eq option (codes "EX")
    then set_for m s key value (duration n second)
    else if bytes_eq option (codes "PX")
    then set_for m s key value (duration n millisecond)
    else err s (codes "ERR syntax error")

abbrev pub set_expiring : Moment → Store → Bytes → Bytes → Bytes → Option ℤ → Option (Store × Bytes)
set_expiring m s key value option none = err s (codes "ERR invalid expire time in 'set' command")
set_expiring m s key value option (some n) =
    if ltb_ℤ (pos 0) n
    then set_option m s key value option n
    else err s (codes "ERR invalid expire time in 'set' command")

unfoldable pub handle_set : HandlerFunc
handle_set m (key ∷ value ∷ []) s = set_for m s key value (pos 0)
handle_set m (key ∷ value ∷ option ∷ n ∷ []) s =
    set_expiring m s key value (to_upper option) (parse_int n)
handle_set m args s = err s set_arguments

abbrev pub bulk_or_null : Option Bytes → Bytes
bulk_or_null none = encode_null_bulk_string
bulk_or_null (some value) = encode_bulk_string value

unfoldable pub handle_get : HandlerFunc
handle_get m (key ∷ []) s = do (s', value) ← get m.env s key; some (s', bulk_or_null value)
handle_get m args s = err s (codes "ERR wrong number of arguments for 'get' command")

unfoldable pub handle_append : HandlerFunc
handle_append m (key ∷ value ∷ []) s = do
  (s', new_len) ← append m.env s key value
  some (s', encode_integer (signed_word new_len))
handle_append m args s = err s (codes "ERR wrong number of arguments for 'append' command")

-- `int64(n)` of a count.
abbrev pub counted : Store × ℕ → Option (Store × Bytes)
counted (s, n) = some (s, encode_integer (signed_word n))

abbrev pub numbered : Store × ℤ → Option (Store × Bytes)
numbered (s, n) = some (s, encode_integer n)

unfoldable pub handle_del : HandlerFunc
handle_del m [] s = err s (codes "ERR wrong number of arguments for 'del' command")
handle_del m (key ∷ keys) s = counted (delete m.env s (key ∷ keys))

abbrev pub expire_found : Moment → Bytes → ℤ → Store → Option Bytes → Option (Store × Bytes)
expire_found m key n s none = err s (codes "Cannot find key in the hashmap")
expire_found m key n s (some value) =
    some (set m.env s key value (duration n second), encode_integer (pos 1))

abbrev pub expire_in : Moment → Store → Bytes → Option ℤ → Option (Store × Bytes)
expire_in m s key none = err s (codes "ERR invalid expire time for EXPIRE command")
expire_in m s key (some n) = do (s', value) ← get m.env s key; expire_found m key n s' value

unfoldable pub handle_expire : HandlerFunc
handle_expire m (key ∷ n ∷ []) s = expire_in m s key (parse_int n)
handle_expire m args s = err s (codes "ERR wrong number of arguments for EXPIRE command")

unfoldable pub handle_ttl : HandlerFunc
handle_ttl m (key ∷ []) s = numbered (ttl m.env s key)
handle_ttl m args s = err s (codes "ERR wrong number of arguments for 'ttl' command")

-- `n++` on an int64.
abbrev pub incremented : ℤ → ℤ
incremented n = signed_word ((word_of n + 1) % 2 ^ 64)

-- `time.Until(expiry)`; no expiry is 0.
abbrev pub time_until : Moment → Option ℕ → ℤ
time_until m none = pos 0
time_until m (some at) = sub_ℕ at m.env.now

abbrev pub incr_to : Moment → Bytes → ℤ → Option ℕ → Store → Option (Store × Bytes)
incr_to m key n expiry s =
    some (set m.env s key (format_int n) (time_until m expiry), encode_integer n)

abbrev pub incr_found : Moment → Bytes → Store × IntResult → Option (Store × Bytes)
incr_found m key (s, missing) = incr_to m key (pos 1) none s
incr_found m key (s, not_an_integer) = err s (codes "ERR while incrementing")
incr_found m key (s, Strings.integer n expiry) = incr_to m key (incremented n) expiry s

unfoldable pub handle_incr : HandlerFunc
handle_incr m (key ∷ []) s = incr_found m key (get_int m.env s key)
handle_incr m args s = err s (codes "ERR incorrect arguments for INCR")

abbrev pub flag : Bool → ℤ
flag true = pos 1
flag false = pos 0

-- `ErrNotHLL`, or whether a register changed.
abbrev pub added : Store × Option Bool → Option (Store × Bytes)
added (s, none) = err s (codes "WRONGTYPE Key is not a valid HyperLogLog string value.")
added (s, some changed) = some (s, encode_integer (flag changed))

unfoldable pub handle_pf_add : HandlerFunc
handle_pf_add m [] s = err s (codes "Incorrect number of arguments for pfadd")
handle_pf_add m (key ∷ values) s = pf_add m.env s key values >>= added

unfoldable pub handle_pf_count : Float → HandlerFunc
handle_pf_count fl m (key ∷ []) s = pf_count fl s key >>= counted
handle_pf_count fl m args s = err s (codes "Incorrect number of arguments for PFCount")

unfoldable pub handle_pf_merge : HandlerFunc
handle_pf_merge m [] s = err s (codes "Incorrect number of arguments for PFMerge")
handle_pf_merge m (dest ∷ sources) s = do
  s' ← pf_merge m.env s dest sources
  some (s', encode_simple_string (codes "OK"))

abbrev pub encoding_name : Encoding → Bytes
encoding_name encoding_int = encode_bulk_string (codes "int")
encoding_name encoding_embstr = encode_bulk_string (codes "embstr")
encoding_name encoding_raw = encode_bulk_string (codes "str")
encoding_name encoding_hll = encode_error (codes "ERR unknown encoding")

abbrev pub encoding_reply : Store × Option Encoding → Option (Store × Bytes)
encoding_reply (s, none) = err s (codes "ERR no such key")
encoding_reply (s, some enc) = some (s, encoding_name enc)

abbrev pub no_lfu : Bytes
no_lfu =
    codes "ERR An LFU maxmemory policy is not selected, access frequency not tracked. "
    ++ codes
        "Please note that when switching between maxmemory policies at runtime LFU and LRU data will take some time to adjust."

abbrev pub freq_reply : (Store × Option ℕ) × Bool → Option (Store × Bytes)
freq_reply ((s, freq), false) = err s no_lfu
freq_reply ((s, none), true) = err s (codes "ERR no such key")
freq_reply ((s, some freq), true) = some (s, encode_integer (signed_word freq))

unfoldable pub object_of : Moment → Bytes → Bytes → Store → Option (Store × Bytes)
object_of m subcommand key s =
    if bytes_eq subcommand (codes "ENCODING")
    then encoding_reply (get_encoding m.env s key)
    else if bytes_eq subcommand (codes "FREQ")
    then freq_reply (get_freq m.env s key)
    else err s (codes "ERR unknown subcommand for 'object'")

unfoldable pub handle_object : HandlerFunc
unfolding object_of
handle_object m (subcommand ∷ key ∷ rest) s = object_of m (to_upper subcommand) key s
handle_object m args s = err s (codes "ERR wrong number of arguments for 'object' command")

unfoldable pub handle_ping : HandlerFunc
handle_ping m [] s = some (s, encode_simple_string (codes "PONG"))
handle_ping m (text ∷ []) s = some (s, encode_bulk_string text)
handle_ping m args s = err s (codes "ERR wrong number of arguments for 'ping' command")

-- `strings.ToLower`, on ASCII letters.
abbrev pub lower : ℕ → ℕ
lower c = if leb b'A' c && leb c b'Z' then c + 32 else c

unfoldable pub to_lower : Bytes → Bytes
to_lower s = map lower s

unfoldable pub info_cluster : Bool → Bytes
info_cluster enabled =
    codes "# Cluster" ++ (crlf ++ (codes "cluster_enabled:" ++ (format_int (flag enabled) ++ crlf)))

-- No code changes the counters `expires` and `avg_ttl`, which read as 0.
unfoldable pub info_keyspace : Store → Bytes
info_keyspace s =
    codes "# Keyspace"
    ++ (crlf
        ++ (codes "db0:keys="
            ++ (format_int (signed_word s.keys_stat) ++ (codes ",expires=0,avg_ttl=0" ++ crlf))))

unfoldable pub info_section : Bool → Store → Bytes → Bytes
unfolding info_cluster info_keyspace
info_section enabled s section =
    if bytes_eq section (codes "cluster")
    then info_cluster enabled
    else if bytes_eq section (codes "keyspace")
    then info_keyspace s
    else if bytes_eq section (codes "all")
    then info_cluster enabled ++ (crlf ++ info_keyspace s)
    else []

abbrev pub info_name : List Bytes → Bytes
info_name [] = codes "all"
info_name (section ∷ rest) = to_lower section

unfoldable pub handle_info : Bool → HandlerFunc
unfolding info_section to_lower
handle_info enabled m args s =
    some (s, encode_bulk_string (info_section enabled s (info_name args)))

unfoldable pub debug_of : Bytes → Bytes → Store → Option (Store × Bytes)
debug_of subcommand name s =
    if bytes_eq subcommand (codes "MEMORY")
    then some (s, encode_integer (signed_word s.used_memory))
    else if bytes_eq subcommand (codes "KEYS")
    then some (s, encode_integer (signed_word (length s.data_of)))
    else err s (codes "ERR unknown DEBUG subcommand '" ++ (name ++ codes "'"))

unfoldable pub handle_debug : HandlerFunc
unfolding debug_of
handle_debug m [] s = err s (codes "ERR DEBUG subcommand required")
handle_debug m (name ∷ rest) s = debug_of (to_upper name) name s

-- The handler of `_EXPIRY`, for the order in which the map is walked.
unfoldable pub handle_expiry : HandlerFunc
handle_expiry m args s = counted (delete_expired m.env (m.order 0 s.data_of) s)
