-- ===== src/Store/Lfu.antt =====
-- store/lfu.go and the clocks of store/lru.go: the 24-bit field that holds an LRU stamp, or a counter
-- and the minute of its last decay. The draw of `rand.Float64()` is a parameter.
pub mod Laws
use learning_redis.Common.{
  ℕ, zero, suc, ◌+◌, ◌-◌, ◌*◌, ◌/◌, ◌%◌, ◌^◌, Bool, true, ltb, leb, ◌==◌, if◌then◌else◌, bit_and,
  bit_or, ◌≤◌, ◌<◌,
}
use learning_redis.Common.Int.{ℤ, pos, negsuc, pos_part, leb_ℤ}

abbrev pub lfu_init_val : ℕ
lfu_init_val = 5

abbrev pub lfu_counter_mask : ℕ
lfu_counter_mask = 255

abbrev pub lfu_ldt_mask : ℕ
lfu_ldt_mask = 0xFFFF

abbrev pub lru_clock_max : ℕ
lru_clock_max = 16777215

-- The two settings, which start as 10 and 1.
pub record LfuParams : Type 0 where
  pub log_factor : ℕ
  pub decay_time : ℕ

unfoldable pub set_lfu_params : LfuParams → ℤ → ℤ → LfuParams
set_lfu_params p log_factor decay_time =
    let p' =
      if leb_ℤ (pos 0) log_factor
      then record p { log_factor = pos_part log_factor % 2 ^ 32 }
      else p in
    if leb_ℤ (pos 1) decay_time then record p' { decay_time = pos_part decay_time % 2 ^ 32 } else p'

unfoldable pub lfu_decode_counter : ℕ → ℕ
lfu_decode_counter packed = bit_and packed lfu_counter_mask % 2 ^ 8

unfoldable pub lfu_decode_ldt : ℕ → ℕ
lfu_decode_ldt packed = bit_and (packed / 2 ^ 8) lfu_ldt_mask % 2 ^ 16

unfoldable pub lfu_encode : ℕ → ℕ → ℕ
lfu_encode ldt counter = bit_or (ldt * 2 ^ 8 % 2 ^ 32) counter

-- `draw d` is the test `rand.Float64() < 1.0 / d`.
unfoldable pub lfu_log_incr : LfuParams → (ℕ → Bool) → ℕ → ℕ
lfu_log_incr p draw counter =
    if counter == 255
    then counter
    else if draw ((counter - lfu_init_val) * p.log_factor + 1)
    then (counter + 1) % 2 ^ 8
    else counter

unfoldable pub lfu_decay : LfuParams → ℕ → ℕ → ℕ
lfu_decay p counter idle_minutes =
    let steps = idle_minutes / p.decay_time in
    if steps == 0 then counter else if leb counter steps then 0 else counter - steps % 2 ^ 8

unfoldable pub ldt_idle : ℕ → ℕ → ℕ
ldt_idle now_ldt stored_ldt =
    if leb stored_ldt now_ldt
    then now_ldt - stored_ldt
    else (now_ldt + (lfu_ldt_mask - stored_ldt)) % 2 ^ 16

unfoldable pub lfu_touch : LfuParams → (ℕ → Bool) → ℕ → ℕ → ℕ
unfolding lfu_decode_counter lfu_decode_ldt lfu_encode lfu_log_incr lfu_decay ldt_idle
lfu_touch p draw packed now_ldt =
    let counter = lfu_decode_counter packed in
    let idle = ldt_idle now_ldt (lfu_decode_ldt packed) in
    lfu_encode now_ldt (lfu_log_incr p draw (lfu_decay p counter idle))

unfoldable pub lfu_new : ℕ → ℕ
unfolding lfu_encode
lfu_new now_ldt = lfu_encode now_ldt lfu_init_val

-- The clocks, of a time in nanoseconds since 1970.
unfoldable pub lfu_clock : ℕ → ℕ
lfu_clock now = bit_and (now / 1000000000 / 60) lfu_ldt_mask % 2 ^ 16

unfoldable pub lru_clock : ℕ → ℕ
lru_clock now = bit_and (now / 1000000 / 1000) lru_clock_max % 2 ^ 32

unfoldable pub lru_idle : ℕ → ℕ → ℕ
lru_idle clock access =
    if leb access clock then clock - access else (clock + (lru_clock_max - access)) % 2 ^ 32
