-- ===== src/Store/Lfu/Laws.antt =====
-- The packed field of store/lfu.go: what is packed is read back, and how a touch moves the counter.
use learning_redis.Common.{
  ℕ, ◌+◌, ◌-◌, ◌*◌, ◌/◌, ◌%◌, ◌^◌, ◌≤◌, ◌<◌, ◌≡◌, ap, ◌∙◌, arith, Bool, ltb, if◌then◌else◌, bit_and,
  bit_or, Bool-cases, inl, inr,
}
use learning_redis.Common.Bits.{bit_and-mask, bit_or-add_above}
use learning_redis.Store.Lfu.{
  LfuParams, lfu_decode_counter, lfu_decode_ldt, lfu_encode, lfu_log_incr, lfu_decay, ldt_idle,
  lfu_touch, lru_idle,
}

encoded :
    (ldt counter : ℕ) → ldt < 65536 → counter < 256 → lfu_encode ldt counter ≡ ldt * 256 + counter
unfolding lfu_encode
encoded ldt counter hl hc =
    let e : ldt * 256 % 2 ^ 32 ≡ ldt * 2 ^ 8 = omega arith in
    ap (λ (t : ℕ). bit_or t counter) e ∙ bit_or-add_above 8 ldt counter hc

-- A 16-bit minute and an 8-bit counter are read back from the field, which has 24 bits.
pub lfu_encode_round_trip :
    (ldt counter : ℕ)
    → ldt < 65536
    → counter < 256
    → (lfu_decode_counter (lfu_encode ldt counter) ≡ counter)
      × (lfu_decode_ldt (lfu_encode ldt counter) ≡ ldt)
      × (lfu_encode ldt counter < 2 ^ 24)
unfolding lfu_decode_counter lfu_decode_ldt
lfu_encode_round_trip ldt counter hl hc =
    let e = encoded ldt counter hl hc in
    let low = bit_and-mask 8 (ldt * 256 + counter) in
    let high = bit_and-mask 16 ((ldt * 256 + counter) / 256) in
    (
      ap (λ (t : ℕ). bit_and t 255 % 256) e ∙ ap (λ (t : ℕ). t % 256) low ∙ omega arith,
      ap (λ (t : ℕ). bit_and (t / 256) 0xFFFF % 65536) e
          ∙ ap (λ (t : ℕ). t % 65536) high
          ∙ omega arith,
      omega (arith, e),
    )

lfu_decay-le : (p : LfuParams) (counter idle : ℕ) → lfu_decay p counter idle ≤ counter
unfolding lfu_decay
lfu_decay-le p counter idle = ground arith

lfu_log_incr-le :
    (p : LfuParams) (draw : ℕ → Bool) (counter : ℕ)
    → counter < 256
    → (counter ≤ lfu_log_incr p draw counter)
      × (lfu_log_incr p draw counter ≤ counter + 1)
      × (lfu_log_incr p draw counter < 256)
unfolding lfu_log_incr
lfu_log_incr-le p draw counter h = elim (Bool-cases (draw ((counter - 5) * p.log_factor + 1))) [
  | inl hit ↦ rw hit (ground arith)
  | inr miss ↦ rw miss (ground arith)
]

lfu_decode_counter-lt : (packed : ℕ) → lfu_decode_counter packed < 256
unfolding lfu_decode_counter
lfu_decode_counter-lt packed = omega arith

-- A touch stamps the minute, and moves the counter up by one at most, whatever the draw.
pub lfu_touch_moves :
    (p : LfuParams) (draw : ℕ → Bool) (packed now_ldt : ℕ)
    → now_ldt < 65536
    → (lfu_decode_ldt (lfu_touch p draw packed now_ldt) ≡ now_ldt)
      × (lfu_decode_counter (lfu_touch p draw packed now_ldt) ≤ lfu_decode_counter packed + 1)
      × (lfu_decay p (lfu_decode_counter packed) (ldt_idle now_ldt (lfu_decode_ldt packed))
          ≤ lfu_decode_counter (lfu_touch p draw packed now_ldt))
unfolding lfu_touch
lfu_touch_moves p draw packed now_ldt h =
    let counter = lfu_decode_counter packed in
    let idle = ldt_idle now_ldt (lfu_decode_ldt packed) in
    let down = lfu_decay-le p counter idle in
    let small = lfu_decode_counter-lt packed in
    let (lo, hi, byte) = lfu_log_incr-le p draw (lfu_decay p counter idle) (omega arith) in
    let (back, ldt, _) =
      lfu_encode_round_trip now_ldt (lfu_log_incr p draw (lfu_decay p counter idle)) h byte in
    (ldt, omega (arith, back, hi, down), omega (arith, back, lo))

-- The idle minutes between two readings of the 16-bit clock are those that passed; after the clock
-- has wrapped they are one too few.
pub ldt_idle_elapsed :
    (stored elapsed : ℕ)
    → stored < 65536
    → elapsed < 65536
    → ldt_idle ((stored + elapsed) % 65536) stored
      ≡ (if ltb (stored + elapsed) 65536 then elapsed else elapsed - 1)
unfolding ldt_idle
ldt_idle_elapsed stored elapsed hs he = ground arith

-- The same holds of the 24-bit LRU clock.
pub lru_idle_elapsed :
    (access elapsed : ℕ)
    → access < 2 ^ 24
    → elapsed < 2 ^ 24
    → lru_idle ((access + elapsed) % 2 ^ 24) access
      ≡ (if ltb (access + elapsed) (2 ^ 24) then elapsed else elapsed - 1)
unfolding lru_idle
lru_idle_elapsed access elapsed ha he = ground arith
