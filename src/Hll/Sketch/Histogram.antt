-- ===== src/Hll/Sketch/Histogram.antt =====
-- `Count` of store/hll/hll.go: the histogram of the registers, and the cached estimate.
-- The arithmetic of float64 is a parameter.
use learning_redis.Common.{
  ℕ, zero, suc, ◌+◌, Bytes, Bool, false, ◌&&◌, not, Option, some, ◌>>=◌, ◌==◌, if◌then◌else◌,
}
use learning_redis.Hll.Registers.{registers}
use learning_redis.Hll.Sparse.{sparse_histo, Histo, bump}
use learning_redis.Hll.Dense.{get_dense_register}
use learning_redis.Hll.Sketch.{Hll, is_sparse}

-- The operations of float64 that the estimator uses.
pub record Float : Type 1 where
  pub F : Type 0
  pub of_int : ℕ → F
  pub add : F → F → F
  pub mul : F → F → F
  pub div : F → F → F
  pub pow : F → F → F
  pub log : F → F
  pub le : F → F → Bool
  pub alpha_inf : F
  pub half : F
  pub two_and_half : F
  pub to_uint64 : F → ℕ

-- `for i := uint64(0); i < registers; i++ { histo[getDenseRegister(h.dense, i)]++ }`
unfoldable pub dense_histo : ℕ → ℕ → Bytes → Histo → Option Histo
dense_histo zero i dense histo = some histo
dense_histo (suc n) i dense histo = do
  value ← get_dense_register dense i
  dense_histo n (i + 1) dense (bump histo value 1)

unfoldable pub histogram : Hll → Option Histo
histogram h =
    if is_sparse h.enc then sparse_histo h.sparse else dense_histo registers 0 h.dense (λ v. 0)

-- The estimator, and the method, over that arithmetic.
module _ (fl : Float) where
  -- `for val, count := range histo { sum += float64(count) / math.Pow(2, float64(val)) }`
  unfoldable pub harmonic_sum : ℕ → ℕ → Histo → fl.F → fl.F
  harmonic_sum zero val histo sum = sum
  harmonic_sum (suc n) val histo sum =
      harmonic_sum n (val + 1) histo
        (fl.add sum (fl.div (fl.of_int (histo val)) (fl.pow (fl.of_int 2) (fl.of_int val))))

  unfoldable pub estimate : Histo → ℕ
  unfolding harmonic_sum
  estimate histo =
      let m = fl.of_int registers in
      let sum = harmonic_sum 64 0 histo (fl.of_int 0) in
      let raw = fl.div (fl.mul (fl.mul fl.alpha_inf m) m) sum in
      let zeros = histo 0 in
      let linear = fl.mul m (fl.log (fl.div m (fl.of_int zeros))) in
      let corrected =
        if fl.le raw (fl.mul fl.two_and_half m) && not (zeros == 0) then linear else raw in
      fl.to_uint64 (fl.add corrected fl.half)

  unfoldable pub count : Hll → Option (ℕ × Hll)
  unfolding histogram estimate
  count h = if not h.dirty then some (h.cached, h) else (do
    histo ← histogram h
    let cached = estimate histo
    some (cached, record h { cached = cached; dirty = false }))
