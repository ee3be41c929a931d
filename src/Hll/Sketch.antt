-- ===== src/Hll/Sketch.antt =====
-- The sketch of store/hll/hll.go: `New`, `Size`, `Encoding`, `promote`, `Add`, `Merge`, `Count`.
-- A method returns the new sketch beside its result; `none` stands for a panic.
pub mod Run
pub mod Copy
pub mod Holds
pub mod Adding
pub mod Merging
pub mod Histogram
pub mod Tally
pub mod Counting
pub mod Union
use learning_redis.Common.{
  ℕ, zero, suc, ◌+◌, List, [], ◌∷◌, Bytes, Bool, true, false, ◌&&◌, ◌||◌, Option, none, some, ◌>>=◌,
  ltb, leb, ◌==◌, if◌then◌else◌, length, codes,
}
use learning_redis.Hll.Registers.{registers}
use learning_redis.Hll.Opcode.{encode_xzero, sparse_val_max_value}
use learning_redis.Hll.Sparse.{
  walk_sparse, sparse_set, sparse_histo, Histo, bump, add64, hll_sparse_max_bytes,
}
use learning_redis.Hll.Dense.{get_dense_register, set_dense_register, new_dense_array}
use learning_redis.Hll.Murmur.{hll_pat_len}

pub data EncMode : Type 0 where
  enc_sparse enc_dense : EncMode

-- The slice of the form that is not live is empty.
pub record Hll : Type 0 where
  pub dense : Bytes
  pub sparse : Bytes
  pub enc : EncMode
  pub cached : ℕ
  pub dirty : Bool

abbrev pub is_sparse : EncMode → Bool
is_sparse enc_sparse = true
is_sparse enc_dense = false

-- `New`: one XZERO opcode over all the registers.
unfoldable pub new : Hll
new = record {
  dense = [];
  sparse = (encode_xzero registers).0 ∷ (encode_xzero registers).1 ∷ [];
  enc = enc_sparse;
  cached = 0;
  dirty = false;
}

unfoldable pub size : Hll → ℕ
size h = if is_sparse h.enc then length h.sparse else length h.dense

unfoldable pub encoding : Hll → Bytes
encoding h = if is_sparse h.enc then codes "sparse" else codes "dense"

-- `for i := 0; i < runLen; i++ { if setDenseRegister(dense, startIndex+i, value) { changed = true } }`
unfoldable pub raise_run : ℕ → ℕ → ℕ → Bytes × Bool → Option (Bytes × Bool)
raise_run zero start value (dense, changed) = some (dense, changed)
raise_run (suc n) start value (dense, changed) = do
  (dense', grew) ← set_dense_register dense start value
  raise_run n (add64 start 1) value (dense', changed || grew)

-- The closure that `promote` and `Merge` give to `walkSparse`. (`promote` does not look at the flag.)
abbrev pub run_visit : Option (Bytes × Bool) → ℕ → ℕ → ℕ → Option (Bytes × Bool) × Bool
run_visit s start_index run_len value =
    (if value == 0 then s else (s >>= raise_run run_len start_index value), true)

unfoldable pub copy_sparse : Bytes → Bytes × Bool → Option (Bytes × Bool)
copy_sparse sparse s = do s' ← walk_sparse run_visit 0 (some s) sparse; s'

unfoldable pub promote : Hll → Option Hll
promote h = do
  (dense, _) ← copy_sparse h.sparse (new_dense_array, false)
  some (record h { dense = dense; sparse = []; enc = enc_dense })

-- The two cases of the switch in `Add`.
unfoldable pub add_sparse : Hll → ℕ → ℕ → Option (Hll × Bool)
add_sparse h index rank = do
  (sparse', changed) ← sparse_set h.sparse index rank
  let h' = if changed then record h { sparse = sparse' } else h
  h'' ← if ltb hll_sparse_max_bytes (length h'.sparse) then promote h' else some h'
  some (h'', changed)

unfoldable pub add_dense : Hll → ℕ → ℕ → Option (Hll × Bool)
add_dense h index rank = do
  (dense', changed) ← set_dense_register h.dense index rank
  some (record h { dense = dense' }, changed)

abbrev pub mark_dirty : Hll × Bool → Hll × Bool
mark_dirty (h, changed) = (if changed then record h { dirty = true } else h, changed)

unfoldable pub add_at : Hll → ℕ → ℕ → Option (Hll × Bool)
add_at h index rank = do
  h' ← if is_sparse h.enc && ltb sparse_val_max_value rank then promote h else some h
  result ← if is_sparse h'.enc then add_sparse h' index rank else add_dense h' index rank
  some (mark_dirty result)

-- `Add`.
unfoldable pub add : Hll → Bytes → Option (Hll × Bool)
unfolding add_at
add h bytes = let (index, rank) = hll_pat_len bytes in add_at h index rank

-- `for i := uint64(0); i < registers; i++` of `Merge`, with the rounds that are left.
unfoldable pub merge_dense : ℕ → ℕ → Bytes → Bytes × Bool → Option (Bytes × Bool)
merge_dense zero i other (dense, changed) = some (dense, changed)
merge_dense (suc n) i other (dense, changed) = do
  value ← get_dense_register other i
  (dense', grew) ← set_dense_register dense i value
  merge_dense n (i + 1) other (dense', changed || grew)

-- `Merge`: the receiver becomes dense first.
unfoldable pub merge : Hll → Hll → Option (Hll × Bool)
merge h other = do
  h' ← if is_sparse h.enc then promote h else some h
  (dense', changed) ←
      if is_sparse other.enc
      then copy_sparse other.sparse (h'.dense, false)
      else merge_dense registers 0 other.dense (h'.dense, false)
  some (mark_dirty (record h' { dense = dense' }, changed))
