-- ===== src/Hll/Sparse.antt =====
-- The sparse form of a sketch (store/hll/hll_sparse.go): a stream of opcodes, read from the front.
-- `none` stands for the panic of a read past the end, after the first byte of a cut XZERO opcode.
pub mod Ops
pub mod Walk
pub mod Splice
use learning_redis.Common.{
  ℕ, ◌+◌, ◌-◌, ◌%◌, ◌^◌, List, [], ◌∷◌, ◌++◌, Bool, true, false, ◌&&◌, Option, none, some, leb, ltb,
  ◌==◌, if◌then◌else◌, take, drop, Bytes,
}
use learning_redis.Hll.Opcode.{
  SparseOpKind, op_zero, op_xzero, op_val, decode_op_kind, decode_zero, decode_xzero, decode_val,
  encode_val, encode_zero_run,
}

abbrev pub hll_sparse_max_bytes : ℕ
hll_sparse_max_bytes = 3000

-- Addition of uint64.
abbrev pub add64 : ℕ → ℕ → ℕ
add64 a b = (a + b) % 2 ^ 64

-- What `visit` answered decides whether the walk goes on.
abbrev pub after_visit {ℓ} : {S : Type ℓ} → S × Bool → (S → Option S) → Option S
after_visit (s, true) k = k s
after_visit (s, false) k = some s

-- The state that the closure `visit` captures is passed along. The list is `sparse[pos:]`.
unfoldable pub walk_sparse {ℓ} :
    {S : Type ℓ} → (S → ℕ → ℕ → ℕ → S × Bool) → ℕ → S → Bytes → Option S
walk_sparse visit idx s [] = some s
walk_sparse visit idx s (b ∷ []) = elim (decode_op_kind b) [
  | op_zero ↦ after_visit (visit s idx (decode_zero b) 0) some
  | op_xzero ↦ none
  | op_val ↦ let (value, length) = decode_val b in after_visit (visit s idx length value) some
]
walk_sparse visit idx s (b ∷ b1 ∷ rest) = elim (decode_op_kind b) [
  | op_zero ↦
      let length = decode_zero b in
      after_visit (visit s idx length 0) (λ s'. walk_sparse visit (add64 idx length) s' (b1 ∷ rest))
  | op_xzero ↦
      let length = decode_xzero b b1 in
      after_visit (visit s idx length 0) (λ s'. walk_sparse visit (add64 idx length) s' rest)
  | op_val ↦
      let (value, length) = decode_val b in
      after_visit (visit s idx length value)
        (λ s'. walk_sparse visit (add64 idx length) s' (b1 ∷ rest))
]

-- Is the register `index` inside the run of `run_len` registers from `idx` on?
abbrev pub in_run : ℕ → ℕ → ℕ → Bool
in_run index idx run_len = leb idx index && ltb index (add64 idx run_len)

abbrev pub get_visit : ℕ → ℕ → ℕ → ℕ → ℕ → ℕ × Bool
get_visit index result start_index run_len value =
    if in_run index start_index run_len then (value, false) else (result, true)

unfoldable pub sparse_get : Bytes → ℕ → Option ℕ
sparse_get sparse index = walk_sparse (get_visit index) 0 0 sparse

-- A histogram: how many registers hold each value. The array has 64 places, and every value that
-- an opcode or a dense register holds is below 64.
abbrev pub Histo : Type 0
Histo = ℕ → ℕ

abbrev pub bump : Histo → ℕ → ℕ → Histo
bump histo value n v = if v == value then histo v + n else histo v

abbrev pub histo_visit : Histo → ℕ → ℕ → ℕ → Histo × Bool
histo_visit histo start_index run_len value = (bump histo value run_len, true)

unfoldable pub sparse_histo : Bytes → Option Histo
sparse_histo sparse = walk_sparse histo_visit 0 (λ v. 0) sparse

-- The opcodes that take the place of the one that holds `index`.
unfoldable pub replacement : SparseOpKind → ℕ → ℕ → ℕ → ℕ → Bytes
replacement op_val value val before after =
    (if ltb 0 before then encode_val value before ∷ [] else [])
    ++ ((encode_val val 1 ∷ []) ++ (if ltb 0 after then encode_val value after ∷ [] else []))
replacement _ value val before after =
    (if ltb 0 before then encode_zero_run before else [])
    ++ ((encode_val val 1 ∷ []) ++ (if ltb 0 after then encode_zero_run after else []))

-- The body of `sparseSet` at the opcode that starts at `pos`; `again` is the next round, and gets
-- the run's length and the opcode's.
unfoldable pub set_at :
    Bytes → ℕ → ℕ → ℕ → ℕ → SparseOpKind → ℕ → ℕ → ℕ → Option (Bytes × Bool) → Option (Bytes × Bool)
unfolding replacement
set_at sparse index val idx pos kind run_len value op_bytes again =
    if in_run index idx run_len
    then if leb val value
      then some (sparse, false)
      else (let before = index - idx in
          let after = run_len - before - 1 in
          some (
            take pos sparse
                ++ (replacement kind value val before after ++ drop (pos + op_bytes) sparse),
            true,
          ))
    else again

-- The loop of `sparseSet`; the last list is `sparse[pos:]`.
unfoldable pub sparse_set_loop : Bytes → ℕ → ℕ → ℕ → ℕ → Bytes → Option (Bytes × Bool)
unfolding set_at
sparse_set_loop sparse index val idx pos [] = some (sparse, false)
sparse_set_loop sparse index val idx pos (b ∷ []) = elim (decode_op_kind b) [
  | op_zero ↦ set_at sparse index val idx pos op_zero (decode_zero b) 0 1 (some (sparse, false))
  | op_xzero ↦ none
  | op_val ↦
      let (value, run_len) = decode_val b in
      set_at sparse index val idx pos op_val run_len value 1 (some (sparse, false))
]
sparse_set_loop sparse index val idx pos (b ∷ b1 ∷ rest) = elim (decode_op_kind b) [
  | op_zero ↦
      let run_len = decode_zero b in
      set_at sparse index val idx pos op_zero run_len 0 1
        (sparse_set_loop sparse index val (add64 idx run_len) (pos + 1) (b1 ∷ rest))
  | op_xzero ↦
      let run_len = decode_xzero b b1 in
      set_at sparse index val idx pos op_xzero run_len 0 2
        (sparse_set_loop sparse index val (add64 idx run_len) (pos + 2) rest)
  | op_val ↦
      let (value, run_len) = decode_val b in
      set_at sparse index val idx pos op_val run_len value 1
        (sparse_set_loop sparse index val (add64 idx run_len) (pos + 1) (b1 ∷ rest))
]

unfoldable pub sparse_set : Bytes → ℕ → ℕ → Option (Bytes × Bool)
unfolding sparse_set_loop
sparse_set sparse index val = sparse_set_loop sparse index val 0 0 sparse
