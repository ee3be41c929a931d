-- ===== src/Hll/Sparse/Walk.antt =====
-- The walk over a stream visits the runs that it spells, in order.
use learning_redis.Common.{
  ℕ, ◌+◌, ◌-◌, ◌*◌, ◌/◌, ◌%◌, ◌^◌, ◌≤◌, ◌<◌, ◌≡◌, refl, ap, ◌∙◌, arith, List, [], ◌∷◌, ◌++◌, Bytes,
  Bool, true, false, Option, some, All,
}
use learning_redis.Hll.Opcode.{decode_zero}
use learning_redis.Hll.Opcode.Bytes.{
  decode_op_kind-zero, decode_op_kind-xzero, decode_op_kind-val, encode_zero_lem, encode_xzero_lem,
  encode_val_lem, decode_xzero_lem, decode_val_lem,
}
use learning_redis.Hll.Sparse.{after_visit, walk_sparse, add64, get_visit, sparse_get}
use learning_redis.Hll.Sparse.Ops.{
  Op, zero_op, xzero_op, val_op, op_len, op_value, encode_op, IsOp, encode_ops, total_len, register,
  op_len-pos,
}

module _ {ℓ} {S : Type ℓ} (visit : S → ℕ → ℕ → ℕ → S × Bool) where
  after_last :
      (idx : ℕ) (p : S × Bool)
      → after_visit p some ≡ after_visit p (λ s. walk_sparse visit idx s [])
  unfolding walk_sparse
  after_last idx (s, true) = refl
  after_last idx (s, false) = refl

  zero_round :
      (idx : ℕ) (s : S) (n : ℕ) (rest : Bytes)
      → n < 64
      → walk_sparse visit idx s (n ∷ rest)
        ≡ after_visit (visit s idx (n + 1) 0) (λ s'. walk_sparse visit (add64 idx (n + 1)) s' rest)
  unfolding walk_sparse decode_zero
  zero_round idx s n [] h =
      rw (decode_op_kind-zero n h, walk_sparse)
        (after_last (add64 idx (n + 1)) (visit s idx (n + 1) 0))
  zero_round idx s n (b ∷ rest) h = rw (decode_op_kind-zero n h, walk_sparse)

  val_round :
      (idx : ℕ) (s : S) (b : ℕ) (rest : Bytes)
      → 128 ≤ b
      → b < 256
      → walk_sparse visit idx s (b ∷ rest)
        ≡ after_visit
            (visit s idx (b % 4 + 1) (b / 4 % 32 + 1))
            (λ s'. walk_sparse visit (add64 idx (b % 4 + 1)) s' rest)
  unfolding walk_sparse
  val_round idx s b [] lo hi =
      rw (decode_op_kind-val b lo hi, walk_sparse)
        (rw (decode_val_lem b)
          (after_last (add64 idx (b % 4 + 1)) (visit s idx (b % 4 + 1) (b / 4 % 32 + 1))))
  val_round idx s b (c ∷ rest) lo hi =
      rw (decode_op_kind-val b lo hi, walk_sparse) (rw (decode_val_lem b))

  xzero_round :
      (idx : ℕ) (s : S) (b c : ℕ) (rest : Bytes)
      → 64 ≤ b
      → b < 128
      → c < 256
      → walk_sparse visit idx s (b ∷ c ∷ rest)
        ≡ after_visit
            (visit s idx (b % 64 * 256 + c + 1) 0)
            (λ s'. walk_sparse visit (add64 idx (b % 64 * 256 + c + 1)) s' rest)
  unfolding walk_sparse
  xzero_round idx s b c rest lo hi h =
      rw (decode_op_kind-xzero b lo hi, walk_sparse) (rw (decode_xzero_lem b c h))

  -- One round of the walk takes one opcode.
  pub op_round :
      (o : Op) (idx : ℕ) (s : S) (rest : Bytes)
      → IsOp o
      → walk_sparse visit idx s (encode_op o ++ rest)
        ≡ after_visit
            (visit s idx (op_len o) (op_value o))
            (λ s'. walk_sparse visit (add64 idx (op_len o)) s' rest)
  op_round (zero_op n) idx s rest h =
      let e : n - 1 + 1 ≡ n = omega arith in
      rw (encode_zero_lem n h.0 h.1) (rw e at (zero_round idx s (n - 1) rest (omega arith)))
  op_round (xzero_op n) idx s rest h =
      let e : (64 + (n - 1) / 256) % 64 * 256 + (n - 1) % 256 + 1 ≡ n = omega arith in
      rw (encode_xzero_lem n h.0 h.1) (
        rw e at (
          xzero_round idx s (64 + (n - 1) / 256) ((n - 1) % 256) rest (omega arith) (omega arith)
            (omega arith)))
  op_round (val_op v n) idx s rest h =
      let b = 128 + (v - 1) * 4 + (n - 1) in
      let e : b % 4 + 1 ≡ n = omega arith in
      let f : b / 4 % 32 + 1 ≡ v = omega arith in
      rw (encode_val_lem v n h.0 h.1 h.2 h.3)
        (rw (e, f) at (val_round idx s b rest (omega arith) (omega arith)))

  abbrev pub go_on : S × Bool → (S → S) → S
  go_on (s, true) k = k s
  go_on (s, false) k = s

  -- The walk over the runs themselves.
  abbrev pub walk_ops : ℕ → S → List Op → S
  walk_ops idx s [] = s
  walk_ops idx s (o ∷ ops) =
      go_on (visit s idx (op_len o) (op_value o)) (λ s'. walk_ops (idx + op_len o) s' ops)

  after_visit-some :
      (p : S × Bool) (k : S → Option S) (k' : S → S)
      → ((s : S) → k s ≡ some (k' s))
      → after_visit p k ≡ some (go_on p k')
  after_visit-some (s, true) k k' h = h s
  after_visit-some (s, false) k k' h = refl

  -- On a stream that spells at most 2^64 - 1 registers the walk never panics, and sees its runs.
  pub walk_sparse-ops :
      (ops : List Op) (idx : ℕ) (s : S)
      → All IsOp ops
      → idx + total_len ops < 2 ^ 64
      → walk_sparse visit idx s (encode_ops ops) ≡ some (walk_ops idx s ops)
  walk_sparse-ops [] idx s each fits = unfold walk_sparse in refl
  walk_sparse-ops (o ∷ ops) idx s each fits =
      op_round o idx s (encode_ops ops) each.0
      ∙ after_visit-some (visit s idx (op_len o) (op_value o)) _ _ (λ s'.
        let e : add64 idx (op_len o) ≡ idx + op_len o = omega arith in
        rw e (walk_sparse-ops ops (idx + op_len o) s' each.1 (omega arith)))

-- The register that `sparseGet` finds: the walk stops at the run that holds it.
walk_get :
    (ops : List Op) (idx index : ℕ)
    → All IsOp ops
    → idx ≤ index
    → idx + total_len ops < 2 ^ 64
    → walk_ops (get_visit index) idx 0 ops ≡ register ops (index - idx)
walk_get [] idx index each lo fits = refl
walk_get (o ∷ ops) idx index each lo fits =
    ground (arith, walk_get ops (idx + op_len o) index each.1, op_len-pos o each.0)

-- `sparseGet` reads the register that the stream spells, and 0 past its end.
pub sparse_get-register :
    (ops : List Op) (index : ℕ)
    → All IsOp ops
    → total_len ops < 2 ^ 64
    → sparse_get (encode_ops ops) index ≡ some (register ops index)
unfolding sparse_get
sparse_get-register ops index each fits =
    let e : index - 0 ≡ index = omega arith in
    walk_sparse-ops (get_visit index) ops 0 0 each (omega arith)
    ∙ ap some (walk_get ops 0 index each (omega arith) (omega arith))
    ∙ ap (λ (i : ℕ). some (register ops i)) e
