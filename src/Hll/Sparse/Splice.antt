-- ===== src/Hll/Sparse/Splice.antt =====
-- `sparseSet` on a stream that spells runs: which runs it puts in place of the one that it splits.
pub mod Effect
use learning_redis.Common.{
  ℕ, ◌+◌, ◌-◌, ◌*◌, ◌/◌, ◌%◌, ◌^◌, ◌≤◌, ◌<◌, ◌≡◌, refl, ap, sym, ◌∙◌, arith, List, [], ◌∷◌, ◌++◌,
  Bytes, Bool, true, false, ◌&&◌, Option, some, ltb, leb, ◌==◌, if◌then◌else◌, length,
  length-append, take, drop, take-length-append, drop-length-append, append_assoc, append-nil, All,
  All-append, max, ◌⊎◌, inl, inr, Bool-cases,
}
use learning_redis.Hll.Opcode.{
  SparseOpKind, op_zero, op_xzero, op_val, encode_val, decode_op_kind, decode_zero, encode_zero_run,
}
use learning_redis.Hll.Opcode.Bytes.{
  decode_op_kind-zero, decode_op_kind-xzero, decode_op_kind-val, encode_zero_lem, encode_xzero_lem,
  encode_val_lem, decode_xzero_lem, decode_val_lem,
}
use learning_redis.Hll.Sparse.{add64, in_run, replacement, set_at, sparse_set_loop, sparse_set}
use learning_redis.Hll.Sparse.Ops.{
  Op, zero_op, xzero_op, val_op, op_len, op_value, op_kind, encode_op, IsOp, encode_ops, total_len,
  register, op_len-pos,
}
use native.Mathlib.Decide.{dec_lt}

module _ (sparse : Bytes) (index val idx pos : ℕ) where
  zero_step :
      (n : ℕ) (rest : Bytes)
      → n < 64
      → sparse_set_loop sparse index val idx pos (n ∷ rest)
        ≡ set_at sparse index val idx pos op_zero
            (n + 1)
            0
            1
            (sparse_set_loop sparse index val (add64 idx (n + 1)) (pos + 1) rest)
  unfolding sparse_set_loop decode_zero
  zero_step n [] h = rw (decode_op_kind-zero n h, sparse_set_loop)
  zero_step n (b ∷ rest) h = rw (decode_op_kind-zero n h, sparse_set_loop)

  xzero_step :
      (b c : ℕ) (rest : Bytes)
      → 64 ≤ b
      → b < 128
      → c < 256
      → sparse_set_loop sparse index val idx pos (b ∷ c ∷ rest)
        ≡ set_at sparse index val idx pos op_xzero
            (b % 64 * 256 + c + 1)
            0
            2
            (sparse_set_loop sparse index val (add64 idx (b % 64 * 256 + c + 1)) (pos + 2) rest)
  unfolding sparse_set_loop
  xzero_step b c rest lo hi h =
      rw (decode_op_kind-xzero b lo hi, sparse_set_loop) (rw (decode_xzero_lem b c h))

  val_step :
      (b : ℕ) (rest : Bytes)
      → 128 ≤ b
      → b < 256
      → sparse_set_loop sparse index val idx pos (b ∷ rest)
        ≡ set_at sparse index val idx pos op_val
            (b % 4 + 1)
            (b / 4 % 32 + 1)
            1
            (sparse_set_loop sparse index val (add64 idx (b % 4 + 1)) (pos + 1) rest)
  unfolding sparse_set_loop
  val_step b [] lo hi = rw (decode_op_kind-val b lo hi, sparse_set_loop) (rw (decode_val_lem b))
  val_step b (c ∷ rest) lo hi =
      rw (decode_op_kind-val b lo hi, sparse_set_loop) (rw (decode_val_lem b))

  -- One round of the loop takes one opcode.
  op_step :
      (o : Op) (rest : Bytes)
      → IsOp o
      → sparse_set_loop sparse index val idx pos (encode_op o ++ rest)
        ≡ set_at sparse index val idx pos
            (op_kind o)
            (op_len o)
            (op_value o)
            (length (encode_op o))
            (sparse_set_loop sparse index val
              (add64 idx (op_len o))
              (pos + length (encode_op o))
              rest)
  op_step (zero_op n) rest h =
      let e : n - 1 + 1 ≡ n = omega arith in
      rw (encode_zero_lem n h.0 h.1) (rw e at (zero_step (n - 1) rest (omega arith)))
  op_step (xzero_op n) rest h =
      let b = 64 + (n - 1) / 256 in
      let c = (n - 1) % 256 in
      let e : b % 64 * 256 + c + 1 ≡ n = omega arith in
      rw (encode_xzero_lem n h.0 h.1)
        (rw e at (xzero_step b c rest (omega arith) (omega arith) (omega arith)))
  op_step (val_op v n) rest h =
      let b = 128 + (v - 1) * 4 + (n - 1) in
      let e : b % 4 + 1 ≡ n = omega arith in
      let f : b / 4 % 32 + 1 ≡ v = omega arith in
      rw (encode_val_lem v n h.0 h.1 h.2 h.3)
        (rw (e, f) at (val_step b rest (omega arith) (omega arith)))

pub zero_run : ℕ → Op
zero_run n = if leb n 64 then zero_op n else xzero_op n

encode_zero_run_lem : (n : ℕ) → encode_zero_run n ≡ encode_op (zero_run n)
unfolding encode_zero_run zero_run
encode_zero_run_lem n = ground arith

-- A run of `n` registers with the value of `o`, if `n` is not 0.
pub part : Op → ℕ → List Op
part (val_op v m) n = if ltb 0 n then val_op v n ∷ [] else []
part o n = if ltb 0 n then zero_run n ∷ [] else []

-- The runs in place of `o`, whose register `i` becomes `val`.
pub split : Op → ℕ → ℕ → List Op
split o i val = part o i ++ (val_op val 1 ∷ part o (op_len o - i - 1))

pub splice : List Op → ℕ → ℕ → List Op
splice [] i val = []
splice (o ∷ ops) i val =
    if ltb i (op_len o) then split o i val ++ ops else o ∷ splice ops (i - op_len o) val

encode_ops-append : (xs ys : List Op) → encode_ops (xs ++ ys) ≡ encode_ops xs ++ encode_ops ys
encode_ops-append [] ys = refl
encode_ops-append (x ∷ xs) ys =
    ap (◌++◌ (encode_op x)) (encode_ops-append xs ys)
    ∙ sym (append_assoc (encode_op x) (encode_ops xs) (encode_ops ys))

-- What `replacement` puts before and after the new register.
abbrev zeros : ℕ → Bytes
zeros n = if ltb 0 n then encode_zero_run n else []

abbrev values : ℕ → ℕ → Bytes
values v n = if ltb 0 n then encode_val v n ∷ [] else []

zero_part : (n : ℕ) → encode_ops (if ltb 0 n then zero_run n ∷ [] else []) ≡ zeros n
zero_part n = ground (arith, encode_zero_run_lem n, append-nil (encode_op (zero_run n)))

val_part : (v n : ℕ) → encode_ops (if ltb 0 n then val_op v n ∷ [] else []) ≡ values v n
val_part v n = ground arith

encode_ops-split :
    (o : Op) (i val : ℕ)
    → encode_ops (split o i val)
      ≡ encode_ops (part o i) ++ (encode_val val 1 ∷ encode_ops (part o (op_len o - i - 1)))
unfolding split
encode_ops-split o i val = encode_ops-append (part o i) (val_op val 1 ∷ part o (op_len o - i - 1))

replacement-split :
    (o : Op) (i val : ℕ)
    → replacement (op_kind o) (op_value o) val i (op_len o - i - 1) ≡ encode_ops (split o i val)
unfolding replacement part
replacement-split (zero_op n) i val =
    sym (encode_ops-split (zero_op n) i val ∙ rw (zero_part i, zero_part (n - i - 1)))
replacement-split (xzero_op n) i val =
    sym (encode_ops-split (xzero_op n) i val ∙ rw (zero_part i, zero_part (n - i - 1)))
replacement-split (val_op v n) i val =
    sym (encode_ops-split (val_op v n) i val ∙ rw (val_part v i, val_part v (n - i - 1)))

-- What `sparseSet` returns on a stream that spells `pre ++ ops`, from the place of `ops` on.
set_result : List Op → List Op → ℕ → ℕ → Bytes × Bool
set_result pre ops i val =
    if ltb i (total_len ops)
    then if leb val (register ops i)
      then (encode_ops (pre ++ ops), false)
      else (encode_ops (pre ++ splice ops i val), true)
    else (encode_ops (pre ++ ops), false)

take-drop-append :
    (xs ys zs new : Bytes)
    → take (length xs) (xs ++ (ys ++ zs))
        ++ (new ++ drop (length xs + length ys) (xs ++ (ys ++ zs)))
      ≡ xs ++ (new ++ zs)
take-drop-append xs ys zs new =
    let e : drop (length xs + length ys) (xs ++ (ys ++ zs)) ≡ zs =
      rw (← append_assoc xs ys zs, ← length-append xs ys) (drop-length-append (xs ++ ys) zs) in
    rw (take-length-append xs (ys ++ zs), e)

spliced :
    (pre ops : List Op) (o : Op) (i val : ℕ)
    → take (length (encode_ops pre)) (encode_ops (pre ++ (o ∷ ops)))
        ++ (replacement (op_kind o) (op_value o) val i (op_len o - i - 1)
            ++ drop
                (length (encode_ops pre) + length (encode_op o))
                (encode_ops (pre ++ (o ∷ ops))))
      ≡ encode_ops (pre ++ (split o i val ++ ops))
spliced pre ops o i val =
    rw
      (
        encode_ops-append pre (o ∷ ops),
        replacement-split o i val,
        encode_ops-append pre (split o i val ++ ops),
        encode_ops-append (split o i val) ops,
      )
      (take-drop-append (encode_ops pre) (encode_op o) (encode_ops ops)
        (encode_ops (split o i val)))

set_at-here :
    (pre ops : List Op) (o : Op) (index val idx : ℕ) (again : Option (Bytes × Bool))
    → idx ≤ index
    → index < idx + op_len o
    → idx + op_len o < 2 ^ 64
    → set_at
        (encode_ops (pre ++ (o ∷ ops)))
        index
        val
        idx
        (length (encode_ops pre))
        (op_kind o)
        (op_len o)
        (op_value o)
        (length (encode_op o))
        again
      ≡ some (set_result pre (o ∷ ops) (index - idx) val)
unfolding set_at set_result splice
set_at-here pre ops o index val idx again lo hi fits =
    ground (arith, spliced pre ops o (index - idx) val)

set_at-past :
    (sparse : Bytes) (o : Op) (index val idx pos op_bytes : ℕ) (again : Option (Bytes × Bool))
    → idx + op_len o ≤ index
    → idx + op_len o < 2 ^ 64
    → set_at sparse index val idx pos (op_kind o) (op_len o) (op_value o) op_bytes again ≡ again
unfolding set_at
set_at-past sparse o index val idx pos op_bytes again h fits = ground arith

set_result-past :
    (pre ops : List Op) (o : Op) (i val : ℕ)
    → op_len o ≤ i
    → set_result (pre ++ (o ∷ [])) ops (i - op_len o) val ≡ set_result pre (o ∷ ops) i val
unfolding set_result splice
set_result-past pre ops o i val h = ground (
  arith,
  append_assoc pre (o ∷ []) ops,
  append_assoc pre (o ∷ []) (splice ops (i - op_len o) val),
)

length-encode_ops-snoc :
    (pre : List Op) (o : Op)
    → length (encode_ops (pre ++ (o ∷ []))) ≡ length (encode_ops pre) + length (encode_op o)
length-encode_ops-snoc pre o =
    rw (encode_ops-append pre (o ∷ []), append-nil (encode_op o))
      (length-append (encode_ops pre) (encode_op o))

sub_sub :
    (idx : ℕ) (pre ops : List Op) (o : Op) (index val : ℕ)
    → idx + op_len o ≤ index
    → set_result (pre ++ (o ∷ [])) ops (index - (idx + op_len o)) val
      ≡ set_result pre (o ∷ ops) (index - idx) val
sub_sub idx pre ops o index val h =
    let e : index - (idx + op_len o) ≡ index - idx - op_len o = omega arith in
    rw e (set_result-past pre ops o (index - idx) val (omega arith))

-- The loop, from the opcode on that follows `pre`.
set_loop-result :
    (ops pre : List Op) (sparse : Bytes) (index val idx pos : ℕ)
    → sparse ≡ encode_ops (pre ++ ops)
    → pos ≡ length (encode_ops pre)
    → All IsOp ops
    → idx ≤ index
    → idx + total_len ops < 2 ^ 64
    → sparse_set_loop sparse index val idx pos (encode_ops ops)
      ≡ some (set_result pre ops (index - idx) val)
set_loop-result [] pre sparse index val idx pos e p each lo fits =
    unfold sparse_set_loop set_result in ground arith
set_loop-result (o ∷ ops) pre sparse index val idx pos e p each lo fits =
    let idx' : add64 idx (op_len o) ≡ idx + op_len o = omega arith in
    let rest =
      sparse_set_loop sparse index val (add64 idx (op_len o)) (pos + length (encode_op o))
        (encode_ops ops) in
    op_step sparse index val idx pos o (encode_ops ops) each.0
    ∙ elim (dec_lt index (idx + op_len o)) [
      | yes h ↦ rw (e, p) (set_at-here pre ops o index val idx _ lo h (omega arith))
      | no h ↦
          set_at-past sparse o index val idx pos (length (encode_op o)) rest (omega arith)
            (omega arith)
          ∙ rw idx' (
              set_loop-result ops (pre ++ (o ∷ [])) sparse index val (idx + op_len o)
                (pos + length (encode_op o))
                (e ∙ ap encode_ops (sym (append_assoc pre (o ∷ []) ops)))
                (rw (length-encode_ops-snoc pre o, p)) each.1 (omega arith) (omega arith))
          ∙ ap some (sub_sub idx pre ops o index val (omega arith))
    ]

-- `sparseSet` on a stream that spells its runs.
pub sparse_set-result :
    (ops : List Op) (index val : ℕ)
    → All IsOp ops
    → total_len ops < 2 ^ 64
    → sparse_set (encode_ops ops) index val
      ≡ some (
          if ltb index (total_len ops) && ltb (register ops index) val
          then (encode_ops (splice ops index val), true)
          else (encode_ops ops, false))
unfolding sparse_set
sparse_set-result ops index val each fits =
    let e : index - 0 ≡ index = omega arith in
    set_loop-result ops [] (encode_ops ops) index val 0 0 refl refl each (omega arith) (omega arith)
    ∙ rw e (unfold set_result in ground arith)
