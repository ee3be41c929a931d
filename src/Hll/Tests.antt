-- ===== src/Hll/Tests.antt =====
-- Runs of the sketch of store/hll on concrete inputs, and the theorems at concrete inputs.
use mathlib.Core.List.{Mem, mem-cons_self, mem-cons_of_mem, Mem-prop, mem-cons}
use mathlib.Core.Logic.Or
use mathlib.Core.Path.{subst, sym}
use learning_redis.Common.{
  ℕ, ◌+◌, ◌*◌, ◌/◌, ◌^◌, ◌-◌, ◌≡◌, refl, arith, List, [], ◌∷◌, ◌++◌, Bytes, true, some, ◌>>=◌, ltb,
  leb, codes,
}
use learning_redis.Hll.Registers.{grow}
use learning_redis.Hll.Opcode.{
  encode_xzero, encode_val, decode_op_kind, decode_xzero, encode_zero_run,
}
use learning_redis.Hll.Sparse.{sparse_set}
use learning_redis.Hll.Sparse.Splice.Effect.{HoldsSparse, sparse_set-grow}
use learning_redis.Hll.Murmur.{hll_pat_len, murmur_hash64a}
use learning_redis.Hll.Sketch.{Hll, new, add, merge}
use learning_redis.Hll.Sketch.Holds.{Steps, new-Holds}
use learning_redis.Hll.Sketch.Adding.{add-grow}
use learning_redis.Hll.Sketch.Merging.{Merges, merge-union}
use learning_redis.Hll.Sketch.Histogram.{Float, estimate, count}
use learning_redis.Hll.Sketch.Counting.{
  empty_histo, estimate_of, Counted, new-Counted, count-estimate_of,
}
use learning_redis.Hll.Sketch.Union.{add_all, count_same_values, count_merged_values}

-- Whole numbers in place of float64, with the law of the logarithm that the empty sketch needs.
abbrev pub whole_numbers : Float
whole_numbers = record {
  F = ℕ;
  of_int = λ n. n;
  add = λ a b. a + b;
  mul = λ a b. a * b;
  div = λ a b. a / b;
  pow = λ a b. a ^ b;
  log = λ a. a - 1;
  le = λ a b. leb a b;
  alpha_inf = 1;
  half = 0;
  two_and_half = 2;
  to_uint64 = λ a. a;
}

pub empty_estimate : estimate whole_numbers empty_histo ≡ 0
unfolding estimate
empty_estimate = refl

abbrev foo_bar : List Bytes
foo_bar = codes "foo" ∷ codes "bar" ∷ []

abbrev bar_foo_bar : List Bytes
bar_foo_bar = codes "bar" ∷ codes "foo" ∷ codes "bar" ∷ []

hash_runs : murmur_hash64a (codes "hello world!") ≡ 0xfc444011f57220c
unfolding murmur_hash64a
hash_runs = refl

pat_len_runs : hll_pat_len (codes "hello world!") ≡ (8716, 3)
unfolding hll_pat_len
pat_len_runs = refl

new_bytes : new.sparse ≡ 0x7f ∷ 0xff ∷ []
unfolding new encode_xzero
new_bytes = refl

splits_a_run :
    sparse_set (0x7f ∷ 0xff ∷ []) 100 3 ≡ some (0x40 ∷ 0x63 ∷ 0x88 ∷ 0x7f ∷ 0x9a ∷ [], true)
unfolding sparse_set decode_op_kind decode_xzero encode_val encode_zero_run encode_xzero
splits_a_run = refl

new_sparse-HoldsSparse : HoldsSparse new.sparse (λ i. 0)
unfolding new
new_sparse-HoldsSparse = new-Holds.live

sparse_set-grow_example :
    (out : Bytes) × (sparse_set new.sparse 100 3 ≡ some (out, ltb 0 3))
    × HoldsSparse out (grow (λ i. 0) 100 3)
sparse_set-grow_example =
    sparse_set-grow new.sparse (λ i. 0) 100 3 new_sparse-HoldsSparse (omega arith) (omega arith)
      (omega arith)

add-grow_example :
    Steps
      (add new (codes "foo"))
      new
      (grow (λ i. 0) (hll_pat_len (codes "foo")).0 (hll_pat_len (codes "foo")).1)
      (ltb 0 (hll_pat_len (codes "foo")).1)
add-grow_example = add-grow new (λ i. 0) (codes "foo") new-Holds

merge-union_example : Merges (merge new new) new (λ i. 0) (λ i. 0)
merge-union_example = merge-union new new (λ i. 0) (λ i. 0) new-Holds new-Holds

count-estimate_of_example :
    (h' : Hll) × (count whole_numbers new ≡ some (estimate_of whole_numbers (λ i. 0), h'))
    × Counted whole_numbers h' (λ i. 0)
count-estimate_of_example =
    count-estimate_of whole_numbers new (λ i. 0) (new-Counted whole_numbers empty_estimate)

same_forward : (x : Bytes) → Mem x foo_bar → Mem x bar_foo_bar
same_forward x m = mem-cons_of_mem (codes "bar") m

same_backward : (x : Bytes) → Mem x bar_foo_bar → Mem x foo_bar
same_backward x m =
    Or.elim Mem-prop (mem-cons.0 m)
      (λ e. subst (λ y. Mem y foo_bar) (sym e) (mem-cons_of_mem (codes "foo") mem-cons_self))
      (λ n. n)

count_same_values_example :
    (n : ℕ) × (a b : Hll) × (add_all new foo_bar >>= count whole_numbers ≡ some (n, a))
    × (add_all new bar_foo_bar >>= count whole_numbers ≡ some (n, b))
count_same_values_example =
    count_same_values whole_numbers foo_bar bar_foo_bar empty_estimate same_forward same_backward

count_merged_values_example :
    (n : ℕ) × (a b : Hll) × ((do
      x ← add_all new foo_bar
      y ← add_all new bar_foo_bar
      (m, changed) ← merge x y
      count whole_numbers m)
      ≡ some (n, a))
    × (add_all new (foo_bar ++ bar_foo_bar) >>= count whole_numbers ≡ some (n, b))
count_merged_values_example = count_merged_values whole_numbers foo_bar bar_foo_bar empty_estimate
