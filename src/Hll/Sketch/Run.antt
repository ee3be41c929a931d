-- ===== src/Hll/Sketch/Run.antt =====
-- Runs of registers copied into a dense array: what `promote` and `Merge` do with a sparse stream.
use learning_redis.Common.{
  ℕ, zero, suc, ◌+◌, ◌≤◌, ◌<◌, ◌≡◌, ◌↔◌, refl, sym, ap, ◌∙◌, arith, Bytes, Bool, false, ◌&&◌, ◌||◌,
  Option, some, ◌>>=◌, ltb, leb, if◌then◌else◌, max,
}
use learning_redis.Hll.Registers.{registers, Registers, grow}
use learning_redis.Hll.Sparse.{add64}
use learning_redis.Hll.Dense.{set_dense_register}
use learning_redis.Hll.Dense.Grow.{HoldsDense, set_dense_register-grow, register_at-lt}
use learning_redis.Hll.Sketch.{raise_run, merge_dense}

-- The flag `changed` after a loop that took the registers from `f` to `g`: they never shrink, and
-- the flag is still off exactly when it was and every register is as before.
pub record Raises (f g : Registers) (before after : Bool) : Type 0 where
  pub mono : (j : ℕ) → j < registers → f j ≤ g j
  pub flag : (after ≡ false) ↔ ((before ≡ false) × ((j : ℕ) → j < registers → g j ≡ f j))

pub Raises-refl : (f : Registers) (b : Bool) → Raises f f b b
Raises-refl f b = record { mono = λ j lt. omega arith; flag = (λ e. (e, λ j lt. refl), λ p. p.0) }

pub Raises-trans :
    {f g h : Registers} {a b c : Bool} → Raises f g a b → Raises g h b c → Raises f h a c
Raises-trans {f} {g} {h} r s = record {
  mono = λ j lt. omega (arith, r.mono j lt, s.mono j lt);
  flag = (
    λ e.
        let (off, same) = s.flag.0 e in
        let (off', same') = r.flag.0 off in (off', λ j lt. same j lt ∙ same' j lt),
    λ p. s.flag.1 (
      r.flag.1 (p.0, λ j lt. omega (arith, r.mono j lt, s.mono j lt, p.1 j lt)),
      λ j lt. omega (arith, r.mono j lt, s.mono j lt, p.1 j lt),
    ),
  );
}

-- One register.
pub grow-Raises :
    (f : Registers) (i v : ℕ) (b : Bool)
    → i < registers
    → Raises f (grow f i v) b (b || ltb (f i) v)
grow-Raises f i v b lt = record {
  mono = λ j ltj. ground arith;
  flag = (λ e. (ground arith, λ j ltj. ground arith), λ p. let same = p.1 i lt in ground arith);
}

pub HoldsDense-ext :
    (dense : Bytes) (f g : Registers)
    → ((j : ℕ) → j < registers → f j ≡ g j)
    → HoldsDense dense f
    → HoldsDense dense g
HoldsDense-ext dense f g same h = record {
  size = h.size;
  bytes = h.bytes;
  reads = λ j lt. h.reads j lt ∙ ap some (same j lt);
}

pub Raises-ext :
    (f g h : Registers) (a b : Bool)
    → ((j : ℕ) → j < registers → g j ≡ h j)
    → Raises f g a b
    → Raises f h a b
Raises-ext f g h a b same r = record {
  mono = λ j lt. omega (arith, r.mono j lt, same j lt);
  flag = (
    λ e. let (off, still) = r.flag.0 e in (off, λ j lt. sym (same j lt) ∙ still j lt),
    λ p. r.flag.1 (p.0, λ j lt. same j lt ∙ p.1 j lt),
  );
}

-- A loop from the array `dense` with registers `f` ends with registers `g`.
pub record Ends (result : Option (Bytes × Bool)) (f g : Registers) (before : Bool) : Type 0 where
  pub out : Bytes
  pub after : Bool
  pub run : result ≡ some (out, after)
  pub holds : HoldsDense out g
  pub raises : Raises f g before after

pub Ends-ext :
    (r : Option (Bytes × Bool)) (f g h : Registers) (b : Bool)
    → ((j : ℕ) → j < registers → g j ≡ h j)
    → Ends r f g b
    → Ends r f h b
Ends-ext r f g h b same e = record {
  out = e.out;
  after = e.after;
  run = e.run;
  holds = HoldsDense-ext e.out g h same e.holds;
  raises = Raises-ext f g h b e.after same e.raises;
}

pub Ends-here :
    (dense : Bytes) (f : Registers) (b : Bool) → HoldsDense dense f → Ends (some (dense, b)) f f b
Ends-here dense f b held = record {
  out = dense;
  after = b;
  run = refl;
  holds = held;
  raises = Raises-refl f b;
}

-- One write to a register, and the rest of the loop.
Ends-step :
    (dense : Bytes) (f h : Registers) (i v : ℕ) (b : Bool)
    (rest : Bytes × Bool → Option (Bytes × Bool))
    → HoldsDense dense f
    → i < registers
    → v < 64
    → ((out : Bytes)
        → HoldsDense out (grow f i v)
        → Ends (rest (out, b || ltb (f i) v)) (grow f i v) h (b || ltb (f i) v))
    → Ends (set_dense_register dense i v >>= λ p. rest (p.0, b || p.1)) f h b
Ends-step dense f h i v b rest held lt small go =
    let (out, run, held') = set_dense_register-grow dense f i v held lt small in
    let e = go out held' in
    record {
      out = e.out;
      after = e.after;
      run = rw run e.run;
      holds = e.holds;
      raises = Raises-trans (grow-Raises f i v b lt) e.raises;
    }

-- The registers of a run, raised to `value`.
abbrev pub raised : Registers → ℕ → ℕ → ℕ → Registers
raised f start n value j = if leb start j && ltb j (start + n) then max (f j) value else f j

pub raise_run-Ends :
    (n start value : ℕ) (dense : Bytes) (f : Registers) (b : Bool)
    → HoldsDense dense f
    → start + n ≤ registers
    → value < 64
    → Ends (raise_run n start value (dense, b)) f (raised f start n value) b
unfolding raise_run
raise_run-Ends zero start value dense f b held fits small =
    Ends-ext (some (dense, b)) f f (raised f start 0 value) b (λ j lt. ground arith)
      (Ends-here dense f b held)
raise_run-Ends (suc n) start value dense f b held fits small =
    let e : add64 start 1 ≡ start + 1 = omega arith in
    Ends-step dense f (raised f start (suc n) value) start value b
      (raise_run n (add64 start 1) value) held (omega arith) small
      (λ out held'. rw e (
        Ends-ext (raise_run n (start + 1) value (out, b || ltb (f start) value))
          (grow f start value) (raised (grow f start value) (start + 1) n value)
          (raised f start (suc n) value) (b || ltb (f start) value) (λ j lt. ground arith)
          (raise_run-Ends n (start + 1) value out (grow f start value) (b || ltb (f start) value)
            held' (omega arith) small)))

pub merge_dense-Ends :
    (n i : ℕ) (other dense : Bytes) (f g : Registers) (b : Bool)
    → HoldsDense other g
    → HoldsDense dense f
    → i + n ≡ registers
    → Ends (merge_dense n i other (dense, b)) f (λ j. if leb i j then max (f j) (g j) else f j) b
unfolding merge_dense
merge_dense-Ends zero i other dense f g b ho held fits =
    Ends-ext (some (dense, b)) f f _ b (λ j lt. ground arith) (Ends-here dense f b held)
merge_dense-Ends (suc n) i other dense f g b ho held fits = rw (ho.reads i (omega arith)) (
    Ends-step dense f (λ j. if leb i j then max (f j) (g j) else f j) i (g i) b
      (merge_dense n (i + 1) other) held (omega arith) (register_at-lt other g i ho (omega arith))
      (λ out held'.
        Ends-ext (merge_dense n (i + 1) other (out, b || ltb (f i) (g i))) (grow f i (g i))
          (λ j. if leb (i + 1) j then max (grow f i (g i) j) (g j) else grow f i (g i) j)
          (λ j. if leb i j then max (f j) (g j) else f j) (b || ltb (f i) (g i))
          (λ j lt. merged_at f g i j)
          (merge_dense-Ends n (i + 1) other out (grow f i (g i)) g (b || ltb (f i) (g i)) ho held'
            (omega arith))))
  where
    merged_at :
        (f g : Registers) (i j : ℕ)
        → (if leb (i + 1) j then max (grow f i (g i) j) (g j) else grow f i (g i) j)
          ≡ (if leb i j then max (f j) (g j) else f j)
    merged_at f g i j = ground arith
