-- ===== src/Commands/Command/Keys.antt =====
-- The keys of a command are some of its arguments, and KeysOf always ends.
use learning_redis.Common.{
  ℕ, zero, suc, subst, ◌+◌, ◌-◌, ◌≤◌, ◌<◌, ◌≡◌, ◌⊎◌, refl, arith, List, [], ◌∷◌, Bytes, Bool, true,
  false, ◌&&◌, Option, none, some, length, get_elem?, bytes_eq, ltb, ◌==◌, Bool-cases, inl, inr,
  All,
}
use learning_redis.Common.Int.{ℤ}
use learning_redis.Commands.Command.{
  Command, KeySpec, one_key, all_keys, no_keys, key_specs, find, at_most, last_of, keys_loop,
  keys_under, keys_for, keys_of,
}

-- The matching entry of a map of which every entry has a property.
pub find-All {ℓ} :
    {A : Type ℓ} (P : A → Type 0) (name : Bytes) (d : List (Bytes × A)) (a : A)
    → All (λ x. P x.1) d
    → find name d ≡ some a
    → P a
unfolding find
find-All P name [] a each h = ground (arith, h)
find-All P name ((n, b) ∷ rest) a each h = elim (Bool-cases (bytes_eq n name)) [
  | inl same ↦
      let h' : some b ≡ some a = simp same at h in
      let e : b ≡ a = ground (arith, h') in subst P e each.0
  | inr other ↦
      let h' : find name rest ≡ some a = simp other at h in find-All P name rest a each.1 h'
]

get_elem?-All :
    (P : Bytes → Type 0) (xs : List Bytes) (i : ℕ)
    → All P xs
    → i < length xs
    → (a : Bytes) × (get_elem? xs i ≡ some a) × P a
get_elem?-All P [] i each h = absurd (omega arith)
get_elem?-All P (x ∷ xs) zero each h = (x, refl, each.0)
get_elem?-All P (x ∷ xs) (suc i) each h = get_elem?-All P xs i each.1 (omega arith)

-- With a step of 1, one round for each argument that is left and one more is enough.
keys_loop-some :
    (P : Bytes → Type 0) (fuel p : ℕ) (last : ℤ) (argc : ℕ) (args : List Bytes)
    → All P args
    → argc ≡ length args + 1
    → 1 ≤ p
    → 1 ≤ fuel
    → argc + 1 ≤ fuel + p
    → (ks : List Bytes) × (keys_loop fuel p 1 last argc args ≡ some ks) × All P ks
unfolding keys_loop
keys_loop-some P zero p last argc args each size start some_fuel enough = absurd (omega arith)
keys_loop-some P (suc fuel) p last argc args each size start some_fuel enough =
    elim (Bool-cases (at_most p last && ltb p argc)) [
      | inr over ↦ ([], rw over refl, tt)
      | inl within ↦
          let lt = below (at_most p last) within in
          let (key, read, is_key) = get_elem?-All P args (p - 1) each (omega (arith, lt, size)) in
          let (ks, rest, are_keys) =
            keys_loop-some P fuel (p + 1) last argc args each size (omega arith) (omega arith)
              (omega arith) in
          (key ∷ ks, rw within (rw read (rw rest refl)), (is_key, are_keys))
    ]
  where
    below : (b : Bool) → (b && ltb p argc) ≡ true → p < argc
    below true h = ground arith
    below false h = ground arith

-- No keys, or keys one after the other.
abbrev Steps : KeySpec → Type 0
Steps spec = (spec.first ≡ 0) ⊎ ((spec.step ≡ 1) × (1 ≤ spec.first))

key_specs-Steps : All (λ x. Steps x.1) key_specs
key_specs-Steps =
    let one : Steps one_key = inr (refl, omega arith) in
    let many : Steps all_keys = inr (refl, omega arith) in
    let nothing : Steps no_keys = inl refl in
    (
      one,
      (
        one,
        (
          one,
          (
            one,
            (
              one,
              (
                one,
                (
                  one,
                  (
                    many,
                    (
                      many,
                      (
                        many,
                        (
                          inr (refl, omega arith),
                          (nothing, (nothing, (nothing, (nothing, (nothing, tt))))),
                        ),
                      ),
                    ),
                  ),
                ),
              ),
            ),
          ),
        ),
      ),
    )

keys_under-some :
    (P : Bytes → Type 0) (spec : KeySpec) (args : List Bytes)
    → Steps spec
    → All P args
    → (ks : List Bytes) × (keys_under spec args ≡ some ks) × All P ks
unfolding keys_under
keys_under-some P spec args (inl no_key) each =
    let none_first : (spec.first == 0) ≡ true = ground arith in ([], rw none_first refl, tt)
keys_under-some P spec args (inr (step, first)) each =
    let some_first : (spec.first == 0) ≡ false = ground arith in
    let argc = length args + 1 in
    let (ks, run, are_keys) =
      keys_loop-some P (argc + 1) spec.first (last_of argc spec.last) argc args each refl first
        (omega arith) (omega arith) in
    (ks, rw (some_first, step) run, are_keys)

-- `KeysOf` ends and does not panic, and every key is an argument, so it has what all of them have.
pub keys_of-some :
    (P : Bytes → Type 0) (cmd : Command)
    → All P cmd.args
    → (ks : List Bytes) × (keys_of cmd ≡ some ks) × All P ks
unfolding keys_of
keys_of-some P cmd each = by_spec (find cmd.name key_specs) refl
  where
    by_spec :
        (o : Option KeySpec)
        → find cmd.name key_specs ≡ o
        → (ks : List Bytes) × (keys_for cmd o ≡ some ks) × All P ks
    by_spec none found = ([], refl, tt)
    by_spec (some spec) found =
        keys_under-some P spec cmd.args
          (find-All Steps cmd.name key_specs spec key_specs-Steps found) each
