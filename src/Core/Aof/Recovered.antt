-- ===== src/Core/Aof/Recovered.antt =====
-- core/aof.go: `Recover` of a file that `Write` made, whole or cut short.
use learning_redis.Common.{
  ℕ, zero, suc, ◌+◌, ◌-◌, ◌≤◌, ◌<◌, List, [], ◌∷◌, ◌++◌, Bytes, true, Option, some, leb, leb→le,
  if◌then◌else◌, length, take, drop, arith, ◌≡◌, refl, All, Bool-cases, ◌⊎◌, inl, inr,
  length-append, append-nil, append_assoc, ap, ◌∙◌, sym,
}
use learning_redis.Core.Encode.{encode_array}
use learning_redis.Core.Decode.{
  Value, array, string, integer, ReadError, Read, got, failed, panicked, out_of_fuel, decode_value,
  decode, end_of_input,
}
use learning_redis.Core.Decode.Prefix.{take-append, Extends, decode_value-Extends}
use learning_redis.Core.Decode.Total.{Leaves, decode_value-Leaves, decode_value-shorter}
use learning_redis.Core.Decode.Written.{texts, ArgsFit, decode_value-encode_array}
use learning_redis.Core.Aof.{write, args_of, recover_next, recover_loop, recover}

-- The commands, each written after the others.
abbrev pub write_all : Bytes → List (List Bytes) → Bytes
write_all file [] = file
write_all file (args ∷ cmds) = write_all (write file args) cmds

-- The bytes that they add.
abbrev pub log : List (List Bytes) → Bytes
log [] = []
log (args ∷ cmds) = encode_array args ++ log cmds

pub write_all-log :
    (file : Bytes) (cmds : List (List Bytes)) → write_all file cmds ≡ file ++ log cmds
unfolding write
write_all-log file [] = sym (append-nil file)
write_all-log file (args ∷ cmds) =
    write_all-log (file ++ encode_array args) cmds
    ∙ append_assoc file (encode_array args) (log cmds)

args_of-texts : (args : List Bytes) → args_of (texts args) ≡ args
unfolding args_of
args_of-texts [] = refl
args_of-texts (s ∷ args) = ap (◌∷◌ s) (args_of-texts args)

-- The commands that `n` bytes of the log hold whole.
abbrev pub complete : ℕ → List (List Bytes) → List (List Bytes)
complete n [] = []
complete n (args ∷ cmds) =
    let more = complete (n - length (encode_array args)) cmds in
    if leb (length (encode_array args)) n then args ∷ more else []

take-drop : (n : ℕ) (xs : Bytes) → take n xs ++ drop n xs ≡ xs
take-drop zero xs = refl
take-drop (suc n) [] = refl
take-drop (suc n) (x ∷ xs) = ap (◌∷◌ x) (take-drop n xs)

length-drop : (n : ℕ) (xs : Bytes) → length (drop n xs) ≡ length xs - n
length-drop zero xs = omega arith
length-drop (suc n) [] = omega arith
length-drop (suc n) (x ∷ xs) = omega (arith, length-drop n xs)

pub take-append_ge :
    (n : ℕ) (xs ys : Bytes) → length xs ≤ n → take n (xs ++ ys) ≡ xs ++ take (n - length xs) ys
take-append_ge n [] ys h = let same : n - 0 ≡ n = omega arith in rw same refl
take-append_ge zero (x ∷ xs) ys h = absurd (omega (arith, h))
take-append_ge (suc n) (x ∷ xs) ys h =
    let same : suc n - suc (length xs) ≡ n - length xs = omega arith in
    rw same (ap (◌∷◌ x) (take-append_ge n xs ys (omega (arith, h))))

abbrev left_of : Read Value → ℕ
left_of (got v rest) = length rest
left_of (failed e) = 0
left_of panicked = 1
left_of out_of_fuel = 0

-- A part of a command is an error: its read would also be that of the whole command.
pub decode_value-cut :
    (args : List Bytes) (n : ℕ)
    → ArgsFit args
    → n < length (encode_array args)
    → (e : ReadError) × (decode_value (take n (encode_array args)) ≡ failed e)
decode_value-cut args n fits lt =
    let (e, h) =
      by_read (decode_value part) (decode_value-Extends part missing) (decode_value-Leaves part) in
    (e, h)
  where
    part : Bytes
    part = take n (encode_array args)

    missing : Bytes
    missing = drop n (encode_array args)

    whole : decode_value (part ++ missing) ≡ got (array (texts args)) []
    whole =
        ap decode_value (take-drop n (encode_array args) ∙ sym (append-nil (encode_array args)))
        ∙ decode_value-encode_array args [] fits

    by_read :
        (r : Read Value)
        → Extends r missing (decode_value (part ++ missing))
        → Leaves (length part - 1) r
        → (e : ReadError) × (r ≡ failed e)
    by_read (got v rest) ext le =
        let none_left : 0 ≡ length (rest ++ missing) = ap left_of (sym whole ∙ ext) in
        absurd (
          omega
            (arith, lt, none_left, length-append rest missing, length-drop n (encode_array args)))
    by_read (failed e) ext le = (e, refl)
    by_read panicked ext le =
        let differ : 0 ≡ 1 = ap left_of (sym whole ∙ ext) in absurd (omega (arith, differ))
    by_read out_of_fuel ext le = absurd le

recover_loop-end :
    (fuel : ℕ) (file : Bytes) (e : ReadError)
    → decode_value file ≡ failed e
    → recover_loop (suc fuel) file ≡ some []
unfolding recover_loop
recover_loop-end fuel file e h = rw h refl

pub decode_value-nil : (e : ReadError) × (decode_value [] ≡ failed e)
unfolding decode_value decode
decode_value-nil = (end_of_input, refl)

recover_loop-cut :
    (cmds : List (List Bytes)) (n fuel : ℕ)
    → All ArgsFit cmds
    → length (take n (log cmds)) < fuel
    → recover_loop fuel (take n (log cmds)) ≡ some (complete n cmds)
unfolding recover_loop
recover_loop-cut cmds n zero fits lt = absurd (omega (arith, lt))
recover_loop-cut [] zero (suc fuel) fits lt =
    recover_loop-end fuel [] decode_value-nil.0 decode_value-nil.1
recover_loop-cut [] (suc n) (suc fuel) fits lt =
    recover_loop-end fuel [] decode_value-nil.0 decode_value-nil.1
recover_loop-cut (args ∷ cmds) n (suc fuel) (fit, fits) lt =
    elim (Bool-cases (leb (length (encode_array args)) n)) [
      | inl holds ↦
          let le : length (encode_array args) ≤ n = leb→le (length (encode_array args)) n holds in
          let rest = take (n - length (encode_array args)) (log cmds) in
          let split = take-append_ge n (encode_array args) (log cmds) le in
          let read = decode_value-encode_array args rest fit in
          let smaller =
            decode_value-shorter (encode_array args ++ rest) (array (texts args)) rest read in
          let less : length rest < fuel = omega (arith, smaller, ap length split, lt) in
          rw
            (
              holds,
              split,
              read,
              args_of-texts args,
              recover_loop-cut cmds (n - length (encode_array args)) fuel fits less,
            )
            refl
      | inr cut ↦
          let short : n < length (encode_array args) = ground (arith, cut) in
          let (e, failure) = decode_value-cut args n fit short in
          rw (cut, take-append n (encode_array args) (log cmds) (omega (arith, short)))
            (recover_loop-end fuel (take n (encode_array args)) e failure)
    ]

-- A file of commands whose lengths fit the memory, cut after any number of bytes, gives back the
-- commands that it holds whole, in order, and no panic.
pub recover-cut :
    (cmds : List (List Bytes)) (n : ℕ)
    → All ArgsFit cmds
    → recover (take n (write_all [] cmds)) ≡ some (complete n cmds)
unfolding recover
recover-cut cmds n fits =
    rw (write_all-log [] cmds)
      (recover_loop-cut cmds n (length (take n (log cmds)) + 1) fits (omega arith))

complete-all : (cmds : List (List Bytes)) (n : ℕ) → length (log cmds) ≤ n → complete n cmds ≡ cmds
complete-all [] n h = refl
complete-all (args ∷ cmds) n h =
    let size = length-append (encode_array args) (log cmds) in
    let holds : leb (length (encode_array args)) n ≡ true = ground (arith, size, h) in
    rw holds
      (ap (◌∷◌ args) (complete-all cmds (n - length (encode_array args)) (omega (arith, size, h))))

pub take-all : (xs : Bytes) → take (length xs) xs ≡ xs
take-all [] = refl
take-all (x ∷ xs) = ap (◌∷◌ x) (take-all xs)

-- Every command that was written is recovered, in order.
pub recover-write_all :
    (cmds : List (List Bytes)) → All ArgsFit cmds → recover (write_all [] cmds) ≡ some cmds
recover-write_all cmds fits =
    let all = write_all [] cmds in
    ap recover (sym (take-all all))
    ∙ recover-cut cmds (length all) fits
    ∙ ap (λ (found : List (List Bytes)). some found)
        (complete-all cmds (length all) (omega (arith, ap length (write_all-log [] cmds))))

-- The loop ends on any file: it returns what it found, or a value in the file makes the decoder panic.
abbrev Ends : Option (List (List Bytes)) → Type 0
Ends o =
    ((calls : List (List Bytes)) × (o ≡ some calls))
    ⊎ ((rest : Bytes) × (decode_value rest ≡ panicked))

recover_next-Ends :
    (file : Bytes) (f : Bytes → Option (List (List Bytes))) (r : Read Value)
    → decode_value file ≡ r
    → Leaves (length file - 1) r
    → ((rest : Bytes) (v : Value) → decode_value file ≡ got v rest → Ends (f rest))
    → Ends (recover_next f r)
recover_next-Ends file f (failed err) e le more = inl ([], refl)
recover_next-Ends file f panicked e le more = inr (file, e)
recover_next-Ends file f out_of_fuel e le more = absurd le
recover_next-Ends file f (got (string s) rest) e le more = more rest (string s) e
recover_next-Ends file f (got (integer n) rest) e le more = more rest (integer n) e
recover_next-Ends file f (got (array vs) rest) e le more = elim (more rest (array vs) e) [
  | inl (calls, run) ↦ inl (args_of vs ∷ calls, rw run refl)
  | inr found ↦ inr found
]

recover_loop-Ends : (fuel : ℕ) (file : Bytes) → length file < fuel → Ends (recover_loop fuel file)
unfolding recover_loop
recover_loop-Ends zero file lt = absurd (omega (arith, lt))
recover_loop-Ends (suc fuel) file lt =
    recover_next-Ends file (recover_loop fuel) (decode_value file) refl (decode_value-Leaves file)
      (λ rest v e.
        recover_loop-Ends fuel rest (omega (arith, lt, decode_value-shorter file v rest e)))

-- `Recover` ends on any file: it passes on commands, unless a value in the file makes `Decode` panic.
pub recover-ends :
    (file : Bytes)
    → ((calls : List (List Bytes)) × (recover file ≡ some calls))
      ⊎ ((rest : Bytes) × (decode_value rest ≡ panicked))
unfolding recover
recover-ends file = recover_loop-Ends (length file + 1) file (omega arith)
