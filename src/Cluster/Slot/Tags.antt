-- ===== src/Cluster/Slot/Tags.antt =====
-- Hash tags: which part of a key is hashed.
use learning_redis.Common.{
  ℕ, zero, suc, ◌+◌, ◌-◌, ◌≡◌, ◌≢◌, refl, sym, ap, ◌∙◌, arith, List, [], ◌∷◌, ◌++◌, Bytes, Option,
  none, some, ltb, take, drop, length, All, length-append, take-length-append, drop-length-append,
  append_assoc, Bool-cases, inl, inr, lt→ltb,
}
use learning_redis.Cluster.Slot.{
  index_byte_from, index_byte, tag_to, tag_from, hash_part, key_hash_slot,
}

abbrev pub Lacks : ℕ → Bytes → Type 0
Lacks c = All (λ x. x ≢ c)

take-All {ℓ} : {A : Type ℓ} (P : A → Type 0) (n : ℕ) (xs : List A) → All P xs → All P (take n xs)
take-All P zero xs h = tt
take-All P (suc n) [] h = tt
take-All P (suc n) (x ∷ xs) h = (h.0, take-All P n xs h.1)

drop-All {ℓ} : {A : Type ℓ} (P : A → Type 0) (n : ℕ) (xs : List A) → All P xs → All P (drop n xs)
drop-All P zero xs h = h
drop-All P (suc n) [] h = tt
drop-All P (suc n) (x ∷ xs) h = drop-All P n xs h.1

tag_to-All :
    (P : ℕ → Type 0) (key : Bytes) (i : ℕ) (o : Option ℕ) → All P key → All P (tag_to key i o)
unfolding tag_to
tag_to-All P key i none h = h
tag_to-All P key i (some j) h = elim (Bool-cases (ltb (i + 1) j)) [
  | inl more ↦ rw more (take-All P (j - (i + 1)) (drop (i + 1) key) (drop-All P (i + 1) key h))
  | inr no_more ↦ rw no_more h
]

tag_from-All : (P : ℕ → Type 0) (key : Bytes) (o : Option ℕ) → All P key → All P (tag_from key o)
tag_from-All P key none h = unfold tag_from in h
tag_from-All P key (some i) h =
    unfold tag_from in tag_to-All P key i (index_byte key b'}' (i + 1)) h

pub hash_part-All : (P : ℕ → Type 0) (key : Bytes) → All P key → All P (hash_part key)
unfolding hash_part
hash_part-All P key h = tag_from-All P key (index_byte key b'{' 0) h

-- The first `c` after bytes that are not `c`.
index_byte_from-found :
    (xs ys : Bytes) (c i : ℕ)
    → Lacks c xs
    → index_byte_from (xs ++ (c ∷ ys)) c i ≡ some (i + length xs)
unfolding index_byte_from
index_byte_from-found [] ys c i h = ground arith
index_byte_from-found (x ∷ xs) ys c i h = ground (arith, index_byte_from-found xs ys c (i + 1) h.1)

index_byte_from-missing : (xs : Bytes) (c i : ℕ) → Lacks c xs → index_byte_from xs c i ≡ none
unfolding index_byte_from
index_byte_from-missing [] c i h = refl
index_byte_from-missing (x ∷ xs) c i h = ground (arith, index_byte_from-missing xs c (i + 1) h.1)

take_only {ℓ} : {A : Type ℓ} (xs ys : List A) (n : ℕ) → n ≡ length xs → take n (xs ++ ys) ≡ xs
take_only xs ys n e = rw e (take-length-append xs ys)

-- A key `pre{tag}post`, with no `{` in `pre`, no `}` in `tag`, and a tag that is not empty.
abbrev pub tagged : Bytes → Bytes → Bytes → Bytes
tagged pre tag post = pre ++ (b'{' ∷ (tag ++ (b'}' ∷ post)))

drop-tagged :
    (pre tag post : Bytes) → drop (length pre + 1) (tagged pre tag post) ≡ tag ++ (b'}' ∷ post)
drop-tagged pre tag post =
    let front = pre ++ (b'{' ∷ []) in
    let size : length pre + 1 ≡ length front = rw (length-append pre (b'{' ∷ [])) (omega arith) in
    rw size (
      ap (drop (length front)) (sym (append_assoc pre (b'{' ∷ []) (tag ++ (b'}' ∷ post))))
      ∙ drop-length-append front (tag ++ (b'}' ∷ post)))

-- Exactly the tag is hashed.
pub hash_part-tagged :
    (pre tag post : Bytes)
    → Lacks b'{' pre
    → Lacks b'}' tag
    → tag ≢ []
    → hash_part (tagged pre tag post) ≡ tag
unfolding hash_part tag_from tag_to index_byte
hash_part-tagged pre [] post no_open no_close filled = absurd (filled refl)
hash_part-tagged pre (t ∷ ts) post no_open no_close filled =
    let tag = t ∷ ts in
    let opened = index_byte_from-found pre (tag ++ (b'}' ∷ post)) b'{' 0 no_open in
    let e : 0 + length pre ≡ length pre = omega arith in
    rw (opened, e)
      (rw (drop-tagged pre tag post) (
        rw (index_byte_from-found tag post b'}' (length pre + 1) no_close) (
          rw (lt→ltb (length pre + 1) (length pre + 1 + suc (length ts)) (omega arith)) (
            ap (take (length pre + 1 + suc (length ts) - (length pre + 1)))
              (drop-tagged pre tag post)
            ∙ take_only tag (b'}' ∷ post) (length pre + 1 + suc (length ts) - (length pre + 1))
                (omega arith)))))

-- Keys with the same hash tag share a slot, whatever stands around the tag.
pub key_hash_slot-tagged :
    (pre1 pre2 tag post1 post2 : Bytes)
    → Lacks b'{' pre1
    → Lacks b'{' pre2
    → Lacks b'}' tag
    → tag ≢ []
    → key_hash_slot (tagged pre1 tag post1) ≡ key_hash_slot (tagged pre2 tag post2)
unfolding key_hash_slot
key_hash_slot-tagged pre1 pre2 tag post1 post2 no1 no2 no_close filled =
    rw
      (
        hash_part-tagged pre1 tag post1 no1 no_close filled,
        hash_part-tagged pre2 tag post2 no2 no_close filled,
      )
      refl
