-- ===== src/Store/Contents.antt =====
-- store/store.go: what a store holds, without the clocks, the capacities and the counters.
pub mod Writes
pub mod Keys
use learning_redis.Common.{
  List, [], ◌∷◌, ◌≡◌, refl, ap, subst, arith, Bytes, Bool, true, false, Option, none, some, ◌>>=◌,
  if◌then◌else◌, bytes_eq, Bool-cases, inl, inr, All,
}
use learning_redis.Common.Int.{ℤ}
use learning_redis.Hll.Sketch.{Hll}
use learning_redis.Store.Entry.{Encoding, Sds, Entry}
use learning_redis.Store.Keys.{Data, lookup, put, erase}

pub record Content : Type 0 where
  pub encoding : Encoding
  pub int_val : ℤ
  pub text : Option Bytes
  pub sketch : Option Hll

abbrev pub text_in : Option Sds → Option Bytes
text_in none = none
text_in (some s) = some s.buf

abbrev pub content : Entry → Content
content e = record {
  encoding = e.encoding;
  int_val = e.int_val;
  text = text_in e.str_val;
  sketch = e.hll_val;
}

abbrev pub Contents : Type 0
Contents = List (Bytes × Content)

abbrev pub contents : Data → Contents
contents [] = []
contents ((k, e) ∷ d) = (k, content e) ∷ contents d

-- A map of keys to contents, and the three operations on it.
unfoldable pub find_content : Bytes → Contents → Option Content
find_content key [] = none
find_content key ((k, c) ∷ rest) =
    let found = find_content key rest in if bytes_eq k key then some c else found

unfoldable pub write_content : Bytes → Content → Contents → Contents
write_content key c [] = (key, c) ∷ []
write_content key c ((k, old) ∷ rest) =
    let rest' = write_content key c rest in
    if bytes_eq k key then (k, c) ∷ rest else (k, old) ∷ rest'

unfoldable pub drop_content : Bytes → Contents → Contents
drop_content key [] = []
drop_content key ((k, c) ∷ rest) =
    let rest' = drop_content key rest in if bytes_eq k key then rest else (k, c) ∷ rest'

abbrev pub content_of : Option Entry → Option Content
content_of none = none
content_of (some e) = some (content e)

pub content_of-lookup :
    (key : Bytes) (d : Data) → content_of (lookup key d) ≡ find_content key (contents d)
unfolding lookup find_content
content_of-lookup key [] = refl
content_of-lookup key ((k, e) ∷ d) = elim (Bool-cases (bytes_eq k key)) [
  | inl same ↦ rw same refl
  | inr other ↦ rw other (content_of-lookup key d)
]

pub contents-put :
    (key : Bytes) (e : Entry) (d : Data)
    → contents (put key e d) ≡ write_content key (content e) (contents d)
unfolding put write_content
contents-put key e [] = refl
contents-put key e ((k, old) ∷ d) = elim (Bool-cases (bytes_eq k key)) [
  | inl same ↦ rw same refl
  | inr other ↦ rw other (ap (◌∷◌ (k, content old)) (contents-put key e d))
]

pub contents-erase :
    (key : Bytes) (d : Data) → contents (erase key d) ≡ drop_content key (contents d)
unfolding erase drop_content
contents-erase key [] = refl
contents-erase key ((k, old) ∷ d) = elim (Bool-cases (bytes_eq k key)) [
  | inl same ↦ rw same refl
  | inr other ↦ rw other (ap (◌∷◌ (k, content old)) (contents-erase key d))
]

-- A write of what is there changes nothing.
pub contents-put_same :
    (key : Bytes) (e new : Entry) (d : Data)
    → lookup key d ≡ some e
    → content new ≡ content e
    → contents (put key new d) ≡ contents d
unfolding lookup put
contents-put_same key e new [] found same = ground (arith, found)
contents-put_same key e new ((k, old) ∷ d) found same = elim (Bool-cases (bytes_eq k key)) [
  | inl here ↦
      let at : some old ≡ some e = simp here at found in
      let is : old ≡ e = ground (arith, at) in rw here (rw (same, is) refl)
  | inr other ↦
      let further : lookup key d ≡ some e = simp other at found in
      rw other (ap (◌∷◌ (k, content old)) (contents-put_same key e new d further same))
]

-- No key has a time to live.
abbrev pub Lasts : Data → Type 0
Lasts = All (λ x. x.1.expires_at ≡ none)

pub lookup-Lasts :
    (key : Bytes) (d : Data) (e : Entry) → Lasts d → lookup key d ≡ some e → e.expires_at ≡ none
unfolding lookup
lookup-Lasts key [] e h found = ground (arith, found)
lookup-Lasts key ((k, old) ∷ d) e (h, hs) found = elim (Bool-cases (bytes_eq k key)) [
  | inl same ↦
      let at : some old ≡ some e = simp same at found in
      let is : old ≡ e = ground (arith, at) in subst (λ (t : Entry). t.expires_at ≡ none) is h
  | inr other ↦
      let further : lookup key d ≡ some e = simp other at found in lookup-Lasts key d e hs further
]

pub put-Lasts :
    (key : Bytes) (e : Entry) (d : Data) → Lasts d → e.expires_at ≡ none → Lasts (put key e d)
unfolding put
put-Lasts key e [] h at = (at, tt)
put-Lasts key e ((k, old) ∷ d) (h, hs) at = elim (Bool-cases (bytes_eq k key)) [
  | inl same ↦ rw same (at, hs)
  | inr other ↦ rw other (h, put-Lasts key e d hs at)
]

pub erase-Lasts : (key : Bytes) (d : Data) → Lasts d → Lasts (erase key d)
unfolding erase
erase-Lasts key [] h = tt
erase-Lasts key ((k, old) ∷ d) (h, hs) = elim (Bool-cases (bytes_eq k key)) [
  | inl same ↦ rw same hs
  | inr other ↦ rw other (h, erase-Lasts key d hs)
]
