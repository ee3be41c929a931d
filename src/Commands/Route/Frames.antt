-- ===== src/Commands/Route/Frames.antt =====
-- commands/route.go: the errors of the routing check are replies.
use learning_redis.Common.{
  ℕ, ◌≡◌, refl, List, [], ◌∷◌, ◌++◌, Bytes, Bool, true, false, Option, none, some, ◌>>=◌, All,
  All-append, get_elem?, if◌then◌else◌, codes, arith, subst, zero, suc,
}
use learning_redis.Common.Int.{pos}
use learning_redis.Common.Decimal.{format_nat}
use learning_redis.Cluster.Slot.{key_hash_slot}
use learning_redis.Cluster.Layout.{Layout, Node, owner_of}
use learning_redis.Core.Encode.{encode_error}
use learning_redis.Core.Decode.Written.{NotNewline, format_nat-NotNewline}
use learning_redis.Core.Frame.{Plain, is_plain-Plain, Frame, failure}
use learning_redis.Commands.Command.{Command, keys_of}
use learning_redis.Commands.Route.{
  clusterdown, crossslot, moved, all_in_slot, is_self, owned, check_layout, check_keys,
  check_cluster,
}

-- The addresses of the nodes are lines.
abbrev pub PlainAddrs : Option Layout → Type 0
PlainAddrs none = Unit
PlainAddrs (some l) = All (λ n. Plain n.addr) l.nodes

get_elem?-All {ℓ κ} :
    {A : Type ℓ} (P : A → Type κ) (xs : List A) (i : ℕ) (x : A)
    → All P xs
    → get_elem? xs i ≡ some x
    → P x
get_elem?-All P [] i x each h = ground (arith, h)
get_elem?-All P (y ∷ xs) zero x (p, each) h = let same : y ≡ x = ground (arith, h) in subst P same p
get_elem?-All P (y ∷ xs) (suc i) x (p, each) h = get_elem?-All P xs i x each h

moved-Frame : (slot : ℕ) (n : Node) → Plain n.addr → Frame (moved slot n)
unfolding moved
moved-Frame slot n h =
    let text = codes "MOVED " ++ (format_nat slot ++ (codes " " ++ n.addr)) in
    failure text (
      All-append NotNewline (codes "MOVED ") (format_nat slot ++ (codes " " ++ n.addr))
        (is_plain-Plain (codes "MOVED ") refl)
        (All-append NotNewline (format_nat slot) (codes " " ++ n.addr) (format_nat-NotNewline slot)
          (All-append NotNewline (codes " ") n.addr (is_plain-Plain (codes " ") refl) h)))

abbrev EachMoved : (Bytes → Type 0) → Option Layout → Type 0
EachMoved P none = Unit
EachMoved P (some l) = (slot i : ℕ) (n : Node) → get_elem? l.nodes i ≡ some n → P (moved slot n)

abbrev EachError : (Bytes → Type 0) → Option (Option Bytes) → Type 0
EachError P none = Unit
EachError P (some none) = Unit
EachError P (some (some reply)) = P reply

-- What holds of each error that the check can give.
module _ (P : Bytes → Type 0) (down : P clusterdown) (cross : P crossslot) where
  owned-EachError :
      (l : Layout) (slot : ℕ) (o : Option ℕ) → EachMoved P (some l) → EachError P (owned l slot o)
  owned-EachError l slot none h = down
  owned-EachError l slot (some owner) h =
      by_self (is_self l.self owner) (get_elem? l.nodes owner) refl
    where
      by_self :
          (me : Bool) (o : Option Node)
          → get_elem? l.nodes owner ≡ o
          → EachError P (if me then some none else (o >>= λ n. some (some (moved slot n))))
      by_self true o e = tt
      by_self false none e = tt
      by_self false (some n) e = h slot owner n e

  check_layout-EachError :
      (l : Layout) (ks : List Bytes) → EachMoved P (some l) → EachError P (check_layout l ks)
  unfolding check_layout
  check_layout-EachError l [] h = tt
  check_layout-EachError l (k ∷ ks) h = by_slot (key_hash_slot k)
    where
      by_test :
          (slot : ℕ) (o : Option Bool)
          → EachError P
              (o >>= λ b. if b then owned l slot (owner_of l (pos slot)) else some (some crossslot))
      by_test slot none = tt
      by_test slot (some true) = owned-EachError l slot (owner_of l (pos slot)) h
      by_test slot (some false) = cross

      by_slot :
          (o : Option ℕ)
          → EachError P (
              o >>= λ slot. all_in_slot slot ks >>= λ b.
              if b then owned l slot (owner_of l (pos slot)) else some (some crossslot))
      by_slot none = tt
      by_slot (some slot) = by_test slot (all_in_slot slot ks)

  check_keys-EachError :
      (o : Option Layout) (ks : List Bytes) → EachMoved P o → EachError P (check_keys o ks)
  unfolding check_keys
  check_keys-EachError none ks h = tt
  check_keys-EachError (some l) ks h = check_layout-EachError l ks h

  check_cluster-EachError :
      (o : Option Layout) (cmd : Command) (reply : Bytes)
      → EachMoved P o
      → check_cluster o cmd ≡ some (some reply)
      → P reply
  unfolding check_cluster
  check_cluster-EachError o cmd reply h e = subst (EachError P) e (by_keys (keys_of cmd))
    where
      by_keys : (ks : Option (List Bytes)) → EachError P (ks >>= check_keys o)
      by_keys none = tt
      by_keys (some ks) = check_keys-EachError o ks h

-- An error of the check is one line.
pub check_cluster-Frame :
    (o : Option Layout) (cmd : Command) (reply : Bytes)
    → PlainAddrs o
    → check_cluster o cmd ≡ some (some reply)
    → Frame reply
check_cluster-Frame o cmd reply h e =
    check_cluster-EachError Frame
      (failure (codes "CLUSTERDOWN Hash slot not served")
        (is_plain-Plain (codes "CLUSTERDOWN Hash slot not served") refl))
      (failure (codes "CROSSSLOT Keys in request don't hash to the same slot")
        (is_plain-Plain (codes "CROSSSLOT Keys in request don't hash to the same slot") refl))
      o cmd reply (each o h) e
  where
    each : (o : Option Layout) → PlainAddrs o → EachMoved Frame o
    each none h = tt
    each (some l) h =
        λ slot i n at. moved-Frame slot n (get_elem?-All (λ n. Plain n.addr) l.nodes i n h at)

abbrev Begins : Bytes → Type 0
Begins [] = ⊥
Begins (c ∷ cs) = c ≡ b'-'

begins : (slot : ℕ) (n : Node) → Begins (moved slot n)
unfolding moved encode_error
begins slot n = refl

-- An error of the check begins with a minus.
pub check_cluster-Begins :
    (o : Option Layout) (cmd : Command) (reply : Bytes)
    → check_cluster o cmd ≡ some (some reply)
    → (text : Bytes) × (reply ≡ b'-' ∷ text)
unfolding encode_error
check_cluster-Begins o cmd reply e =
    minus reply (check_cluster-EachError Begins refl refl o cmd reply (each o) e)
  where
    minus : (reply : Bytes) → Begins reply → (text : Bytes) × (reply ≡ b'-' ∷ text)
    minus [] h = absurd h
    minus (c ∷ cs) h = (cs, rw h refl)

    each : (o : Option Layout) → EachMoved Begins o
    each none = tt
    each (some l) = λ slot i n at. begins slot n
