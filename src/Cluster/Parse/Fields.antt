-- ===== src/Cluster/Parse/Fields.antt =====
-- cluster/config.go: a field of a line has no newline.
use learning_redis.Common.{
  All, All-append, ◌≢◌, inl, inr, sym, ap, ◌∙◌, arith, List, [], ◌∷◌, ◌++◌, Bytes, Bool-cases,
}
use learning_redis.Core.Decode.Written.{NotNewline}
use learning_redis.Core.Frame.{Plain}
use learning_redis.Cluster.Parse.{fields, fields_loop, end_field, is_space}

end_field-Plain :
    (field : Bytes) (rest : List Bytes)
    → Plain field
    → All Plain rest
    → All Plain (end_field field rest)
end_field-Plain [] rest h hs = hs
end_field-Plain (c ∷ cs) rest h hs = (h, hs)

-- A field has no white space.
fields_loop-Plain : (line field : Bytes) → Plain field → All Plain (fields_loop line field)
unfolding fields_loop
fields_loop-Plain [] field h = end_field-Plain field [] h tt
fields_loop-Plain (c ∷ cs) field h = elim (Bool-cases (is_space c)) [
  | inl space ↦ rw space (end_field-Plain field (fields_loop cs []) h (fields_loop-Plain cs [] tt))
  | inr other ↦
      let apart : c ≢ 10 = λ e. ground (arith, sym (ap is_space e) ∙ other) in
      rw other (
        fields_loop-Plain cs (field ++ c ∷ []) (All-append NotNewline field (c ∷ []) h (apart, tt)))
]

pub fields-Plain : (line : Bytes) → All Plain (fields line)
unfolding fields
fields-Plain line = fields_loop-Plain line [] tt
