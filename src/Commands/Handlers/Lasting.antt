-- ===== src/Commands/Handlers/Lasting.antt =====
-- commands/: the writes that set no time to live, by what they do to the contents of the store.
use learning_redis.Common.{
  ℕ, List, [], ◌∷◌, ◌≡◌, refl, sym, ap, subst, ◌∙◌, arith, Bytes, Bool, true, false, Option, none,
  some, ◌>>=◌, if◌then◌else◌, codes, bytes_eq,
}
use learning_redis.Common.Int.{pos, signed_word}
use learning_redis.Common.Decimal.{format_int}
use learning_redis.Core.Encode.{encode_simple_string, encode_error, encode_integer}
use learning_redis.Hll.Sketch.Histogram.{Float}
use learning_redis.Cluster.Layout.{Layout}
use learning_redis.Store.Keys.{Store}
use learning_redis.Store.Strings.{set, append, delete, get_int, IntResult, missing, not_an_integer}
use learning_redis.Store.Strings
use learning_redis.Store.Sketches.{pf_add, pf_merge, add_values, is_hll}
use learning_redis.Store.Entry.{Encoding, encoding_int, encoding_embstr, encoding_raw, encoding_hll}
use learning_redis.Hll.Sketch.{Hll, new}
use learning_redis.Store.Contents.{Contents, contents, Content, find_content, write_content, Lasts}
use learning_redis.Store.Contents.Writes.{
  Stands, Reaches, text_content, set-Stands, append_content, append-Reaches, int_is, int_in,
  get_int-Stands,
}
use learning_redis.Store.Contents.Keys.{
  delete_contents, delete-Stands, pf_add_content, pf_add-Reaches, pf_add_onto, fill_content,
  sketch_content, Arrives, pf_merge_content, pf_merge-Arrives,
}
use learning_redis.Commands.Command.{Command, to_upper, find}
use learning_redis.Commands.Registry.{
  Moment, HandlerFunc, is_error_reply, is_one_of, write_commands,
}
use learning_redis.Commands.Handlers.{
  handle_set, handle_append, handle_incr, handle_del, handle_pf_add, handle_pf_merge, incremented,
  flag, added, incr_found,
}
use learning_redis.Commands.Table.{handler_table}

abbrev command : Bytes → List Bytes → Command
command name args = record { name = name; args = args }

-- The writes that set no time to live: all but EXPIRE and SET with an option.
pub data Lasting : Command → Type 0 where
  sets : (key value : Bytes) → Lasting (record { name = codes "SET"; args = key ∷ value ∷ [] })
  appends :
      (key value : Bytes) → Lasting (record { name = codes "APPEND"; args = key ∷ value ∷ [] })
  increments : (key : Bytes) → Lasting (record { name = codes "INCR"; args = key ∷ [] })
  deletes :
      (key : Bytes) (keys : List Bytes) → Lasting (record { name = codes "DEL"; args = key ∷ keys })
  adds :
      (key : Bytes) (values : List Bytes)
      → Lasting (record { name = codes "PFADD"; args = key ∷ values })
  merges :
      (dest : Bytes) (sources : List Bytes)
      → Lasting (record { name = codes "PFMERGE"; args = dest ∷ sources })

abbrev pub handler_of : {cmd : Command} → Lasting cmd → HandlerFunc
handler_of (sets key value) = handle_set
handler_of (appends key value) = handle_append
handler_of (increments key) = handle_incr
handler_of (deletes key keys) = handle_del
handler_of (adds key values) = handle_pf_add
handler_of (merges dest sources) = handle_pf_merge

abbrev pub ok_text : Bytes
ok_text = encode_simple_string (codes "OK")

abbrev pub lengthened : Contents × ℕ → Option (Contents × Bytes)
lengthened (cs, n) = some (cs, encode_integer (signed_word n))

abbrev pub incr_content : Bytes → Contents → IntResult → Contents × Bytes
incr_content key cs missing =
    (write_content key (text_content (format_int (pos 1))) cs, encode_integer (pos 1))
incr_content key cs not_an_integer = (cs, encode_error (codes "ERR while incrementing"))
incr_content key cs (Strings.integer n at) = (
  write_content key (text_content (format_int (incremented n))) cs,
  encode_integer (incremented n),
)

abbrev pub added_content : Contents × Option Bool → Option (Contents × Bytes)
added_content (cs, none) =
    some (cs, encode_error (codes "WRONGTYPE Key is not a valid HyperLogLog string value."))
added_content (cs, some changed) = some (cs, encode_integer (flag changed))

abbrev pub merged_content : Contents → Option (Contents × Bytes)
merged_content cs = some (cs, ok_text)

-- What a command does to contents, and its reply.
unfoldable pub effect : {cmd : Command} → Lasting cmd → Contents → Option (Contents × Bytes)
effect (sets key value) cs = some (write_content key (text_content value) cs, ok_text)
effect (appends key value) cs = append_content key value cs >>= lengthened
effect (increments key) cs = some (incr_content key cs (int_in (find_content key cs)))
effect (deletes key keys) cs = lengthened (delete_contents cs (key ∷ keys) 0)
effect (adds key values) cs = pf_add_content key values cs >>= added_content
effect (merges dest sources) cs = pf_merge_content dest sources cs >>= merged_content

pub find-Lasting :
    (fl : Float) (enabled : Bool) (layout : Option Layout) (cmd : Command) (l : Lasting cmd)
    → find cmd.name (handler_table fl enabled layout) ≡ some (handler_of l)
unfolding find bytes_eq
find-Lasting fl enabled layout _ (sets key value) = refl
find-Lasting fl enabled layout _ (appends key value) = refl
find-Lasting fl enabled layout _ (increments key) = refl
find-Lasting fl enabled layout _ (deletes key keys) = refl
find-Lasting fl enabled layout _ (adds key values) = refl
find-Lasting fl enabled layout _ (merges dest sources) = refl

-- It is a write command, with its name in capitals.
pub Lasting-writes :
    (cmd : Command)
    → Lasting cmd
    → (is_one_of cmd.name write_commands ≡ true) × (to_upper cmd.name ≡ cmd.name)
unfolding is_one_of bytes_eq to_upper
Lasting-writes _ (sets key value) = (refl, refl)
Lasting-writes _ (appends key value) = (refl, refl)
Lasting-writes _ (increments key) = (refl, refl)
Lasting-writes _ (deletes key keys) = (refl, refl)
Lasting-writes _ (adds key values) = (refl, refl)
Lasting-writes _ (merges dest sources) = (refl, refl)

-- A number that was read without an expiry.
abbrev Timeless : IntResult → Type 0
Timeless (Strings.integer n (some at)) = ⊥
Timeless (Strings.integer n none) = Unit
Timeless missing = Unit
Timeless not_an_integer = Unit

int_in-Timeless : (o : Option Content) → Timeless (int_in o)
int_in-Timeless none = tt
int_in-Timeless (some c) = by_encoding c.encoding
  where
    by_encoding : (enc : Encoding) → Timeless (int_is enc c)
    by_encoding encoding_int = tt
    by_encoding encoding_embstr = tt
    by_encoding encoding_raw = tt
    by_encoding encoding_hll = tt

incr-Reaches :
    (m : Moment) (s : Store) (key : Bytes)
    → Lasts s.data_of
    → Reaches (handle_incr m (key ∷ []) s) (
        some
          (incr_content key (contents s.data_of) (int_in (find_content key (contents s.data_of)))))
unfolding handle_incr
incr-Reaches m s key h =
    let (stands, read) = get_int-Stands m.env s key h in
    subst
      (λ (r : IntResult).
        Reaches (incr_found m key (get_int m.env s key))
          (some (incr_content key (contents s.data_of) r)))
      read
      (by_read (get_int m.env s key).0 (get_int m.env s key).1 stands
        (subst Timeless (sym read) (int_in-Timeless (find_content key (contents s.data_of)))))
  where
    by_read :
        (s' : Store) (r : IntResult)
        → Stands s' (contents s.data_of)
        → Timeless r
        → Reaches (incr_found m key (s', r)) (some (incr_content key (contents s.data_of) r))
    by_read s' missing (same, lasts) is =
        let (now, still) = set-Stands m.env s' key (format_int (pos 1)) (pos 0) refl lasts in
        ((now ∙ ap (write_content key (text_content (format_int (pos 1)))) same, still), refl)
    by_read s' not_an_integer stands is = (stands, refl)
    by_read s' (Strings.integer n (some at)) stands is = absurd is
    by_read s' (Strings.integer n none) (same, lasts) is =
        let text = format_int (incremented n) in
        let (now, still) = set-Stands m.env s' key text (pos 0) refl lasts in
        ((now ∙ ap (write_content key (text_content text)) same, still), refl)

-- The handlers do what their effects say.
pub handler-Reaches :
    (cmd : Command) (l : Lasting cmd) (m : Moment) (s : Store)
    → Lasts s.data_of
    → Reaches (handler_of l m cmd.args s) (effect l (contents s.data_of))
unfolding effect handle_set handle_append handle_del handle_pf_add handle_pf_merge
handler-Reaches _ (sets key value) m s h = (set-Stands m.env s key value (pos 0) refl h, refl)
handler-Reaches _ (appends key value) m s h =
    lengthens (append m.env s key value) (append_content key value (contents s.data_of))
      (append-Reaches m.env s key value h)
  where
    lengthens :
        (o : Option (Store × ℕ)) (x : Option (Contents × ℕ))
        → Reaches o x
        → Reaches (o >>= λ r. some (r.0, encode_integer (signed_word r.1))) (x >>= lengthened)
    lengthens none none r = tt
    lengthens none (some b) r = absurd r
    lengthens (some a) none r = absurd r
    lengthens (some a) (some b) (stands, same) =
        (stands, ap (λ (n : ℕ). encode_integer (signed_word n)) same)
handler-Reaches _ (increments key) m s h = incr-Reaches m s key h
handler-Reaches _ (deletes key keys) m s h =
    let (stands, count) = delete-Stands m.env s (key ∷ keys) h in
    (stands, ap (λ (n : ℕ). encode_integer (signed_word n)) count)
handler-Reaches _ (adds key values) m s h =
    replies (pf_add m.env s key values) (pf_add_content key values (contents s.data_of))
      (pf_add-Reaches m.env s key values h)
  where
    by_result :
        (s' : Store) (cs : Contents) (b : Option Bool)
        → Stands s' cs
        → Reaches (added (s', b)) (added_content (cs, b))
    by_result s' cs none stands = (stands, refl)
    by_result s' cs (some changed) stands = (stands, refl)

    replies :
        (o : Option (Store × Option Bool)) (x : Option (Contents × Option Bool))
        → Reaches o x
        → Reaches (o >>= added) (x >>= added_content)
    replies none none r = tt
    replies none (some b) r = absurd r
    replies (some a) none r = absurd r
    replies (some (s', a)) (some (cs, b)) (stands, same) =
        subst (λ (c : Option Bool). Reaches (added (s', a)) (added_content (cs, c))) same
          (by_result s' cs a stands)
handler-Reaches _ (merges dest sources) m s h =
    replies (pf_merge m.env s dest sources) (pf_merge_content dest sources (contents s.data_of))
      (pf_merge-Arrives m.env s dest sources h)
  where
    replies :
        (o : Option Store) (x : Option Contents)
        → Arrives o x
        → Reaches (o >>= λ s'. some (s', ok_text)) (x >>= merged_content)
    replies none none r = tt
    replies none (some b) r = absurd r
    replies (some a) none r = absurd r
    replies (some a) (some b) stands = (stands, refl)

-- A command that is answered with an error changes no content.
abbrev pub KeepsOnError : Contents → Option (Contents × Bytes) → Type 0
KeepsOnError cs none = Unit
KeepsOnError cs (some (cs', reply)) = is_error_reply reply ≡ true → cs' ≡ cs

pub effect-KeepsOnError :
    (cmd : Command) (l : Lasting cmd) (cs : Contents) → KeepsOnError cs (effect l cs)
unfolding effect is_error_reply encode_integer encode_simple_string
effect-KeepsOnError _ (sets key value) cs = λ e. ground (arith, e)
effect-KeepsOnError _ (appends key value) cs = by_result (append_content key value cs)
  where
    by_result : (o : Option (Contents × ℕ)) → KeepsOnError cs (o >>= lengthened)
    by_result none = tt
    by_result (some r) = λ e. ground (arith, e)
effect-KeepsOnError _ (increments key) cs = by_read (int_in (find_content key cs))
  where
    by_read : (r : IntResult) → KeepsOnError cs (some (incr_content key cs r))
    by_read missing = λ e. ground (arith, e)
    by_read not_an_integer = λ e. refl
    by_read (Strings.integer n at) = λ e. ground (arith, e)
effect-KeepsOnError _ (deletes key keys) cs = λ e. ground (arith, e)
effect-KeepsOnError _ (adds key values) cs = unfold pf_add_content in by_entry (find_content key cs)
  where
    by_added :
        (c : Content) (o : Option (Hll × Bool))
        → KeepsOnError cs (
            (o >>= λ r. some (write_content key (record c { sketch = some r.0 }) cs, some r.1))
            >>= added_content)
    by_added c none = tt
    by_added c (some r) = λ e. ground (arith, e)

    by_sketch :
        (c : Content) (o : Option Hll) (created : Bool)
        → KeepsOnError cs (
            (o >>= λ h. add_values values h created >>= λ r.
            some (write_content key (record c { sketch = some r.0 }) cs, some r.1))
            >>= added_content)
    by_sketch c none created = tt
    by_sketch c (some h) created = by_added c (add_values values h created)

    by_kind :
        (c : Content) (b : Bool)
        → KeepsOnError cs
            ((if b then fill_content key values cs c false else some (cs, none)) >>= added_content)
    by_kind c true = by_sketch c c.sketch false
    by_kind c false = λ e. refl

    by_entry :
        (o : Option Content) → KeepsOnError cs (pf_add_onto key values cs o >>= added_content)
    by_entry none = by_sketch (sketch_content (some new)) (some new) true
    by_entry (some c) = by_kind c (is_hll c.encoding)
effect-KeepsOnError _ (merges dest sources) cs = by_result (pf_merge_content dest sources cs)
  where
    by_result : (o : Option Contents) → KeepsOnError cs (o >>= merged_content)
    by_result none = tt
    by_result (some r) = λ e. ground (arith, e)
