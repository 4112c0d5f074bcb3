-- ===== src/Json/Sample.antt =====
-- A library that meets the laws of `JsonLib`, to evaluate the model with: a value is a chain of
-- fields or of items, and its text is a prefix code.
use mathlib.Core.Option.{some-injective}
use cluster_chatroom_project.Prelude.{
  ℕ, zero, suc, ◌+◌, ◌≤◌, ◌<◌, ◌≡◌, ◌≢◌, refl, Bool, true, false, Option, some, none, List, [], ◌∷◌,
  ◌++◌, append-nil, append_assoc, Bytes, same, if◌then◌else◌, ◌>>=◌, arith, length, take, drop,
  take-length_append, drop-length_append, length-append, ap, ◌∙◌, sym, subst, String, codes,
}
use cluster_chatroom_project.Prelude.Int.{ℤ, pos, negsuc}
use cluster_chatroom_project.Json.{JsonLib}

pub data Value : Type 0 where
  null : Value
  int : ℤ → Value
  text : Bytes → Value
  field : Bytes → Value → Value → Value
  item : Bytes → Value → Value

abbrev pub write : Value → Bytes
write null = 0 ∷ []
write (int (pos n)) = 1 ∷ n ∷ []
write (int (negsuc n)) = 2 ∷ n ∷ []
write (text b) = 3 ∷ length b ∷ b
write (field k v rest) = 4 ∷ length k ∷ k ++ (write v ++ write rest)
write (item b rest) = 5 ∷ length b ∷ b ++ write rest

abbrev pub read : ℕ → Bytes → Option (Value × Bytes)
read (suc f) (zero ∷ bs) = some (null, bs)
read (suc f) (suc zero ∷ n ∷ bs) = some (int (pos n), bs)
read (suc f) (suc (suc zero) ∷ n ∷ bs) = some (int (negsuc n), bs)
read (suc f) (suc (suc (suc zero)) ∷ n ∷ bs) = some (text (take n bs), drop n bs)
read (suc f) (suc (suc (suc (suc zero))) ∷ n ∷ bs) = do
  v ← read f (drop n bs)
  rest ← read f v.1
  some (field (take n bs) v.0 rest.0, rest.1)
read (suc f) (suc (suc (suc (suc (suc zero)))) ∷ n ∷ bs) = do
  rest ← read f (drop n bs)
  some (item (take n bs) rest.0, rest.1)
read _ _ = none

abbrev size : Value → ℕ
size (field k v rest) = suc (size v + size rest)
size (item b rest) = suc (size rest)
size _ = 1

size-le : (v : Value) → size v ≤ length (write v)
size-le null = omega arith
size-le (int (pos n)) = omega arith
size-le (int (negsuc n)) = omega arith
size-le (text b) = omega arith
size-le (field k v rest) = omega (
  arith,
  size-le v,
  size-le rest,
  length-append k (write v ++ write rest),
  length-append (write v) (write rest),
)
size-le (item b rest) = omega (arith, size-le rest, length-append b (write rest))

size_pos : (v : Value) → 0 < size v
size_pos null = omega arith
size_pos _ = omega arith

read-write :
    (v : Value) (f : ℕ) (rest : Bytes) → size v ≤ f → read f (write v ++ rest) ≡ some (v, rest)
read-write v zero rest h = absurd (omega (arith, size_pos v))
read-write null (suc f) rest h = refl
read-write (int (pos n)) (suc f) rest h = refl
read-write (int (negsuc n)) (suc f) rest h = refl
read-write (text b) (suc f) rest h = rw (take-length_append b rest, drop-length_append b rest)
read-write (field k v r) (suc f) rest h = simp (
  append_assoc,
  drop-length_append,
  take-length_append,
  read-write v f (write r ++ rest) (omega arith),
  read-write r f rest (omega arith),
)
read-write (item b r) (suc f) rest h =
    simp (append_assoc, drop-length_append, take-length_append, read-write r f rest (omega arith))

abbrev dump : Value → Option Bytes
dump v = some (write v)

abbrev whole : Option (Value × Bytes) → Option Value
whole (some (v, [])) = some v
whole _ = none

abbrev parse : Bytes → Option Value
parse b = whole (read (length b) b)

pub parse-dump : (v : Value) (b : Bytes) → dump v ≡ some b → parse b ≡ some v
parse-dump v b h =
    let e = some-injective _ _ h in
    subst (λ x. parse x ≡ some v) e
      (ap whole (
        ap (read (length (write v))) (sym (append-nil (write v)))
        ∙ read-write v (length (write v)) [] (size-le v)))

abbrev find : Value → Bytes → Option Value
find (field k v rest) i = if same k i then some v else find rest i
find _ i = none

abbrev set : Value → Bytes → Value → Option Value
set null k v = some (field k v null)
set (field i x rest) k v = some (field k v (field i x rest))
set _ k v = none

abbrev as_unsigned : Value → Option ℕ
as_unsigned (int (pos n)) = some n
as_unsigned _ = none

abbrev is_object : Value → Bool
is_object (field k v rest) = true
is_object _ = false

pub find_object : (j x : Value) (k : Bytes) → find j k ≡ some x → is_object j ≡ true
find_object (field n y rest) x k h = refl
find_object null x k h = cc
find_object (int z) x k h = cc
find_object (text b) x k h = cc
find_object (item b rest) x k h = cc

abbrev is_integer : Value → Bool
is_integer (int z) = true
is_integer _ = false

abbrev as_int : Value → Option ℤ
as_int (int z) = some z
as_int _ = none

abbrev as_string : Value → Option Bytes
as_string (text b) = some b
as_string _ = none

abbrev as_strings : Value → Option (List Bytes)
as_strings null = some []
as_strings (item b rest) = do bs ← as_strings rest; some (b ∷ bs)
as_strings _ = none

abbrev of_strings : List Bytes → Value
of_strings [] = null
of_strings (b ∷ bs) = item b (of_strings bs)

pub set_object : (j x v : Value) (k i : Bytes) → find j k ≡ some x → set j i v ≢ none
set_object (field n y rest) x v k i h e = cc
set_object null x v k i h e = cc
set_object (int z) x v k i h e = cc
set_object (text b) x v k i h e = cc
set_object (item b rest) x v k i h e = cc

pub find-set :
    (j j' v : Value) (k i : Bytes)
    → set j k v ≡ some j'
    → find j' i ≡ (if same k i then some v else find j i)
find-set (field n y rest) j' v k i h = rw (sym (some-injective _ _ h)) refl
find-set null j' v k i h = rw (sym (some-injective _ _ h)) refl
find-set (int z) j' v k i h = cc
find-set (text b) j' v k i h = cc
find-set (item b rest) j' v k i h = cc

pub as_strings-of_strings : (bs : List Bytes) → as_strings (of_strings bs) ≡ some bs
as_strings-of_strings [] = refl
as_strings-of_strings (b ∷ bs) = rw (as_strings-of_strings bs)

pub some_value : (v : Value) → some v ≢ none
some_value v e = cc

abbrev pub sample : JsonLib
sample = record {
  Json = Value;
  parse = parse;
  dump = dump;
  null = null;
  find = find;
  set = set;
  as_unsigned = as_unsigned;
  as_u64 = as_unsigned;
  is_object = is_object;
  is_integer = is_integer;
  as_int = as_int;
  as_string = as_string;
  as_strings = as_strings;
  of_unsigned = λ n. int (pos n);
  of_int = int;
  of_string = text;
  of_strings = of_strings;
  parse-dump = parse-dump;
  find-null = λ k. refl;
  set-null = λ k v. some_value (field k v null);
  set_object = set_object;
  find-set = find-set;
  as_unsigned-of_unsigned = λ n h. refl;
  as_u64-of_unsigned = λ n h. refl;
  find_object = find_object;
  is_integer-of_int = λ z. refl;
  as_int-of_int = λ z. refl;
  as_string-of_string = λ b. refl;
  as_strings-of_strings = as_strings-of_strings;
}

-- A chat message of conversation `conv` with number `seq`.
abbrev pub numbered : String → ℕ → Value
numbered conv seq =
    field (codes "convid") (text (codes conv)) (field (codes "seq") (int (pos seq)) null)
