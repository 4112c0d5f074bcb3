-- ===== src/Json.antt =====
-- thirdparty/json.hpp is another project's library: what the program calls of it is a parameter.
-- An operation returns `none` where the library throws; the laws are those that it documents.
pub mod Sample
use cluster_chatroom_project.Prelude.{
  ℕ, ◌^◌, ◌<◌, ◌≡◌, ◌≢◌, Bool, true, Option, some, none, List, Bytes, same, if◌then◌else◌,
}
use cluster_chatroom_project.Prelude.Int.{ℤ}

pub record JsonLib : Type 1 where
  pub Json : Type 0
  -- json::parse and dump
  pub parse : Bytes → Option Json
  pub dump : Json → Option Bytes
  -- A `json js;` that nothing was assigned to.
  pub null : Json
  -- contains(k), and js[k] where it is contained
  pub find : Json → Bytes → Option Json
  -- js[k] = v
  pub set : Json → Bytes → Json → Option Json
  -- get<unsigned long long>(), of any number
  pub as_u64 : Json → Option ℕ
  -- is_object(), is_number_unsigned() with get<uint64_t>(), is_number_integer(), get<int>(), get<string>(),
  -- get<vector<string>>()
  pub as_unsigned : Json → Option ℕ
  pub is_object : Json → Bool
  pub is_integer : Json → Bool
  pub as_int : Json → Option ℤ
  pub as_string : Json → Option Bytes
  pub as_strings : Json → Option (List Bytes)
  pub of_unsigned : ℕ → Json
  pub of_int : ℤ → Json
  pub of_string : Bytes → Json
  pub of_strings : List Bytes → Json
  pub parse-dump : (j : Json) (b : Bytes) → dump j ≡ some b → parse b ≡ some j
  -- null contains nothing.
  pub find-null : (k : Bytes) → find null k ≡ none
  pub set-null : (k : Bytes) (v : Json) → set null k v ≢ none
  -- An object that has a field takes another.
  pub set_object : (j x v : Json) (k i : Bytes) → find j k ≡ some x → set j i v ≢ none
  pub find-set :
      (j j' v : Json) (k i : Bytes)
      → set j k v ≡ some j'
      → find j' i ≡ (if same k i then some v else find j i)
  pub as_unsigned-of_unsigned : (n : ℕ) → n < 2 ^ 64 → as_unsigned (of_unsigned n) ≡ some n
  pub as_u64-of_unsigned : (n : ℕ) → n < 2 ^ 64 → as_u64 (of_unsigned n) ≡ some n
  -- Only an object contains a key.
  pub find_object : (j x : Json) (k : Bytes) → find j k ≡ some x → is_object j ≡ true
  pub is_integer-of_int : (z : ℤ) → is_integer (of_int z) ≡ true
  pub as_int-of_int : (z : ℤ) → as_int (of_int z) ≡ some z
  pub as_string-of_string : (b : Bytes) → as_string (of_string b) ≡ some b
  pub as_strings-of_strings : (bs : List Bytes) → as_strings (of_strings bs) ≡ some bs
