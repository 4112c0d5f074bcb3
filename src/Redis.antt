-- ===== src/Redis.antt =====
-- src/server/redis/redis.cpp: the class `redis`. A call of hiredis is a parameter: its reply is an
-- argument of the method that makes it.
pub mod Sequence
pub mod Cluster
pub mod Fallback
pub mod Examples
use cluster_chatroom_project.Prelude.{
  ℕ, suc, ◌+◌, ◌-◌, ◌*◌, ◌%◌, ◌^◌, Bool, true, false, not, ◌||◌, ◌&&◌, Option, some, none, List, [],
  ◌∷◌, Bytes, same, ltb, leb, ◌==◌, if◌then◌else◌,
}
use cluster_chatroom_project.Prelude.Int.{ℤ, pos, negsuc}

-- The connections that are open, and the numbers handed out without Redis.
pub record Redis : Type 0 where
  pub publish_context : Bool
  pub subscribe_context : Bool
  pub command_context : Bool
  pub redis_available : Bool
  pub local_seq : List (Bytes × ℕ)

-- What redisCommand returns: a null pointer, an integer, a string with its characters, or else.
pub data Reply : Type 0 where
  null : Reply
  integer : ℤ → Reply
  string : Option Bytes → Reply
  other : Reply

abbrev pub u64 : ℕ
u64 = 2 ^ 64

-- static_cast<uint64_t> of a long long
abbrev pub to_u64 : ℤ → ℕ
to_u64 (pos n) = n % u64
to_u64 (negsuc n) = u64 - 1 - n

abbrev pub closed : Redis
closed = record {
  publish_context = false;
  subscribe_context = false;
  command_context = false;
  redis_available = false;
  local_seq = [];
}

-- `connect`: whether each of the three calls of redisConnect gives a context.
unfoldable pub connect : Bool → Bool → Bool → Redis → Redis × Bool
connect false sub cmd r = (record r { publish_context = false }, false)
connect true false cmd r = (record r { publish_context = true; subscribe_context = false }, false)
connect true true false r =
    (record r { publish_context = true; subscribe_context = true; command_context = false }, false)
connect true true true r = (
  record r {
    publish_context = true;
    subscribe_context = true;
    command_context = true;
    redis_available = true;
  },
  true,
)

-- `_localSeq[conversationId]`
unfoldable pub count : Bytes → List (Bytes × ℕ) → ℕ
count conv [] = 0
count conv ((c, v) ∷ rest) = if same c conv then v else count conv rest

unfoldable pub set_count : Bytes → ℕ → List (Bytes × ℕ) → List (Bytes × ℕ)
set_count conv n [] = (conv, n) ∷ []
set_count conv n ((c, v) ∷ rest) =
    if same c conv then (c, n) ∷ rest else (c, v) ∷ set_count conv n rest

abbrev pub fallback_base : ℕ
fallback_base = 2 ^ 40

unfoldable pub local_fallback_seq : Bytes → Redis → Redis × ℕ
local_fallback_seq conv r =
    let v = (count conv r.local_seq + 1) % u64 in
    (record r { local_seq = set_count conv v r.local_seq }, (fallback_base + v) % u64)

-- Behind INCR: a reply that is no integer leaves the number 0.
unfoldable pub replied : Bytes → Reply → Redis → Redis × ℕ
replied conv null r = local_fallback_seq conv (record r { redis_available = false })
replied conv (integer z) r = if to_u64 z == 0 then local_fallback_seq conv r else (r, to_u64 z)
replied conv (string s) r = local_fallback_seq conv r
replied conv other r = local_fallback_seq conv r

-- `incrSeq`; the reply is that of INCR, if it is sent.
unfoldable pub incr_seq : Bytes → Reply → Redis → Redis × ℕ
incr_seq conv reply r =
    if not r.command_context || not r.redis_available
    then local_fallback_seq conv r
    else replied conv reply r

-- strtoull of the text of a counter: the digits at its beginning, at most ULLONG_MAX.
abbrev pub strtoull : ℕ → Bytes → ℕ
strtoull acc [] = acc
strtoull acc (c ∷ cs) =
    let next = acc * 10 + (c - b'0') in
    let more = strtoull (if ltb next u64 then next else u64 - 1) cs in
    if leb b'0' c && leb c b'9' then more else acc

-- `getSeq`; the reply is that of GET.
unfoldable pub get_seq : Reply → Redis → Redis × ℕ
get_seq reply r = if not r.command_context || not r.redis_available then (r, 0) else (elim reply [
  | null ↦ (record r { redis_available = false }, 0)
  | string (some text) ↦ (r, strtoull 0 text)
  | _ ↦ (r, 0)
])

-- A redisReply inside an array: the fields that the program reads, whatever the element's type.
pub record Element : Type 0 where
  pub integer_field : ℤ
  pub str : Option Bytes

-- The conversion of a long long to the handler's int.
abbrev pub to_int : ℤ → ℤ
to_int (pos n) = let k = n % 2 ^ 32 in if ltb k (2 ^ 31) then pos k else negsuc (2 ^ 32 - 1 - k)
to_int (negsuc n) = let k = n % 2 ^ 32 in if ltb k (2 ^ 31) then negsuc k else pos (2 ^ 32 - 1 - k)

-- One round of `observer_channel_message`: whom the handler is called for, and with what.
unfoldable pub observe : Element → Option Element → Option (ℤ × Bytes)
observe channel none = none
observe channel (some message) = elim message.str [
  | none ↦ none
  | some text ↦ some (to_int channel.integer_field, text)
]

-- redisAppendCommand's result, then redisBufferWrite's, each with `done`: the results in order, as
-- far as the loop calls for them; `none` is a list that ends before the loop does.
unfoldable pub flush_writes : List (Option Bool) → Option Bool
flush_writes [] = none
flush_writes (none ∷ rest) = some false
flush_writes (some true ∷ rest) = some true
flush_writes (some false ∷ rest) = flush_writes rest

-- `subscribe` and `unsubscribe`
unfoldable pub send_command : Bool → List (Option Bool) → Option Bool
send_command false writes = some false
send_command true writes = flush_writes writes

-- `publish`: true unless PUBLISH has no reply.
unfoldable pub publish : Reply → Bool
publish null = false
publish _ = true
