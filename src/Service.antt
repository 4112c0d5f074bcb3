-- ===== src/Service.antt =====
-- src/server/chatservice.cpp: the state of `ChatService` on one node, and the calls of its handlers.
pub mod Sorting
pub mod Sorted
pub mod Chat
pub mod Delivery
pub mod Numbering
pub mod Members
pub mod GroupMessage
pub mod Table
pub mod Examples
pub mod Accounts
pub mod Dispatch
pub mod Evolves
use cluster_chatroom_project.Prelude.{
  ℕ, ◌+◌, Bool, true, false, not, ◌||◌, ◌&&◌, Option, some, none, List, [], ◌∷◌, ◌++◌, Bytes, codes,
  if◌then◌else◌,
}
use cluster_chatroom_project.Prelude.Int.{ℤ, eqb_ℤ}
use cluster_chatroom_project.Json.{JsonLib}
use cluster_chatroom_project.Redis.{Redis, Reply, other, incr_seq, publish, send_command}
use cluster_chatroom_project.Frame.{encode}
use cluster_chatroom_project.Effect.{
  Program, Result, done, thrown, give, throws, json_exception, ◌>>=◌, ◌>>◌,
}
use cluster_chatroom_project.Database.{Sql, connected}
use cluster_chatroom_project.Database.Offline.{insert_message}

-- MySQL, the Redis server with what it replies, and the connections that are open.
pub record World : Type 1 where
  pub sql : Sql
  pub incr : Bytes → sql.State → sql.State × Reply
  pub publish_reply : ℤ → Bytes → sql.State → sql.State × Reply
  -- What redisAppendCommand and redisBufferWrite give for a SUBSCRIBE, and for an UNSUBSCRIBE.
  pub subscribe_writes : ℤ → sql.State → sql.State × List (Option Bool)
  pub unsubscribe_writes : ℤ → sql.State → sql.State × List (Option Bool)
  pub is_connected : ℕ → sql.State → Bool

-- What leaves the node: a frame that is written to a connection, a message that Redis took, and a
-- row that MySQL was asked to put into the offline store, with whether it did.
pub data Sent : Type 0 where
  to_connection : ℕ → Bytes → Sent
  to_channel : ℤ → Bytes → Sent
  to_store : ℤ → Bytes → Bool → Sent

-- `_userConnMap`, `_redis`, everything outside, and what was sent so far.
pub record Machine (W : Type 0) : Type 0 where
  pub conns : List (ℤ × ℕ)
  pub redis : Redis
  pub world : W
  pub sent : List Sent

-- _userConnMap.find, insert and erase
unfoldable pub find_conn : ℤ → List (ℤ × ℕ) → Option ℕ
find_conn id [] = none
find_conn id ((i, c) ∷ rest) = if eqb_ℤ i id then some c else find_conn id rest

-- An entry that is there stays.
unfoldable pub insert_conn : ℤ → ℕ → List (ℤ × ℕ) → List (ℤ × ℕ)
insert_conn id c [] = (id, c) ∷ []
insert_conn id c ((i, d) ∷ rest) =
    if eqb_ℤ i id then (i, d) ∷ rest else (i, d) ∷ insert_conn id c rest

unfoldable pub erase_conn : ℤ → List (ℤ × ℕ) → List (ℤ × ℕ)
erase_conn id [] = []
erase_conn id ((i, c) ∷ rest) = if eqb_ℤ i id then rest else (i, c) ∷ erase_conn id rest

module _ (world : World) where
  open world use {sql, incr, publish_reply, subscribe_writes, unsubscribe_writes, is_connected}

  -- A model's method, called by a handler.
  abbrev pub in_world : {A : Type 0} → Program sql.State A → Program (Machine sql.State) A
  in_world p m = let r = p m.world in (record m { world = r.0 }, r.1)

  abbrev pub send : Sent → Program (Machine sql.State) Unit
  send x m = (record m { sent = m.sent ++ x ∷ [] }, done tt)

  -- ChatServer::sendWithHeader
  unfoldable pub send_with_header : ℕ → Bytes → Program (Machine sql.State) Unit
  send_with_header conn body m =
      if is_connected conn m.world then send (to_connection conn (encode body)) m else (m, done tt)

  -- _redis.incrSeq, with the reply that Redis gives if it is asked.
  unfoldable pub next_seq : Bytes → Program (Machine sql.State) ℕ
  next_seq conv m =
      if m.redis.command_context && m.redis.redis_available
      then (let (w, reply) = incr conv m.world in
          let (r, n) = incr_seq conv reply m.redis in (record m { redis = r; world = w }, done n))
      else (let (r, n) = incr_seq conv other m.redis in (record m { redis = r }, done n))

  -- _redis.publish
  unfoldable pub publish_to : ℤ → Bytes → Program (Machine sql.State) Bool
  publish_to id msg m =
      let (w, reply) = publish_reply id msg m.world in
      if publish reply
      then (record m { world = w; sent = m.sent ++ to_channel id msg ∷ [] }, done true)
      else (record m { world = w }, done false)

  unfoldable pub subscribe : ℤ → Program (Machine sql.State) (Option Bool)
  subscribe id m =
      let (w, writes) = subscribe_writes id m.world in
      (record m { world = w }, done (send_command true writes))

  unfoldable pub unsubscribe : ℤ → Program (Machine sql.State) (Option Bool)
  unsubscribe id m =
      let (w, writes) = unsubscribe_writes id m.world in
      (record m { world = w }, done (send_command true writes))

  module _ (lib : JsonLib) where
    open lib use {Json, find, set, as_int, as_string, dump}

    -- What the store was asked, if it was.
    abbrev pub noted : ℤ → Bytes → Option Bool → Program (Machine sql.State) Unit
    noted id msg none = give tt
    noted id msg (some ok) = send (to_store id msg ok)

    -- _offlineMsgModel.insert
    unfoldable pub store : ℤ → Bytes → Program (Machine sql.State) Unit
    store id msg = do asked ← in_world (insert_message lib sql id msg); noted id msg asked

    -- js[k].get<int>() and js[k] as a string
    abbrev pub or_throw : {A : Type 0} → Option A → Program (Machine sql.State) A
    or_throw none = throws json_exception
    or_throw (some a) = give a

    unfoldable pub get_int : Json → Bytes → Program (Machine sql.State) ℤ
    get_int js k = do field ← or_throw (find js k); or_throw (as_int field)

    unfoldable pub get_string : Json → Bytes → Program (Machine sql.State) Bytes
    get_string js k = do field ← or_throw (find js k); or_throw (as_string field)

    abbrev pub set_field : Bytes → Json → Json → Program (Machine sql.State) Json
    set_field k v js = or_throw (set js k v)

    -- response.dump() and its sending
    unfoldable pub respond : ℕ → Json → Program (Machine sql.State) Unit
    respond conn response = do text ← or_throw (dump response); send_with_header conn text
