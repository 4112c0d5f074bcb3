-- ===== src/Client/Receive.antt =====
-- src/client/main.cpp: `readTaskHandler`.
use cluster_chatroom_project.Prelude.{
  ℕ, Bool, ◌||◌, Option, some, none, List, [], ◌∷◌, ◌++◌, Bytes, codes, if◌then◌else◌, ◌>>=◌, ◌>>◌,
}
use cluster_chatroom_project.Prelude.Int.{ℤ, pos, eqb_ℤ}
use cluster_chatroom_project.Conversation.Decimal.{to_string}
use cluster_chatroom_project.Json.{JsonLib}
use cluster_chatroom_project.Orderer.Conversations.{tick, on_message}
use cluster_chatroom_project.Client.{Client}

module _ (lib : JsonLib) where
  open lib use {Json, parse, dump, find, is_object, as_int, as_u64, as_string}

  -- js.value(k, d): throws if js is no object, or the field no number.
  abbrev pub or_value : {A : Type 0} → Option Json → (Json → Option A) → A → Option A
  or_value none get d = some d
  or_value (some field) get d = get field

  unfoldable pub message_type : Json → Option ℤ
  message_type js = if is_object js then or_value (find js (codes "msgid")) as_int (pos 0) else none

  abbrev pub is_chat : ℤ → Bool
  is_chat t = eqb_ℤ t (pos 6) || eqb_ℤ t (pos 10)

  -- js[k] as an int or a string; of a constant js, a missing key is undefined behaviour.
  abbrev pub int_field : Json → Bytes → Option ℤ
  int_field js k = do field ← find js k; as_int field

  abbrev pub text_field : Json → Bytes → Option Bytes
  text_field js k = do field ← find js k; as_string field

  -- The text of a chat message, with what stands between its sender and its words.
  abbrev pub said : Json → ℕ → Option Bytes → Option Bytes
  said js seq between = do
    time ← text_field js (codes "time")
    id ← find js (codes "id")
    number ← dump id
    name ← text_field js (codes "name")
    where_to ← between
    msg ← text_field js (codes "msg")
    some (
        time
        ++ (codes " [#"
            ++ (to_string (pos seq)
                ++ (codes "]["
                    ++ (number
                        ++ (codes "]"
                            ++ (name ++ (where_to ++ (codes " said:" ++ (msg ++ 10 ∷ []))))))))))

  -- What `renderChatMessage` writes; an exception comes after some of it.
  unfoldable pub render : Json → Option Bytes
  render js = do
    msgtype ← message_type js
    seq ← or_value (find js (codes "seq")) as_u64 0
    if eqb_ℤ msgtype (pos 6)
        then said js seq (some [])
        else if eqb_ℤ msgtype (pos 10)
        then said js seq (do
          groupid ← int_field js (codes "groupid")
          some (codes " in group[" ++ (to_string groupid ++ codes "]")))
        else some []

  -- What a list of calls writes.
  unfoldable pub render_all : List Json → Option Bytes
  render_all [] = some []
  render_all (js ∷ msgs) = do t ← render js; ts ← render_all msgs; some (t ++ ts)

  -- A message from the server that is no chat message.
  unfoldable pub notice : ℤ → Json → Client Json → Option (Client Json)
  notice t js c =
      if eqb_ℤ t (pos 3)
      then (do
        id ← int_field js (codes "id")
        if eqb_ℤ id c.user.id
            then some (record c { user = record c.user { state = codes "offline" } })
            else (do name ← text_field js (codes "name"); some c))
      else some c

  -- Behind the tick: `later` is the clock's reading in the orderer's onMessage.
  unfoldable pub take_message : ℕ → Json → Client Json → Option (Client Json × List Json)
  take_message later js c = do
    t ← message_type js
    if is_chat t
        then (do r ← on_message lib later js c.orderer; some (record c { orderer = r.0 }, r.1))
        else (do d ← notice t js c; some (d, []))

  -- A body that does not parse is skipped.
  unfoldable pub take_parsed : ℕ → Option Json → Client Json → Option (Client Json × List Json)
  take_parsed later none c = some (c, [])
  take_parsed later (some js) c = take_message later js c

  -- The loop's body, for one frame's body: the client, and the calls of `renderChatMessage`.
  -- `none`: an exception ends the client.
  unfoldable pub read_body : ℕ → ℕ → Bytes → Client Json → Option (Client Json × List Json)
  read_body now later body c =
      let (o, out) = tick now c.orderer in
      take_parsed later (parse body) (record c { orderer = o }) >>= λ r.
      render_all (out ++ r.1) >> some (r.0, out ++ r.1)

  unfoldable pub read_bodies : List (ℕ × ℕ × Bytes) → Client Json → Option (Client Json × List Json)
  read_bodies [] c = some (c, [])
  read_bodies ((now, later, body) ∷ bodies) c = do
    r ← read_body now later body c
    rs ← read_bodies bodies r.0
    some (rs.0, r.1 ++ rs.1)
