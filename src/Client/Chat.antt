-- ===== src/Client/Chat.antt =====
-- From a line that is typed in src/client/main.cpp to what src/server/chatservice.cpp sends.
use cluster_chatroom_project.Prelude.{
  ℕ, ◌≡◌, refl, sym, ap, subst, ◌∙◌, ◌⊎◌, inl, inr, false, some, [], Bytes, codes,
}
use cluster_chatroom_project.Prelude.Int.{ℤ, pos}
use cluster_chatroom_project.Json.{JsonLib}
use cluster_chatroom_project.Conversation.{p2p}
use cluster_chatroom_project.Text.Integers.{IsInt}
use cluster_chatroom_project.Effect.{Thrown, Result, done, thrown}
use cluster_chatroom_project.Frame.{encode}
use cluster_chatroom_project.Frame.Header.{IsLegal}
use cluster_chatroom_project.Frame.Server.{Served, on_message}
use cluster_chatroom_project.Frame.Server.Single.{is_json, on_message-single}
use cluster_chatroom_project.Database.{User}
use cluster_chatroom_project.Service.{World, Machine, get_int}
use cluster_chatroom_project.Service.Chat.{onechat}
use cluster_chatroom_project.Service.Dispatch.{msg_type, handle, outcome_of, run_message}
use cluster_chatroom_project.Service.Delivery.{Way, MovesFrom}
use cluster_chatroom_project.Service.Numbering.{asked, Numbered, Fails, onechat-Chats}
use cluster_chatroom_project.Client.{object}
use cluster_chatroom_project.Client.Object.{object-find}
use cluster_chatroom_project.Client.Commands.{sends, chat_fields, menu_line}
use cluster_chatroom_project.Client.Line.{typed, chat_name, menu_line-chat}

module _ (world : World) (lib : JsonLib) where
  open world use {sql}

  pub get_int-field :
      (js : lib.Json) (k : Bytes) (z : ℤ) (m : Machine sql.State)
      → lib.find js k ≡ some (lib.of_int z)
      → get_int world lib js k m ≡ (m, done z)
  unfolding get_int
  get_int-field js k z m f = rw (f, lib.as_int-of_int z) refl

  pub done_eq :
      (m : Machine sql.State) (a b : ℤ)
      → ◌≡◌ {A = Machine sql.State × Result ℤ} (m, done a) (m, done b)
      → a ≡ b
  done_eq m a b e = cc

  -- What the server makes of a private message of user `from` to user `to`: its handler ends in an
  -- exception, and nothing is sent; or the message, numbered in the conversation of the two, has
  -- taken a way to `to`.
  abbrev pub Forwards :
      ℕ → ℤ → ℤ → lib.Json → Machine sql.State → Served (Machine sql.State) → Type 0
  Forwards now from to js m s =
      ((e : Thrown) × ((onechat world lib now js m).1 ≡ thrown e)
        × (s.state.sent ≡ m.sent)
        × Fails world lib now js m e)
      ⊎ ((payload : Bytes) × (s.shut ≡ false)
          × Numbered world lib (p2p from to) m js payload
          × MovesFrom (Way world lib m.conns to payload) (asked world lib (p2p from to) m).0 m
              s.state)

  abbrev Goes : ℤ → ℤ → Bytes → ℕ → lib.Json → Machine sql.State → Type 0
  Goes from to payload now js m =
      MovesFrom (Way world lib m.conns to payload) (asked world lib (p2p from to) m).0 m
        (onechat world lib now js m).0

  onechat-Forwards :
      (now : ℕ) (from to : ℤ) (js : lib.Json) (m : Machine sql.State)
      → lib.find js (codes "id") ≡ some (lib.of_int from)
      → lib.find js (codes "toid") ≡ some (lib.of_int to)
      → let r = onechat world lib now js m in
        Forwards now from to js m
          (record { state = r.0; buffer = []; shut = is_json (outcome_of world lib r.1) })
  onechat-Forwards now from to js m f t = elim (onechat-Chats world lib now js m) [
    | inl (e, x, q, w) ↦ inl (e, x, q.0, w)
    | inr (a, b, payload, x, y, d, n, s) ↦
        let ea = done_eq m a from (sym x ∙ get_int-field js (codes "id") from m f) in
        let eb = done_eq m b to (sym y ∙ get_int-field js (codes "toid") to m t) in
        inr (
          payload,
          ap (λ r. is_json (outcome_of world lib r)) d,
          subst (λ i. Numbered world lib (p2p i to) m js payload) ea
              (subst (λ i. Numbered world lib (p2p a i) m js payload) eb n),
          subst (λ i. Goes i to payload now js m) ea (subst (λ i. Goes a i payload now js m) eb s),
        )
  ]

  -- Given a friend's number that is an int, and a message that can be written as a body within
  -- the limit: the line `chat:<number>:<text>` makes the client send that message, with the text
  -- as typed. The server reads the frame; then the handler ends in an exception and nothing was
  -- sent, as a field is no number, the numbered message cannot be written, or the database throws
  -- when it is asked for the friend; or the connection stays open and the message, with the name
  -- of the conversation of the client's user and the friend and the number given on the reply to
  -- its INCR, takes one way to that friend, and nothing else was sent. The way is a frame to the
  -- friend's connection, if the table has one, unless it is down; a PUBLISH that Redis replied
  -- to, if the database has the friend online; or, offline or without that reply, a row with the
  -- message that MySQL was asked to insert, unless there was no connection to it.
  pub menu_line-Forwards :
      (user : User) (time text body : Bytes) (to : ℤ) (conn now : ℕ) (js : lib.Json)
      (m : Machine sql.State)
      → IsInt to
      → object lib (chat_fields lib user time to text) ≡ some js
      → lib.dump js ≡ some body
      → IsLegal body
      → (menu_line lib user time (typed chat_name to text)
          ≡ sends (chat_fields lib user time to text))
        × (lib.find js (codes "msg") ≡ some (lib.of_string text))
        × ((s : Served (Machine sql.State)) × (on_message lib
                (run_message world lib conn now)
                (encode body)
                m
              ≡ some s)
            × Forwards now user.id to js m s)
  unfolding chat_fields run_message msg_type handle
  menu_line-Forwards user time text body to conn now js m i o d l =
      let fields = chat_fields lib user time to text in
      let p = lib.parse-dump js body d in
      let served =
        on_message-single lib (run_message world lib conn now) body js (pos 6) m l p
          (object-find lib fields js (codes "msgid") o) in
      (
        menu_line-chat lib user time to text i,
        object-find lib fields js (codes "msg") o,
        (
          record {
            state = (onechat world lib now js m).0;
            buffer = [];
            shut = is_json (outcome_of world lib (onechat world lib now js m).1);
          },
          served,
          onechat-Forwards now user.id to js m (object-find lib fields js (codes "id") o)
              (object-find lib fields js (codes "toid") o),
        ),
      )
