-- ===== src/Client/Render.antt =====
-- src/client/main.cpp, `renderChatMessage`: what a message that a client has typed looks like.
pub mod Examples
pub mod Shown
use cluster_chatroom_project.Prelude.{
  ℕ, ◌<◌, ◌≡◌, refl, sym, subst, ◌∙◌, true, false, same, List, Option, some, [], ◌∷◌, ◌++◌, Bytes,
  codes, ◌>>=◌, arith,
}
use cluster_chatroom_project.Prelude.Int.{ℤ, pos}
use cluster_chatroom_project.Conversation.Decimal.{to_string}
use cluster_chatroom_project.Text.Integers.{IsInt}
use cluster_chatroom_project.Json.{JsonLib}
use cluster_chatroom_project.Redis.{u64}
use cluster_chatroom_project.Redis.Sequence.{incr_seq-lt}
use cluster_chatroom_project.Database.{User}
use cluster_chatroom_project.Service.{World, Machine}
use cluster_chatroom_project.Service.Numbering.{asked, Numbered}
use cluster_chatroom_project.Client.{object}
use cluster_chatroom_project.Client.Object.{object-find, look}
use cluster_chatroom_project.Client.Commands.{sends, chat_fields, groupchat_fields, menu_line}
use cluster_chatroom_project.Client.Line.{
  typed, chat_name, groupchat_name, menu_line-chat, menu_line-groupchat,
}
use cluster_chatroom_project.Client.Receive.{or_value, message_type, text_field, said, render}

-- A line of a chat: the time, the number, the sender's number and name, and the words.
abbrev pub line_of : Bytes → ℕ → Bytes → Bytes → Bytes → Bytes → Bytes
line_of time seq id name place text =
    time
    ++ (codes " [#"
        ++ (to_string (pos seq)
            ++ (codes "]["
                ++ (id
                    ++ (codes "]" ++ (name ++ (place ++ (codes " said:" ++ (text ++ 10 ∷ [])))))))))

module _ (lib : JsonLib) where
  open lib use {Json, null, parse, dump, find, of_int, of_unsigned, of_string}

  pub message_type-of_int :
      (js : Json) (z : ℤ) → find js (codes "msgid") ≡ some (of_int z) → message_type lib js ≡ some z
  unfolding message_type
  message_type-of_int js z f =
      rw (lib.find_object js (of_int z) (codes "msgid") f, f, lib.as_int-of_int z) refl

  said-line_of :
      (js : Json) (seq : ℕ) (id : ℤ) (time number name place text : Bytes)
      → find js (codes "time") ≡ some (of_string time)
      → find js (codes "id") ≡ some (of_int id)
      → dump (of_int id) ≡ some number
      → find js (codes "name") ≡ some (of_string name)
      → find js (codes "msg") ≡ some (of_string text)
      → said lib js seq (some place) ≡ some (line_of time seq number name place text)
  said-line_of js seq id time number name place text t i d n m =
      rw
        (
          t,
          lib.as_string-of_string time,
          i,
          d,
          n,
          lib.as_string-of_string name,
          m,
          lib.as_string-of_string text,
        )
        refl

  module _ (world : World) (conv payload : Bytes) (m : Machine world.sql.State) (js : Json) where
    -- What the server has not set is as the client has set it.
    pub Numbered-find :
        (fields : List (Bytes × Json)) (k : Bytes) (n : Numbered world lib conv m js payload)
        → object lib fields ≡ some js
        → same (codes "convid") k ≡ false
        → same (codes "seq") k ≡ false
        → same (codes "msgts") k ≡ false
        → find n.message k ≡ look lib k fields (find null k)
    Numbered-find fields k n o a b c = n.kept k a b c ∙ object-find lib fields js k o

    Numbered-seq :
        (n : Numbered world lib conv m js payload)
        → or_value lib (find n.message (codes "seq")) lib.as_u64 0 ≡ some n.number
    Numbered-seq n = rw n.numbered (
        lib.as_u64-of_unsigned n.number (
          subst (λ x. x < u64) (sym n.given) (incr_seq-lt conv (asked world lib conv m).1 m.redis)))

    -- Given a friend's number that is an int, and a text for the number of the client's user:
    -- the line `chat:<number>:<text>` makes the client send a message with the text. Whatever
    -- node numbers it, in whatever conversation: a client that reads what was made of it parses
    -- the message, and writes it on the screen with the sender's time, the number that
    -- `incrSeq` gave, the sender's number and name, and the text as typed.
    pub menu_line-render :
        (user : User) (time text number : Bytes) (to : ℤ)
        → IsInt to
        → dump (of_int user.id) ≡ some number
        → object lib (chat_fields lib user time to text) ≡ some js
        → (n : Numbered world lib conv m js payload)
        → (menu_line lib user time (typed chat_name to text)
            ≡ sends (chat_fields lib user time to text))
          × (parse payload ≡ some n.message)
          × (render lib n.message ≡ some (line_of time n.number number user.name [] text))
    unfolding chat_fields render
    menu_line-render user time text number to i d o n =
        let fields = chat_fields lib user time to text in
        let t =
          message_type-of_int n.message (pos 6)
            (Numbered-find fields (codes "msgid") n o refl refl refl) in
        let a =
          said-line_of n.message n.number user.id time number user.name [] text
            (Numbered-find fields (codes "time") n o refl refl refl)
            (Numbered-find fields (codes "id") n o refl refl refl) d
            (Numbered-find fields (codes "name") n o refl refl refl)
            (Numbered-find fields (codes "msg") n o refl refl refl) in
        (
          menu_line-chat lib user time to text i,
          lib.parse-dump n.message payload n.text,
          rw (t, Numbered-seq n) a,
        )

    -- Of a group's number that is an int, the line `groupchat:<number>:<text>` does the same, with
    -- the group's number on the screen.
    pub menu_line-render_group :
        (user : User) (time text number : Bytes) (groupid : ℤ)
        → IsInt groupid
        → dump (of_int user.id) ≡ some number
        → object lib (groupchat_fields lib user time groupid text) ≡ some js
        → (n : Numbered world lib conv m js payload)
        → (menu_line lib user time (typed groupchat_name groupid text)
            ≡ sends (groupchat_fields lib user time groupid text))
          × (parse payload ≡ some n.message)
          × (render lib n.message
              ≡ some (
                  line_of time n.number number user.name
                    (codes " in group[" ++ (to_string groupid ++ codes "]"))
                    text))
    unfolding groupchat_fields render
    menu_line-render_group user time text number groupid i d o n =
        let fields = groupchat_fields lib user time groupid text in
        let place = codes " in group[" ++ (to_string groupid ++ codes "]") in
        let t =
          message_type-of_int n.message (pos 10)
            (Numbered-find fields (codes "msgid") n o refl refl refl) in
        let a =
          said-line_of n.message n.number user.id time number user.name place text
            (Numbered-find fields (codes "time") n o refl refl refl)
            (Numbered-find fields (codes "id") n o refl refl refl) d
            (Numbered-find fields (codes "name") n o refl refl refl)
            (Numbered-find fields (codes "msg") n o refl refl refl) in
        (
          menu_line-groupchat lib user time groupid text i,
          lib.parse-dump n.message payload n.text,
          rw
              (
                t,
                Numbered-seq n,
                Numbered-find fields (codes "groupid") n o refl refl refl,
                lib.as_int-of_int groupid,
              )
              a,
        )
