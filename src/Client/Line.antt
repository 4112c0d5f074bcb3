-- ===== src/Client/Line.antt =====
-- src/client/main.cpp: commands as they are typed.
use cluster_chatroom_project.Prelude.{
  ◌≡◌, refl, subst, some, [], ◌∷◌, ◌++◌, append-nil, Bytes, codes, arith,
}
use cluster_chatroom_project.Prelude.Int.{ℤ}
use cluster_chatroom_project.Conversation.Decimal.{to_string, to_string-Lacks, Lacks}
use cluster_chatroom_project.Json.{JsonLib}
use cluster_chatroom_project.Text.{cut, cut-append}
use cluster_chatroom_project.Text.Integers.{
  IsInt, parse_int, atoi, parse_int-to_string, atoi-to_string, Stops-nil,
}
use cluster_chatroom_project.Database.{User}
use cluster_chatroom_project.Client.Commands.{
  sends, chat_fields, chat, groupchat_fields, groupchat, run_command, menu_line,
}

-- A command with a number and a text: `name:number:text`.
abbrev pub typed : Bytes → ℤ → Bytes → Bytes
typed name n text = name ++ b':' ∷ (to_string n ++ b':' ∷ text)

abbrev pub chat_name : Bytes
chat_name = codes "chat"

abbrev pub groupchat_name : Bytes
groupchat_name = codes "groupchat"

cut-typed :
    (name text : Bytes) (n : ℤ)
    → Lacks b':' name
    → cut b':' (typed name n text) ≡ some (name, to_string n ++ b':' ∷ text)
cut-typed name text n h = cut-append b':' name (to_string n ++ b':' ∷ text) h

cut-number :
    (text : Bytes) (n : ℤ) → cut b':' (to_string n ++ b':' ∷ text) ≡ some (to_string n, text)
cut-number text n =
    cut-append b':' (to_string n) text (to_string-Lacks b':' n (omega arith, omega arith))

module _ (lib : JsonLib) (user : User) (time : Bytes) where
  -- A line `chat:<number>:<text>` whose number is an int makes the message with that number and
  -- text.
  pub menu_line-chat :
      (n : ℤ) (text : Bytes)
      → IsInt n
      → menu_line lib user time (typed chat_name n text) ≡ sends (chat_fields lib user time n text)
  unfolding menu_line run_command chat
  menu_line-chat n text i =
      let a =
        subst (λ b. atoi b ≡ some n) (append-nil (to_string n)) (atoi-to_string n [] i Stops-nil) in
      rw (cut-typed chat_name text n (omega arith), cut-number text n, a) refl

  pub menu_line-groupchat :
      (n : ℤ) (text : Bytes)
      → IsInt n
      → menu_line lib user time (typed groupchat_name n text)
        ≡ sends (groupchat_fields lib user time n text)
  unfolding menu_line run_command groupchat
  menu_line-groupchat n text i =
      let a =
        subst (λ b. parse_int b ≡ some n) (append-nil (to_string n))
          (parse_int-to_string n [] i Stops-nil) in
      rw (cut-typed groupchat_name text n (omega arith), cut-number text n, a) refl
