-- ===== src/Client/Commands.antt =====
-- src/client/main.cpp: `mainMenu` and the commands' handlers.
use cluster_chatroom_project.Prelude.{
  true, false, Option, some, none, List, [], ◌∷◌, Bytes, codes, same, if◌then◌else◌, ◌>>=◌,
}
use cluster_chatroom_project.Prelude.Int.{ℤ, pos}
use cluster_chatroom_project.Json.{JsonLib}
use cluster_chatroom_project.Text.{cut}
use cluster_chatroom_project.Text.Integers.{parse_int, atoi}
use cluster_chatroom_project.Database.{User}
use cluster_chatroom_project.Client.{Client, object, send_frame}

-- What a line makes the client do: nothing but print, send a message with these fields, send it and
-- leave the main menu if that succeeds, or what C leaves undefined (atoi of a number out of range).
pub data Action (J : Type 0) : Type 0 where
  nothing : Action J
  sends : List (Bytes × J) → Action J
  logs_out : List (Bytes × J) → Action J
  undefined : Action J

module _ (lib : JsonLib) (user : User) (time : Bytes) where
  open lib use {Json, of_int, of_string}

  -- `stoi` in a try block that catches all
  abbrev pub if_number : Option ℤ → (ℤ → Action Json) → Action Json
  if_number none f = nothing
  if_number (some n) f = f n

  abbrev pub if_defined : Option ℤ → (ℤ → Action Json) → Action Json
  if_defined none f = undefined
  if_defined (some n) f = f n

  abbrev pub if_cut : Option (Bytes × Bytes) → (Bytes → Bytes → Action Json) → Action Json
  if_cut none f = nothing
  if_cut (some (l, r)) f = f l r

  unfoldable pub friend_fields : ℤ → List (Bytes × Json)
  friend_fields friendid =
      (codes "msgid", of_int (pos 7))
      ∷ (codes "id", of_int user.id)
      ∷ (codes "friendid", of_int friendid)
      ∷ []

  unfoldable pub addfriend : Bytes → Action Json
  addfriend [] = nothing
  addfriend (c ∷ cs) = if_number (parse_int (c ∷ cs)) (λ n. sends (friend_fields n))

  unfoldable pub chat_fields : ℤ → Bytes → List (Bytes × Json)
  chat_fields friendid message =
      (codes "msgid", of_int (pos 6))
      ∷ (codes "id", of_int user.id)
      ∷ (codes "name", of_string user.name)
      ∷ (codes "toid", of_int friendid)
      ∷ (codes "msg", of_string message)
      ∷ (codes "time", of_string time)
      ∷ []

  unfoldable pub chat : Bytes → Action Json
  chat str = if_cut (cut b':' str) (λ l r. if_defined (atoi l) (λ n. sends (chat_fields n r)))

  unfoldable pub new_group_fields : Bytes → Bytes → List (Bytes × Json)
  new_group_fields groupname groupdesc =
      (codes "msgid", of_int (pos 8))
      ∷ (codes "id", of_int user.id)
      ∷ (codes "groupname", of_string groupname)
      ∷ (codes "groupdesc", of_string groupdesc)
      ∷ []

  unfoldable pub creategroup : Bytes → Action Json
  creategroup str = if_cut (cut b':' str) (λ l r. sends (new_group_fields l r))

  unfoldable pub group_fields : ℤ → List (Bytes × Json)
  group_fields groupid =
      (codes "msgid", of_int (pos 9))
      ∷ (codes "id", of_int user.id)
      ∷ (codes "groupid", of_int groupid)
      ∷ []

  unfoldable pub addgroup : Bytes → Action Json
  addgroup [] = nothing
  addgroup (c ∷ cs) = if_number (parse_int (c ∷ cs)) (λ n. sends (group_fields n))

  unfoldable pub groupchat_fields : ℤ → Bytes → List (Bytes × Json)
  groupchat_fields groupid message =
      (codes "msgid", of_int (pos 10))
      ∷ (codes "id", of_int user.id)
      ∷ (codes "name", of_string user.name)
      ∷ (codes "groupid", of_int groupid)
      ∷ (codes "msg", of_string message)
      ∷ (codes "time", of_string time)
      ∷ []

  unfoldable pub groupchat : Bytes → Action Json
  groupchat str =
      if_cut (cut b':' str) (λ l r. if_number (parse_int l) (λ n. sends (groupchat_fields n r)))

  unfoldable pub loginout : Bytes → Action Json
  loginout str = logs_out ((codes "msgid", of_int (pos 3)) ∷ (codes "id", of_int user.id) ∷ [])

  -- `commandHandlerMap`; `help` and an unknown command only print.
  unfoldable pub run_command : Bytes → Bytes → Action Json
  run_command command args =
      if same command (codes "chat")
      then chat args
      else if same command (codes "addfriend")
      then addfriend args
      else if same command (codes "creategroup")
      then creategroup args
      else if same command (codes "addgroup")
      then addgroup args
      else if same command (codes "groupchat")
      then groupchat args
      else if same command (codes "loginout")
      then loginout args
      else nothing

  abbrev pub split_command : Bytes → Option (Bytes × Bytes) → Action Json
  split_command line none = run_command line []
  split_command line (some (command, args)) = run_command command args

  -- The body of the loop of `mainMenu`, for a line.
  unfoldable pub menu_line : Bytes → Action Json
  menu_line [] = nothing
  menu_line (c ∷ cs) = split_command (c ∷ cs) (cut b':' (c ∷ cs))

module _ (lib : JsonLib) where
  open lib use {Json}

  -- What the client writes, and the client afterwards. `none`: an exception ends the client, or
  -- what it does is undefined.
  unfoldable pub perform : Action Json → List ℤ → Client Json → Option (Client Json × Bytes)
  perform nothing results c = some (c, [])
  perform undefined results c = none
  perform (sends fields) results c = do
    js ← object lib fields
    r ← send_frame lib js results
    some (c, r.0)
  perform (logs_out fields) results c = do
    js ← object lib fields
    r ← send_frame lib js results
    some (elim r.1 [ some true ↦ record c { running = false } | _ ↦ c ], r.0)
