-- ===== src/Client/Login.antt =====
-- src/client/main.cpp, `main`: logging in and registering. `none`: an exception ends the client.
use cluster_chatroom_project.Prelude.{
  ℕ, suc, Bool, true, Option, some, none, List, [], ◌∷◌, Bytes, codes, if◌then◌else◌, ◌>>=◌, ◌>>◌,
}
use cluster_chatroom_project.Prelude.Int.{ℤ, pos, eqb_ℤ}
use cluster_chatroom_project.Json.{JsonLib}
use cluster_chatroom_project.Database.{User, no_user, GroupUser, Group}
use cluster_chatroom_project.Orderer.Conversations.{Orderer, on_offline_batch}
use cluster_chatroom_project.Client.{Client}
use cluster_chatroom_project.Client.Receive.{int_field, text_field, render_all}

module _ (lib : JsonLib) where
  open lib use {Json, null, parse, dump, find, as_strings, of_int, of_string}

  -- The request of a login (1) or of a registration (4).
  unfoldable pub account_fields : ℤ → Bytes → Bytes → List (Bytes × Json)
  account_fields msgid name password =
      (codes "msgid", of_int msgid)
      ∷ (codes "name", of_string name)
      ∷ (codes "password", of_string password)
      ∷ []

  unfoldable pub read_friend : Bytes → Option User
  read_friend str = do
    js ← parse str
    id ← int_field lib js (codes "id")
    name ← text_field lib js (codes "name")
    state ← text_field lib js (codes "state")
    some (record no_user { id = id; name = name; state = state })

  unfoldable pub read_member : Bytes → Option GroupUser
  read_member str = do
    js ← parse str
    id ← int_field lib js (codes "id")
    name ← text_field lib js (codes "name")
    state ← text_field lib js (codes "state")
    role ← text_field lib js (codes "role")
    some (record { user = record no_user { id = id; name = name; state = state }; role = role })

  -- A loop over texts that pushes back what it reads.
  unfoldable pub read_each : {A : Type 0} → (Bytes → Option A) → List Bytes → Option (List A)
  read_each read [] = some []
  read_each read (t ∷ ts) = do x ← read t; xs ← read_each read ts; some (x ∷ xs)

  -- A field that holds a list of texts; where it is missing, what there was.
  unfoldable pub texts_or :
      {A : Type 0} → (Bytes → Option A) → List A → Option Json → Option (List A)
  texts_or read old none = some old
  texts_or read old (some field) = do texts ← as_strings field; read_each read texts

  unfoldable pub read_group : Bytes → Option Group
  read_group str = do
    js ← parse str
    id ← int_field lib js (codes "id")
    name ← text_field lib js (codes "groupname")
    desc ← text_field lib js (codes "groupdesc")
    users ← texts_or read_member [] (find js (codes "users"))
    some (record { id = id; name = name; desc = desc; users = users })

  -- The texts that parse.
  unfoldable pub parsed : List Bytes → List Json
  parsed [] = []
  parsed (t ∷ ts) = let rest = parsed ts in elim (parse t) [ none ↦ rest | some js ↦ js ∷ rest ]

  -- Each message with the clock's reading in its turn: the i-th is `clock i`.
  abbrev pub timed : (ℕ → ℕ) → List Json → List (ℕ × Json)
  timed clock [] = []
  timed clock (js ∷ msgs) = (clock 0, js) ∷ timed (λ i. clock (suc i)) msgs

  -- `onOfflineBatch` with its calls of `renderChatMessage`, which may throw.
  abbrev pub show_batch : ℕ → List (ℕ × Json) → Orderer Json → Option (Orderer Json × List Json)
  show_batch now msgs o = do r ← on_offline_batch lib now msgs o; render_all lib r.1 >> some r

  unfoldable pub take_offline :
      (ℕ → ℕ) → ℕ → Option Json → Orderer Json → Option (Orderer Json × List Json)
  take_offline clock now none o = some (o, [])
  take_offline clock now (some field) o = do
    texts ← as_strings field
    show_batch now (timed clock (parsed texts)) o

  -- The client that has entered the menu, with the calls of `renderChatMessage`; or the error
  -- message.
  pub data Answer : Type 0 where
    entered : Client Json → List Json → Answer
    refused : Bytes → Answer

  unfoldable pub enter : (ℕ → ℕ) → ℕ → Json → Client Json → Option Answer
  enter clock now js c = do
    id ← int_field lib js (codes "id")
    name ← text_field lib js (codes "name")
    friends ← texts_or read_friend c.friends (find js (codes "friends"))
    groups ← texts_or read_group c.groups (find js (codes "groups"))
    r ← take_offline clock now (find js (codes "offlinemsg")) c.orderer
    some (
        entered
          (record c {
            user = record c.user { id = id; name = name; state = codes "online" };
            friends = friends;
            groups = groups;
            orderer = r.0;
            running = true;
          })
          r.1)

  -- What `cerr` prints of a field: a missing one is null.
  abbrev pub printed : Option Json → Option Bytes
  printed none = dump null
  printed (some field) = dump field

  unfoldable pub take_login : (ℕ → ℕ) → ℕ → Bytes → Client Json → Option Answer
  take_login clock now response c = do
    js ← parse response
    errno ← int_field lib js (codes "errno")
    if eqb_ℤ errno (pos 0)
        then enter clock now js c
        else (do text ← printed (find js (codes "errmsg")); some (refused text))

  -- Whether the name was registered.
  unfoldable pub take_registration : Bytes → Option Bool
  take_registration response = do
    js ← parse response
    errno ← int_field lib js (codes "errno")
    some (eqb_ℤ errno (pos 0))
