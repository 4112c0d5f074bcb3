-- ===== src/Service/Evolves/Whole.antt =====
-- src/server/chatservice.cpp, `login`, and src/server/chatserver.cpp, the calls of the handlers:
-- who gets an entry in the table of connections.
use cluster_chatroom_project.Prelude.{
  ℕ, ◌≡◌, refl, sym, ap, ◌∙◌, true, false, Option, Option-cases, inl, inr, some, Bytes, codes, same,
  ◌>>=◌,
}
use cluster_chatroom_project.Prelude.Int.{ℤ}
use cluster_chatroom_project.Json.{JsonLib}
use cluster_chatroom_project.Effect.{Program, done, go_on-done}
use cluster_chatroom_project.Effect.Keeps.{go_on-R}
use cluster_chatroom_project.Database.{User}
use cluster_chatroom_project.Database.Users.{query_by_name}
use cluster_chatroom_project.Service.{World, Machine, in_world, or_throw, get_string}
use cluster_chatroom_project.Service.Accounts.Login.{is_right, login}
use cluster_chatroom_project.Client.Lists.Read.{or_throw-gives}
use cluster_chatroom_project.Service.Dispatch.{
  MsgType, login_msg, loginout_msg, reg_msg, one_chat_msg, add_friend_msg, create_group_msg,
  add_group_msg, group_chat_msg, msg_type, handle, ignore, run_message,
}
use cluster_chatroom_project.Service.Table.{IsTable}
use cluster_chatroom_project.Service.Evolves.{
  Comes, Grows, StaysLost, Evolves, Evolves-widen, Evolves-refl, Evolves-trans,
}
use cluster_chatroom_project.Service.Evolves.Calls.{
  EvolvesBy, bind-EvolvesBy, give-EvolvesBy, in_world-EvolvesBy, get_string-EvolvesBy,
}
use cluster_chatroom_project.Service.Evolves.Messages.{onechat-EvolvesBy, groupchat-EvolvesBy}
use cluster_chatroom_project.Service.Evolves.Accounts.{
  loginout-EvolvesBy, reg-EvolvesBy, addfriend-EvolvesBy, creategroup-EvolvesBy, addgroup-EvolvesBy,
}
use cluster_chatroom_project.Service.Evolves.Entering.{log_in-EvolvesBy}

pub ignore-EvolvesBy :
    (P : ℤ → ℕ → Type 0) (world : World) (lib : JsonLib) {A : Type 0}
    {p : Program (Machine world.sql.State) A}
    → EvolvesBy P world p
    → EvolvesBy P world (ignore world lib p)
ignore-EvolvesBy P world lib h = bind-EvolvesBy P world h (λ a. give-EvolvesBy P world tt)

module _ (world : World) (lib : JsonLib) where
  open world use {sql}
  open lib use {Json, find, as_string}

  abbrev pub text_of : Json → Bytes → Option Bytes
  text_of js k = find js k >>= as_string

  -- User `j` logs in on connection `c` by the message: its name is that of a row with this id that
  -- is not online, and its password is right for the row.
  pub record LogsIn (w : sql.State) (conn : ℕ) (js : Json) (j : ℤ) (c : ℕ) : Type 0 where
    pub here : c ≡ conn
    pub name : Bytes
    pub password : Bytes
    pub user : User
    pub named : text_of js (codes "name") ≡ some name
    pub told : text_of js (codes "password") ≡ some password
    pub found : (query_by_name sql name w).1 ≡ done user
    pub identified : user.id ≡ j
    pub right : is_right world lib user password ≡ true
    pub offline : same user.state (codes "online") ≡ false

  get_string-done :
      (js : Json) (k : Bytes) (m n : Machine sql.State) (t : Bytes)
      → get_string world lib js k m ≡ (n, done t)
      → (n ≡ m) × (text_of js k ≡ some t)
  unfolding get_string
  get_string-done js k m n t e =
      let (s, x, e1, e2) = go_on-done (or_throw world lib (find js k) m) _ e in
      let (f, n1) = or_throw-gives world lib (find js k) m s x e1 in
      let (g, n2) = or_throw-gives world lib (as_string x) s n t e2 in (n2 ∙ n1, rw f g)

  login-Evolves :
      (conn : ℕ) (js : Json) (m : Machine sql.State)
      → Evolves (LogsIn m.world conn js) m (login world lib conn js m).0
  unfolding login
  login-Evolves conn js m =
      let P = LogsIn m.world conn js in
      go_on-R (Evolves P) (Evolves-refl P) (Evolves-trans P)
        (get_string world lib js (codes "name") m) _ m
        ((get_string-EvolvesBy P world lib js (codes "name")).along m)
        λ n1 name e1.
          go_on-R (Evolves P) (Evolves-refl P) (Evolves-trans P)
            (get_string world lib js (codes "password") n1) _ n1
            ((get_string-EvolvesBy P world lib js (codes "password")).along n1)
            λ n2 password e2.
              go_on-R (Evolves P) (Evolves-refl P) (Evolves-trans P)
                (in_world world (query_by_name sql name) n2) _ n2
                ((in_world-EvolvesBy P world (query_by_name sql name)).along n2)
                λ n3 user e3.
                  (log_in-EvolvesBy P world lib conn user password (λ r o.
                      let (w1, h1) = get_string-done js (codes "name") m n1 name e1 in
                      let (w2, h2) = get_string-done js (codes "password") n1 n2 password e2 in
                      record {
                        here = refl;
                        name = name;
                        password = password;
                        user = user;
                        named = h1;
                        told = h2;
                        found =
                            ap (λ (n : Machine sql.State). (query_by_name sql name n.world).1)
                              (sym (w2 ∙ w1))
                            ∙ ap (λ z. z.1) e3;
                        identified = refl;
                        right = r;
                        offline = o;
                      })).along
                    n3

  -- An entry that a message makes.
  abbrev pub Admits : sql.State → ℕ → ℤ → Json → ℤ → ℕ → Type 0
  Admits w conn msgid js j c = (msg_type msgid ≡ some login_msg) × LogsIn w conn js j c

  handle-Evolves :
      (conn time : ℕ) (t : MsgType) (js : Json) (m : Machine sql.State)
      → Evolves
          (λ j c. (t ≡ login_msg) × LogsIn m.world conn js j c)
          m
          (handle world lib conn time t js m).0
  unfolding handle
  handle-Evolves conn time login_msg js m =
      Evolves-widen (LogsIn m.world conn js) _ (λ j c h. (refl, h)) m _ (login-Evolves conn js m)
  handle-Evolves conn time loginout_msg js m =
      (ignore-EvolvesBy _ world lib (loginout-EvolvesBy _ world lib js)).along m
  handle-Evolves conn time reg_msg js m = (reg-EvolvesBy _ world lib conn js).along m
  handle-Evolves conn time one_chat_msg js m = (onechat-EvolvesBy _ world lib time js).along m
  handle-Evolves conn time add_friend_msg js m =
      (ignore-EvolvesBy _ world lib (addfriend-EvolvesBy _ world lib js)).along m
  handle-Evolves conn time create_group_msg js m =
      (ignore-EvolvesBy _ world lib (creategroup-EvolvesBy _ world lib js)).along m
  handle-Evolves conn time add_group_msg js m =
      (ignore-EvolvesBy _ world lib (addgroup-EvolvesBy _ world lib js)).along m
  handle-Evolves conn time group_chat_msg js m = (groupchat-EvolvesBy _ world lib time js).along m

  -- What a message does to the node, also where it ends in an exception.
  pub run_message-Evolves :
      (conn time : ℕ) (msgid : ℤ) (js : Json) (m : Machine sql.State)
      → Evolves (Admits m.world conn msgid js) m (run_message world lib conn time msgid js m).0
  unfolding run_message
  run_message-Evolves conn time msgid js m = elim (Option-cases (msg_type msgid)) [
    | inl e ↦ rw (e, run_message) (Evolves-refl (Admits m.world conn msgid js) m)
    | inr (t, e) ↦
        rw (e, run_message)
          (Evolves-widen _ (Admits m.world conn msgid js) (λ j c h. (e ∙ ap some h.0, h.1)) m _
            (handle-Evolves conn time t js m))
  ]

  -- From a table of connections with no user twice: whatever message comes on a connection, also
  -- where its handler ends in an exception, the table has no user twice afterwards, what was sent
  -- stays sent, Redis is not taken up again once it was given up, and the entries of the table
  -- are those from before, but for one of this connection if the message is a login whose name is
  -- that of a user's row that is not online and whose password is right for it.
  pub run_message-Admits :
      (conn time : ℕ) (msgid : ℤ) (js : Json) (m : Machine sql.State)
      → IsTable m.conns
      → let m' = (run_message world lib conn time msgid js m).0 in
        IsTable m'.conns
        × Comes (Admits m.world conn msgid js) m.conns m'.conns
        × Grows m m'
        × StaysLost m m'
  run_message-Admits conn time msgid js m t =
      let e = run_message-Evolves conn time msgid js m in (e.table t, e.comes, e.grows, e.lost)
