-- ===== src/Service/Dispatch.antt =====
-- src/server/chatservice.cpp: the table of handlers; src/server/chatserver.cpp: `onConnection`.
use cluster_chatroom_project.Prelude.{ℕ, Bool, Option, some, none, if◌then◌else◌}
use cluster_chatroom_project.Prelude.Int.{ℤ, pos, eqb_ℤ}
use cluster_chatroom_project.Json.{JsonLib}
use cluster_chatroom_project.Effect.{
  Program, Result, done, thrown, json_exception, other_exception, give, ◌>>◌,
}
use cluster_chatroom_project.Frame.Server.{Outcome, returned, threw_json, threw_other}
use cluster_chatroom_project.Service.{World, Machine}
use cluster_chatroom_project.Service.Chat.{onechat, groupchat}
use cluster_chatroom_project.Service.Accounts.{
  loginout, reg, addfriend, creategroup, addgroup, client_close_exception,
}
use cluster_chatroom_project.Service.Accounts.Login.{login}

-- EnMsgType, as far as it has handlers
pub data MsgType : Type 0 where
  login_msg loginout_msg reg_msg one_chat_msg add_friend_msg create_group_msg add_group_msg
        group_chat_msg :
      MsgType

unfoldable pub msg_type : ℤ → Option MsgType
msg_type z =
    if eqb_ℤ z (pos 1)
    then some login_msg
    else if eqb_ℤ z (pos 3)
    then some loginout_msg
    else if eqb_ℤ z (pos 4)
    then some reg_msg
    else if eqb_ℤ z (pos 6)
    then some one_chat_msg
    else if eqb_ℤ z (pos 7)
    then some add_friend_msg
    else if eqb_ℤ z (pos 8)
    then some create_group_msg
    else if eqb_ℤ z (pos 9)
    then some add_group_msg
    else if eqb_ℤ z (pos 10)
    then some group_chat_msg
    else none

module _ (world : World) (lib : JsonLib) where
  open world use {sql}

  -- The result of a handler is not used.
  abbrev pub ignore :
      {A : Type 0} → Program (Machine sql.State) A → Program (Machine sql.State) Unit
  ignore p = p >> give tt

  -- `getHandler`; the time is that of the message.
  unfoldable pub handle : ℕ → ℕ → MsgType → lib.Json → Program (Machine sql.State) Unit
  handle conn time login_msg js = login world lib conn js
  handle conn time loginout_msg js = ignore (loginout world lib js)
  handle conn time reg_msg js = reg world lib conn js
  handle conn time one_chat_msg js = onechat world lib time js
  handle conn time add_friend_msg js = ignore (addfriend world lib js)
  handle conn time create_group_msg js = ignore (creategroup world lib js)
  handle conn time add_group_msg js = ignore (addgroup world lib js)
  handle conn time group_chat_msg js = groupchat world lib time js

  abbrev pub outcome_of : {A : Type 0} → Result A → Outcome
  outcome_of (done a) = returned
  outcome_of (thrown json_exception) = threw_json
  outcome_of (thrown other_exception) = threw_other

  -- What `onMessage` calls.
  unfoldable pub run_message :
      ℕ → ℕ → ℤ → lib.Json → Machine sql.State → Machine sql.State × Outcome
  run_message conn time msgid js m = elim (msg_type msgid) [
    | none ↦ (m, returned)
    | some t ↦ let r = handle conn time t js m in (r.0, outcome_of r.1)
  ]

  -- `onConnection`, with whether the connection is up.
  unfoldable pub on_connection : ℕ → Bool → Program (Machine sql.State) Unit
  on_connection conn up = if up then give tt else ignore (client_close_exception world conn)
