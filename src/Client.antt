-- ===== src/Client.antt =====
-- src/client/main.cpp: the client's state, and how it sends a message.
pub mod Object
pub mod Clock
pub mod Commands
pub mod Login
pub mod Menu
pub mod Receive
pub mod Render
pub mod Line
pub mod Chat
pub mod Announce
pub mod Sending
pub mod Lists
pub mod Welcome
pub mod Overview
pub mod Entry
pub mod Session
pub mod Screen
mod Examples
use cluster_chatroom_project.Prelude.{
  ℕ, zero, suc, ◌+◌, Bool, true, false, Option, some, none, List, [], ◌∷◌, ◌++◌, Bytes, take, drop,
  if◌then◌else◌, ◌>>=◌,
}
use cluster_chatroom_project.Prelude.Int.{ℤ, pos, negsuc}
use cluster_chatroom_project.Json.{JsonLib}
use cluster_chatroom_project.Database.{User, Group}
use cluster_chatroom_project.Orderer.Conversations.{Orderer}
use cluster_chatroom_project.Frame.{encode}

-- `g_currentUser`, `g_currentUserFriendList`, `g_currentUserGroupList`, `g_orderer` and
-- `isMainMenuRunning`.
pub record Client (J : Type 0) : Type 0 where
  pub user : User
  pub friends : List User
  pub groups : List Group
  pub orderer : Orderer J
  pub running : Bool

-- The loop of `sendFrame`, with what is left of the frame and what each call of send gives: what was
-- written, and the result. A call takes as many bytes as it says; the result is `none` where the
-- list ends before the loop does.
unfoldable pub send_loop : Bytes → List ℤ → Bytes × Option Bool
send_loop [] results = ([], some true)
send_loop (b ∷ bs) [] = ([], none)
send_loop (b ∷ bs) (negsuc n ∷ results) = ([], some false)
send_loop (b ∷ bs) (pos zero ∷ results) = ([], some false)
send_loop (b ∷ bs) (pos (suc n) ∷ results) =
    let (written, r) = send_loop (drop n bs) results in (b ∷ take n bs ++ written, r)

module _ (lib : JsonLib) where
  open lib use {Json, null, set, dump}

  -- js[k] = v for each of the fields, in their order.
  unfoldable pub assign : Json → List (Bytes × Json) → Option Json
  assign js [] = some js
  assign js ((k, v) ∷ fields) = do j ← set js k v; assign j fields

  -- A `json js;` and its fields.
  unfoldable pub object : List (Bytes × Json) → Option Json
  object fields = assign null fields

  -- `sendFrame`: `none` where `dump` throws, which ends the client.
  unfoldable pub send_frame : Json → List ℤ → Option (Bytes × Option Bool)
  send_frame js results = do body ← dump js; some (send_loop (encode body) results)
