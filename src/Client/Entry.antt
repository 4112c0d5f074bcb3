-- ===== src/Client/Entry.antt =====
-- A login from src/client/main.cpp through src/server/chatservice.cpp and back.
mod Examples
pub mod Registration
use cluster_chatroom_project.Prelude.{sym, ap, ◌∙◌}
use cluster_chatroom_project.Service.Accounts.Login.{welcome}
use cluster_chatroom_project.Client.{Client}
