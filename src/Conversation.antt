-- ===== src/Conversation.antt =====
-- include/conversation.hpp: the names of conversations, which server and client share.
pub mod Decimal
pub mod Names
pub mod Talks
mod Examples
use cluster_chatroom_project.Prelude.{◌++◌, ◌∷◌, [], Bytes, codes}
use cluster_chatroom_project.Prelude.Int.{ℤ, min, max}
use Decimal.{to_string}

-- The conversation of two users, whichever of them sends.
unfoldable pub p2p : ℤ → ℤ → Bytes
p2p a b = codes "p" ++ (to_string (min a b) ++ (codes "_" ++ to_string (max a b)))

unfoldable pub group : ℤ → Bytes
group groupid = codes "g" ++ to_string groupid
