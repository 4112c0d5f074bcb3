-- ===== src/Service/Examples.antt =====
-- The theorems on `ChatService` at concrete inputs, with a database that counts its updates.
use cluster_chatroom_project.Prelude.{
  ℕ, ◌+◌, ◌≡◌, refl, true, false, not, some, List, [], ◌∷◌, codes, if◌then◌else◌,
}
use cluster_chatroom_project.Prelude.Int.{ℤ, pos}
use cluster_chatroom_project.Json.Sample.{Value, field, int, text, null, sample}
use cluster_chatroom_project.Redis.{integer}
use cluster_chatroom_project.Database.{Sql}
use cluster_chatroom_project.Service.{World, Machine}
use cluster_chatroom_project.Service.Chat.{onechat, handle_redis_subscribe_message}
use cluster_chatroom_project.Service.Accounts.{take_conn}
use cluster_chatroom_project.Service.Sorting.{Item, stable_sort}
use cluster_chatroom_project.Service.Sorted.{pick, Ordered, stable_sort-Ordered}
use cluster_chatroom_project.Service.Delivery.{
  Moves, Arrives, handle_redis_subscribe_message-Arrives,
}
use cluster_chatroom_project.Service.Numbering.{Chats, onechat-Chats}
use cluster_chatroom_project.Service.Table.{Takes, take_conn-Takes}
use mathlib.Core.List.{Perm}
use cluster_chatroom_project.Prelude.{◌&&◌, same}
use cluster_chatroom_project.Crypto.{safe_equal, difference, hash_password, hex}
use cluster_chatroom_project.Database.{User, first_user, to_user}
use cluster_chatroom_project.Database.Users.{query_by_name}
use cluster_chatroom_project.Effect.{done}
use cluster_chatroom_project.Text.Integers.{leading, parse_int, scan_int}
use cluster_chatroom_project.Database.Rows.{stoi}
use cluster_chatroom_project.Service.Accounts.Login.{is_right, login}
use cluster_chatroom_project.Service.Accounts.Guard.{Refuses, login-Refuses}

abbrev pub database : Sql
database = record {
  State = ℕ;
  get_connection = λ s. (s, true);
  execute_update = λ q ps s. (s + 1, true);
  execute_query =
      λ q ps s. (s, some ((codes "5" ∷ codes "eve" ∷ [] ∷ [] ∷ codes "online" ∷ []) ∷ []));
  last_insert_id = pos;
  begin = λ s. (s, true);
  commit = λ s. (s, true);
  rollback = λ s. s;
  sha256 = λ b. b;
  draw = λ s. (s, []);
}

abbrev pub outside : World
outside = record {
  sql = database;
  incr = λ c s. (s + 1, integer (pos (s + 1)));
  publish_reply = λ id msg s. (s, integer (pos 1));
  subscribe_writes = λ id s. (s, some true ∷ []);
  unsubscribe_writes = λ id s. (s, some true ∷ []);
  is_connected = λ c s. true;
}

-- User 7 is here, user 5 is online elsewhere.
abbrev pub node : Machine ℕ
node = record {
  conns = (pos 7, 70) ∷ [];
  redis = record {
    publish_context = true;
    subscribe_context = true;
    command_context = true;
    redis_available = true;
    local_seq = [];
  };
  world = 0;
  sent = [];
}

abbrev pub greeting : Value
greeting = field (codes "id") (int (pos 7)) (field (codes "toid") (int (pos 5)) null)

onechat-Chats_example :
    Chats outside sample 1000 greeting node (onechat outside sample 1000 greeting node)
onechat-Chats_example = onechat-Chats outside sample 1000 greeting node

handle_redis_subscribe_message-Arrives_example :
    Moves
      (Arrives outside sample node.conns (pos 5) (codes "hi"))
      node
      (handle_redis_subscribe_message outside sample (pos 5) (codes "hi") node)
handle_redis_subscribe_message-Arrives_example =
    handle_redis_subscribe_message-Arrives outside sample (pos 5) (codes "hi") node

abbrev unsorted : List Item
unsorted =
    record { raw = codes "a"; conv = []; seq = 0; ok = false }
    ∷ record { raw = codes "b"; conv = codes "g1"; seq = 2; ok = true }
    ∷ record { raw = codes "c"; conv = []; seq = 0; ok = false }
    ∷ []

stable_sort-Ordered_example :
    Perm (stable_sort unsorted) unsorted
    × Ordered (stable_sort unsorted)
    × (pick (λ i. not i.ok) (stable_sort unsorted) ≡ pick (λ i. not i.ok) unsorted)
stable_sort-Ordered_example = stable_sort-Ordered unsorted

-- Users 1 and 2 have one connection.
abbrev pub shared : List (ℤ × ℕ)
shared = (pos 1, 10) ∷ (pos 2, 10) ∷ []

take_conn-Takes_example : Takes 10 shared (take_conn 10 shared)
take_conn-Takes_example = take_conn-Takes 10 shared

abbrev eve : User
eve = record { id = pos 5; name = codes "eve"; password = []; salt = []; state = codes "online" }

eve_online : is_right outside sample eve [] && not (same eve.state (codes "online")) ≡ false
unfolding is_right safe_equal difference hash_password hex
eve_online = refl

abbrev asking : Value
asking = field (codes "name") (text (codes "eve")) (field (codes "password") (text []) null)

eve_found : query_by_name database (codes "eve") 0 ≡ (0, done eve)
unfolding query_by_name first_user to_user stoi parse_int leading scan_int
eve_found = refl

login-Refuses_example :
    Refuses outside sample 70
      (if is_right outside sample eve [] then pos 2 else pos 1)
      (record node { world = 0 })
      (login outside sample 70 asking node)
login-Refuses_example =
    login-Refuses outside sample 70 eve (codes "eve") [] asking node 0 refl refl eve_found
      eve_online
