-- ===== src/Client/Entry/Examples.antt =====
-- A login at a concrete database.
use cluster_chatroom_project.Prelude.{ℕ, ◌+◌, true, some, [], ◌∷◌, codes}
use cluster_chatroom_project.Prelude.Int.{pos}
use cluster_chatroom_project.Json.Sample.{Value, field, int, null, text, sample}
use cluster_chatroom_project.Effect.{each as run_each}
use cluster_chatroom_project.Orderer.Session.{start}
use cluster_chatroom_project.Service.{World}
use cluster_chatroom_project.Redis.{integer}
use cluster_chatroom_project.Database.{Sql, User, no_user, Group}
use cluster_chatroom_project.Client.{Client}

abbrev nobody : Client Value
nobody = record {
  user = no_user;
  friends = [];
  groups = [];
  orderer = start sample 800;
  running = true;
}

abbrev hall_database : Sql
hall_database = record {
  State = ℕ;
  get_connection = λ s. (s, true);
  execute_update = λ q ps s. (s + 1, true);
  execute_query = λ q ps s.
      (s, some ((codes "5" ∷ codes "eve" ∷ codes "7077" ∷ [] ∷ codes "offline" ∷ []) ∷ []));
  last_insert_id = pos;
  begin = λ s. (s, true);
  commit = λ s. (s, true);
  rollback = λ s. s;
  sha256 = λ b. b;
  draw = λ s. (s, []);
}

abbrev hall : World
hall = record {
  sql = hall_database;
  incr = λ c s. (s + 1, integer (pos (s + 1)));
  publish_reply = λ id msg s. (s, integer (pos 1));
  subscribe_writes = λ id s. (s, some true ∷ []);
  unsubscribe_writes = λ id s. (s, some true ∷ []);
  is_connected = λ c s. true;
}

abbrev eve : User
eve = record {
  id = pos 5;
  name = codes "eve";
  password = codes "7077";
  salt = [];
  state = codes "offline";
}

abbrev credentials : Value
credentials =
    field (codes "password") (text (codes "pw"))
      (field (codes "name") (text (codes "eve")) (field (codes "msgid") (int (pos 1)) null))

abbrev evening : Group
evening = record {
  id = pos 5;
  name = codes "eve";
  desc = codes "7077";
  users =
      record {
        user = record no_user { id = pos 5; name = codes "eve"; state = codes "7077" };
        role = [];
      }
      ∷ [];
}
