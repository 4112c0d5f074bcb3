-- ===== src/Client/Entry/Registration/Examples.antt =====
-- A registration and a login at a database that keeps the row.
use cluster_chatroom_project.Prelude.{
  ℕ, ◌+◌, ◌%◌, ◌^◌, ◌≡◌, refl, ap, subst, Bool, true, some, List, [], ◌∷◌, Bytes, codes, arith,
}
use cluster_chatroom_project.Prelude.Int.{pos}
use cluster_chatroom_project.Conversation.Decimal.{to_string}
use cluster_chatroom_project.Json.Sample.{Value, field, null, text, sample}
use cluster_chatroom_project.Redis.{integer}
use cluster_chatroom_project.Effect.{done}
use cluster_chatroom_project.Crypto.{hash_password, make_salt}
use cluster_chatroom_project.Database.{Sql, User, no_user}
use cluster_chatroom_project.Database.Users.{insert_user}
use cluster_chatroom_project.Service.{World, Machine}
use cluster_chatroom_project.Service.Examples.{node}
use cluster_chatroom_project.Service.Accounts.{reg}
use cluster_chatroom_project.Service.Accounts.Login.{login, welcome}
use cluster_chatroom_project.Client.Entry.Registration.{Remembers, reg-login}

-- How many rows were inserted, and the newest.
abbrev Rows : Type 0
Rows = ℕ × List (List Bytes)

abbrev add_row : List Bytes → Rows → Rows
add_row ps s = (s.0 + 1, (to_string (pos ((s.0 + 1) % 2 ^ 31)) ∷ ps) ∷ [])

abbrev book : Sql
book = record {
  State = Rows;
  get_connection = λ s. (s, true);
  execute_update = λ q ps s. (add_row ps s, true);
  execute_query = λ q ps s. (s, some s.1);
  last_insert_id = λ s. pos (s.0 % 2 ^ 31);
  begin = λ s. (s, true);
  commit = λ s. (s, true);
  rollback = λ s. s;
  sha256 = λ b. b;
  draw = λ s. (s, 10 ∷ 11 ∷ []);
}

book-Remembers : Remembers book
book-Remembers = record {
  number = λ s. s.0 % 2 ^ 31;
  row = λ s s' name hashed salt state e. (
    refl,
    omega arith,
    subst
        (λ (r : Rows).
          some r.1
          ≡ some ((to_string (pos (r.0 % 2 ^ 31)) ∷ name ∷ hashed ∷ salt ∷ state ∷ []) ∷ []))
        (ap (λ (r : Rows × Bool). r.0) e) refl,
  );
}

abbrev library : World
library = record {
  sql = book;
  incr = λ c s. (s, integer (pos 1));
  publish_reply = λ id msg s. (s, integer (pos 1));
  subscribe_writes = λ id s. (s, some true ∷ []);
  unsubscribe_writes = λ id s. (s, some true ∷ []);
  is_connected = λ c s. true;
}

abbrev empty : Machine Rows
empty = record { conns = []; redis = node.redis; world = (0, []); sent = [] }

abbrev account : Value
account =
    field (codes "password") (text (codes "pw")) (field (codes "name") (text (codes "bob")) null)

abbrev stored : User
stored = record no_user { id = pos 1; name = codes "bob"; password = codes "pw" }

abbrev after_insertion : Rows
after_insertion =
    add_row
      (codes "bob"
        ∷ hash_password book.sha256 (make_salt (10 ∷ 11 ∷ [])) (codes "pw")
        ∷ make_salt (10 ∷ 11 ∷ [])
        ∷ codes "offline"
        ∷ [])
      (0, [])

inserted :
    insert_user book (record no_user { name = codes "bob"; password = codes "pw" }) (0, [])
    ≡ (after_insertion, done (stored, true))
unfolding insert_user
inserted = refl

reg-login_example :
    let m' = (reg library sample 1 account empty).0 in
    (w : Rows) × (user : User) × (user.id ≡ stored.id)
    × (user.name ≡ codes "bob")
    × (login library sample 2 account m' ≡ welcome library sample 2 user (record m' { world = w }))
reg-login_example =
    reg-login library sample book-Remembers 1 2 account (codes "bob") (codes "pw") stored
      after_insertion empty refl refl inserted refl
