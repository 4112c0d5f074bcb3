-- ===== src/Pool/Config.antt =====
-- src/server/db/connectionpool.cpp: `loadConfig`.
pub mod Written
use cluster_chatroom_project.Prelude.{
  ℕ, ◌+◌, ◌-◌, ◌%◌, ◌^◌, Bool, true, false, not, Option, some, none, List, [], ◌∷◌, ◌++◌, Bytes,
  codes, same, ◌==◌, if◌then◌else◌, ◌>>=◌,
}
use cluster_chatroom_project.Prelude.Int.{ℤ, pos, negsuc}
use cluster_chatroom_project.Text.{cut, split_lines}
use cluster_chatroom_project.Text.Integers.{parse_int}
use cluster_chatroom_project.Pool.{Settings}

-- The members' initializers.
abbrev pub defaults : Settings
defaults = record {
  host = [];
  user = [];
  passwd = [];
  dbname = [];
  port = 3306;
  init_size = pos 10;
  max_size = pos 64;
  max_idle_time = pos 60;
}

-- What getenv gives for CHAT_DB_HOST, CHAT_DB_USER, CHAT_DB_PASSWD and CHAT_DB_NAME.
pub record Environment : Type 0 where
  pub chat_db_host : Option Bytes
  pub chat_db_user : Option Bytes
  pub chat_db_passwd : Option Bytes
  pub chat_db_name : Option Bytes

abbrev pub or_keep : Option Bytes → Bytes → Bytes
or_keep none v = v
or_keep (some w) v = w

unfoldable pub from_environment : Environment → Settings → Settings
from_environment env s = record s {
  host = or_keep env.chat_db_host s.host;
  user = or_keep env.chat_db_user s.user;
  passwd = or_keep env.chat_db_passwd s.passwd;
  dbname = or_keep env.chat_db_name s.dbname;
}

-- static_cast<uint16_t> of an int
abbrev pub to_u16 : ℤ → ℕ
to_u16 (pos n) = n % 2 ^ 16
to_u16 (negsuc n) = 2 ^ 16 - 1 - n % 2 ^ 16

-- The chain of tests on the key; `none` is std::stoi's exception.
unfoldable pub assign : Bytes → Bytes → Settings → Option Settings
assign k v s =
    if same k (codes "host")
    then some (record s { host = v })
    else if same k (codes "user")
    then some (record s { user = v })
    else if same k (codes "password")
    then some (record s { passwd = v })
    else if same k (codes "dbname")
    then some (record s { dbname = v })
    else if same k (codes "port")
    then (do n ← parse_int v; some (record s { port = to_u16 n }))
    else if same k (codes "initSize")
    then (do n ← parse_int v; some (record s { init_size = n }))
    else if same k (codes "maxSize")
    then (do n ← parse_int v; some (record s { max_size = n }))
    else if same k (codes "maxIdleTime")
    then (do n ← parse_int v; some (record s { max_idle_time = n }))
    else some s

abbrev pub assign_cut : Option (Bytes × Bytes) → Settings → Option Settings
assign_cut none s = some s
assign_cut (some (k, v)) s = assign k v s

-- The body of the loop over the lines.
unfoldable pub read_line : Bytes → Settings → Option Settings
read_line [] s = some s
read_line (c ∷ cs) s = if c == b'#' then some s else assign_cut (cut b'=' (c ∷ cs)) s

unfoldable pub read_lines : List Bytes → Settings → Option Settings
read_lines [] s = some s
read_lines (l ∷ ls) s = do t ← read_line l s; read_lines ls t

-- conf/mysql.cnf, if it can be opened.
unfoldable pub read_file : Option Bytes → Settings → Option Settings
read_file none s = some s
read_file (some text) s = read_lines (split_lines text) s

abbrev pub or_default : Bytes → Bytes → Bytes
or_default [] d = d
or_default (c ∷ cs) d = c ∷ cs

abbrev pub is_given : Bytes → Bool
is_given [] = false
is_given (c ∷ cs) = true

-- The settings, and whether there is a user.
unfoldable pub load_config : Environment → Option Bytes → Option (Settings × Bool)
load_config env file = do
  s ← read_file file (from_environment env defaults)
  let t = record s {
    host = or_default s.host (codes "127.0.0.1");
    dbname = or_default s.dbname (codes "chat");
  }
  some (t, is_given t.user)
