-- ===== src/Pool/Examples.antt =====
-- A small pool at work, and the theorems at concrete inputs.
use cluster_chatroom_project.Prelude.{
  ℕ, ◌≤◌, ◌≡◌, ◌≢◌, ◌⊎◌, refl, Bool, true, false, some, none, List, [], ◌∷◌, Bytes, codes, All,
  arith,
}
use cluster_chatroom_project.Prelude.Int.{pos, pos_part}
use cluster_chatroom_project.Pool.{
  Settings, Conn, Pool, fill, may_produce, produce, revive, take_front, without, give_back, is_idle,
  scan_loop, scan, Wake, get_connection,
}
use cluster_chatroom_project.Pool.Config.{Environment, load_config}
use cluster_chatroom_project.Pool.Config.Written.{write, IsWritable, load_config-write}
use cluster_chatroom_project.Pool.Steps.{
  Step, produces, takes, gives_back, scans, Course, here, next, blank, given, Starts,
}
use cluster_chatroom_project.Pool.Invariant.{Inv, fill-Course-Inv, scan-idle}
use cluster_chatroom_project.Pool.Waiting.{Explains, get_connection-Explains}

abbrev small : Settings
small = record {
  host = codes "db";
  user = codes "chat";
  passwd = [];
  dbname = codes "chat";
  port = 3306;
  init_size = pos 1;
  max_size = pos 2;
  max_idle_time = pos 60;
}

small-IsWritable : IsWritable small
small-IsWritable = record {
  host_line = omega arith;
  user_line = omega arith;
  passwd_line = tt;
  dbname_line = omega arith;
  port_range = omega arith;
  init_range = omega arith;
  max_range = omega arith;
  idle_range = omega arith;
}

abbrev home : Environment
home = record {
  chat_db_host = some (codes "x");
  chat_db_user = none;
  chat_db_passwd = none;
  chat_db_name = none;
}

some_text : (c : ℕ) (cs : Bytes) → c ∷ cs ≢ []
some_text c cs e = cc

load_config-write_example : load_config home (some (write small)) ≡ some (small, true)
load_config-write_example =
    load_config-write small home small-IsWritable (some_text _ _) (some_text _ _) (some_text _ _)

abbrev rounds : List (ℕ × ℕ × Bool)
rounds = (70, 5, true) ∷ []

one_each : (h : ℕ) → given h rounds ≤ 1
one_each h = ground arith

rounds-Starts : Starts small 5 rounds
rounds-Starts = record { all = refl; times = omega arith; once = one_each }

abbrev first : Conn
first = record { handle = 70; alive = 5 }

abbrev started : Pool
started = record { settings = small; queue = first ∷ []; leased = []; conn_count = 1 }

fill_started : fill rounds (blank small) ≡ some started
unfolding fill
fill_started = refl

-- A thread takes the connection, the producer makes another, the first comes back, and much later
-- the scanner drops one.
abbrev taken : Pool
taken = record started { queue = []; leased = first ∷ [] }

abbrev produced : Pool
produced = record {
  settings = small;
  queue = record { handle = 71; alive = 20 } ∷ [];
  leased = first ∷ [];
  conn_count = 2;
}

abbrev returned : Pool
returned = record {
  settings = small;
  queue = record { handle = 71; alive = 20 } ∷ record { handle = 70; alive = 30 } ∷ [];
  leased = [];
  conn_count = 2;
}

scanned : Pool
unfolding scan scan_loop is_idle
scanned = scan 90000000 returned

scanned_one : scanned.queue ≡ record { handle = 70; alive = 30 } ∷ []
unfolding scanned
scanned_one = refl

take-Step : Step 10 started taken
unfolding take_front revive
take-Step = takes first [] true false refl

produce-Step : Step 20 taken produced
unfolding produce may_produce
produce-Step = produces 71 true refl refl

return-Step : Step 30 produced returned
unfolding give_back without
return-Step = gives_back first refl

scan-Step : Step 90000000 returned scanned
unfolding scanned
scan-Step = scans

returned_course : Course 5 started 30 returned
returned_course =
    next (next (next (here 5 started) (omega arith) take-Step) (omega arith) produce-Step)
      (omega arith) return-Step

fill-Course-Inv_example : Inv 90000000 scanned
fill-Course-Inv_example =
    fill-Course-Inv small 5 90000000 rounds started scanned rounds-Starts fill_started
      (next returned_course (omega arith) scan-Step)

returned-Inv : Inv 30 returned
returned-Inv =
    fill-Course-Inv small 5 30 rounds started returned rounds-Starts fill_started returned_course

scan-idle_example :
    let q = scan 30 returned in
    Inv 30 q
    × ((All (λ c. is_idle small 30 c ≡ false) q.queue) ⊎ (q.conn_count ≡ pos_part small.init_size))
scan-idle_example = scan-idle 30 returned returned-Inv

-- Woken up with nothing there, then by a connection that came back.
abbrev wakes : List Wake
wakes =
    record { found = taken; timed_out = false } ∷ record { found = returned; timed_out = true } ∷ []

get_connection-Explains_example :
    Explains 40
      (λ c. true)
      (λ c. false)
      taken
      wakes
      (get_connection 40 (λ c. true) (λ c. false) taken wakes)
get_connection-Explains_example = get_connection-Explains 40 (λ c. true) (λ c. false) taken wakes
