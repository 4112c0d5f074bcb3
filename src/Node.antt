-- ===== src/Node.antt =====
-- src/server/main.cpp, src/server/chatserver.cpp and the constructor of ChatService: a process of
-- the server from its start, event by event. An event is one call that muduo, the observer of
-- Redis or a signal makes, and it is one step: handlers of two threads do not interleave.
pub mod Runs
mod Examples
use cluster_chatroom_project.Prelude.{
  ℕ, ◌≡◌, Bool, true, false, ◌||◌, Option, some, none, List, [], ◌∷◌, ◌++◌, Bytes, ◌==◌, ◌>>=◌,
  if◌then◌else◌,
}
use cluster_chatroom_project.Prelude.Int.{ℤ}
use cluster_chatroom_project.Text.Integers.{atoi}
use cluster_chatroom_project.Pool.Config.{to_u16}
use cluster_chatroom_project.Json.{JsonLib}
use cluster_chatroom_project.Effect.{Result, done, thrown}
use cluster_chatroom_project.Redis.{Element, closed, connect, observe}
use cluster_chatroom_project.Frame.Server.{Served, on_message}
use cluster_chatroom_project.Service.{World, Machine}
use cluster_chatroom_project.Service.Accounts.{reset}
use cluster_chatroom_project.Service.Chat.{handle_redis_subscribe_message}
use cluster_chatroom_project.Service.Dispatch.{run_message, on_connection}

-- `main`'s arguments behind the program's name: nothing if the address and the port are not there;
-- a port out of the range of an int is what C leaves undefined.
unfoldable pub listen_address : List Bytes → Option (Bytes × Option ℕ)
listen_address (ip ∷ port ∷ rest) = some (ip, (do n ← atoi port; some (to_u16 n)))
listen_address _ = none

-- A connection is opened; bytes that came on it are read, at a time; it is closed; an array of
-- Redis's, by its elements 1 and 2; SIGINT or SIGTERM.
pub data Event : Type 0 where
  opens : ℕ → Event
  reads : ℕ → ℕ → Bytes → Event
  closes : ℕ → Event
  notified : Element → Option Element → Event
  interrupted : Event

-- The service, each connection's buffer, whether the server has shut it down, and whether the
-- process runs: an exception that leaves a callback ends it.
pub record Node (W : Type 0) : Type 0 where
  pub machine : Machine W
  pub buffers : ℕ → Bytes
  pub shut : ℕ → Bool
  pub running : Bool

abbrev pub at : {A : Type 0} → ℕ → A → (ℕ → A) → ℕ → A
at c a f d = if c == d then a else f d

abbrev pub is_done : {A : Type 0} → Result A → Bool
is_done (done a) = true
is_done (thrown e) = false

-- `ChatService::ChatService`: what redisConnect gives three times, and the world before.
unfoldable pub start_service : {W : Type 0} → Bool → Bool → Bool → W → Machine W
start_service pub_up sub_up cmd_up w = record {
  conns = [];
  redis = (connect pub_up sub_up cmd_up closed).0;
  world = w;
  sent = [];
}

abbrev pub start : {W : Type 0} → Machine W → Node W
start m = record { machine = m; buffers = λ c. []; shut = λ c. false; running = true }

module _ (world : World) (lib : JsonLib) where
  open world use {sql}

  -- A callback whose exceptions nobody catches.
  abbrev pub after : {A : Type 0} → Machine sql.State × Result A → Node sql.State → Node sql.State
  after r n = record n { machine = r.0; running = is_done r.1 }

  abbrev pub after_reading : ℕ → Served (Machine sql.State) → Node sql.State → Node sql.State
  after_reading c r n = record n {
    machine = r.state;
    buffers = at c r.buffer n.buffers;
    shut = at c (r.shut || n.shut c) n.shut;
  }

  unfoldable pub apply : Event → Node sql.State → Option (Node sql.State)
  apply (opens c) n = some (
      after (on_connection world lib c true n.machine)
        (record n { buffers = at c [] n.buffers; shut = at c false n.shut }))
  apply (reads c time chunk) n = do
    r ← on_message lib (run_message world lib c time) (n.buffers c ++ chunk) n.machine
    some (after_reading c r n)
  apply (closes c) n = some (after (on_connection world lib c false n.machine) n)
  apply (notified channel message) n = elim (observe channel message) [
    | none ↦ some n
    | some (id, msg) ↦ some (after (handle_redis_subscribe_message world lib id msg n.machine) n)
  ]
  apply interrupted n = some (record n { machine = (reset world n.machine).0; running = false })

  -- The events of a process that runs.
  unfoldable pub run : List Event → Node sql.State → Option (Node sql.State)
  run [] n = some n
  run (e ∷ es) n = let next = (do n' ← apply e n; run es n') in if n.running then next else some n
