-- ===== src/Pool.antt =====
-- src/server/db/connectionpool.cpp: `ConnectionPool`. A method runs under the pool's mutex; the
-- clock, the pointers that `new` gives and what MySQL answers are arguments.
pub mod Config
pub mod Steps
pub mod Queue
pub mod Invariant
pub mod Waiting
mod Examples
use cluster_chatroom_project.Prelude.{
  ℕ, zero, suc, ◌+◌, ◌-◌, ◌/◌, Bool, true, false, not, ◌&&◌, ◌||◌, Option, some, none, List, [],
  ◌∷◌, ◌++◌, Bytes, ◌==◌, if◌then◌else◌,
}
use cluster_chatroom_project.Prelude.Int.{ℤ, pos, ltb_ℤ, pos_part}

-- `_host` to `_maxIdleTime`
pub record Settings : Type 0 where
  pub host : Bytes
  pub user : Bytes
  pub passwd : Bytes
  pub dbname : Bytes
  pub port : ℕ
  pub init_size : ℤ
  pub max_size : ℤ
  pub max_idle_time : ℤ

-- A Connection*: the pointer, and `_aliveTime`.
pub record Conn : Type 0 where
  pub handle : ℕ
  pub alive : ℕ

-- `_connQueue` and `_connCount`, and the connections that shared_ptrs hold at present.
pub record Pool : Type 0 where
  pub settings : Settings
  pub queue : List Conn
  pub leased : List Conn
  pub conn_count : ℕ

abbrev pub is_empty : List Conn → Bool
is_empty [] = true
is_empty (c ∷ cs) = false

-- The constructor's loop, with what `new` and `connect` give in each round: pointer, time, success.
-- `none` stands for LOG_FATAL, which ends the program.
unfoldable pub fill : List (ℕ × ℕ × Bool) → Pool → Option Pool
fill [] p = some p
fill ((h, now, ok) ∷ more) p =
    let rest = fill more (record p {
      queue = p.queue ++ record { handle = h; alive = now } ∷ [];
      conn_count = p.conn_count + 1;
    }) in
    if ok then rest else none

-- The predicate that the producer waits for.
unfoldable pub may_produce : Pool → Bool
may_produce p = is_empty p.queue || not (ltb_ℤ (pos p.conn_count) p.settings.max_size)

-- One round of `produceConnection`, behind the wait.
unfoldable pub produce : ℕ → ℕ → Bool → Pool → Pool
produce now h ok p =
    if ltb_ℤ (pos p.conn_count) p.settings.max_size && ok
    then record p {
      queue = p.queue ++ record { handle = h; alive = now } ∷ [];
      conn_count = p.conn_count + 1;
    }
    else p

-- `ping`, and `connect` if that fails, which refreshes the alive time if it succeeds.
unfoldable pub revive : ℕ → Bool → Bool → Conn → Conn
revive now pinged reconnected c = if not pinged && reconnected then record c { alive = now } else c

-- The front of the queue goes to a shared_ptr.
unfoldable pub take_front : ℕ → Bool → Bool → Pool → Conn → List Conn → Conn × Pool
take_front now pinged reconnected p c rest =
    let d = revive now pinged reconnected c in (d, record p { queue = rest; leased = d ∷ p.leased })

-- A wake-up of `wait_for`: the pool that the thread finds when it has the mutex again, and whether
-- the time was up.
pub record Wake : Type 0 where
  pub found : Pool
  pub timed_out : Bool

-- A connection with the pool that it leaves, a null pointer, or still waiting.
pub data Got : Type 0 where
  handed : Conn → Pool → Got
  refused : Pool → Got
  waits : Got

-- The front of the queue, if there is one.
unfoldable pub hand_front : ℕ → (Conn → Bool) → (Conn → Bool) → Pool → List Conn → Got → Got
hand_front now pings connects p [] otherwise = otherwise
hand_front now pings connects p (c ∷ rest) otherwise =
    let (d, q) = take_front now (pings c) (connects c) p c rest in handed d q

-- `getConnection`, with the wake-ups of the thread so far.
unfoldable pub get_connection : ℕ → (Conn → Bool) → (Conn → Bool) → Pool → List Wake → Got
get_connection now pings connects p [] = hand_front now pings connects p p.queue waits
get_connection now pings connects p (w ∷ ws) =
    let more = get_connection now pings connects w.found ws in
    hand_front now pings connects p p.queue
      (if w.timed_out && is_empty w.found.queue then refused w.found else more)

unfoldable pub without : ℕ → List Conn → List Conn
without h [] = []
without h (c ∷ cs) = if c.handle == h then cs else c ∷ without h cs

-- The deleter of the shared_ptr.
unfoldable pub give_back : ℕ → ℕ → Pool → Pool
give_back now h p = record p {
  queue = p.queue ++ record { handle = h; alive = now } ∷ [];
  leased = without h p.leased;
}

-- Whether the scanner drops a connection, once it is at the front.
unfoldable pub is_idle : Settings → ℕ → Conn → Bool
is_idle s now c = not (ltb_ℤ (pos ((now - c.alive) / 1000000)) s.max_idle_time)

-- The loop of `scanIdleConnection`: the queue and the count.
unfoldable pub scan_loop : Settings → ℕ → List Conn → ℕ → List Conn × ℕ
scan_loop s now [] n = ([], n)
scan_loop s now (c ∷ cs) n =
    let rest = scan_loop s now cs (n - 1) in
    if ltb_ℤ s.init_size (pos n) && is_idle s now c then rest else (c ∷ cs, n)

unfoldable pub scan : ℕ → Pool → Pool
scan now p =
    let (queue, n) = scan_loop p.settings now p.queue p.conn_count in
    record p { queue = queue; conn_count = n }
