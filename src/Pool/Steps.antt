-- ===== src/Pool/Steps.antt =====
-- src/server/db/connectionpool.cpp: how the producer, the scanner and the threads that use
-- connections take turns at the pool.
use cluster_chatroom_project.Prelude.{
  ℕ, ◌+◌, ◌≤◌, ◌≡◌, Bool, true, List, [], ◌∷◌, length, ◌==◌, if◌then◌else◌,
}
use cluster_chatroom_project.Prelude.Int.{pos_part}
use cluster_chatroom_project.Pool.{
  Settings, Conn, Pool, may_produce, produce, take_front, give_back, scan,
}

-- How often a pointer is in a list.
abbrev pub occurs : ℕ → List Conn → ℕ
occurs h [] = 0
occurs h (c ∷ cs) = if c.handle == h then occurs h cs + 1 else occurs h cs

-- `new` gives a pointer that no connection of the pool has.
abbrev pub IsNew : ℕ → Pool → Type 0
IsNew h p = occurs h p.queue + occurs h p.leased ≡ 0

-- What one thread does while it has the mutex.
pub data Step (now : ℕ) (p : Pool) : Pool → Type 0 where
  produces :
      (h : ℕ) (ok : Bool) → may_produce p ≡ true → IsNew h p → Step now p (produce now h ok p)
  takes :
      (c : Conn) (rest : List Conn) (pinged reconnected : Bool)
      → p.queue ≡ c ∷ rest
      → Step now p (take_front now pinged reconnected p c rest).1
  gives_back : (c : Conn) → occurs c.handle p.leased ≡ 1 → Step now p (give_back now c.handle p)
  scans : Step now p (scan now p)

-- A course of the pool: steps one after the other, the clock not going back.
pub data Course : ℕ → Pool → ℕ → Pool → Type 0 where
  here : (t : ℕ) (p : Pool) → Course t p t p
  next : {t u v : ℕ} {p q r : Pool} → Course t p u q → u ≤ v → Step v q r → Course t p v r

-- The pool before the constructor's loop.
abbrev pub blank : Settings → Pool
blank s = record { settings = s; queue = []; leased = []; conn_count = 0 }

-- How often `new` gives a pointer in the constructor's rounds.
abbrev pub given : ℕ → List (ℕ × ℕ × Bool) → ℕ
given h [] = 0
given h ((k, now, ok) ∷ more) = if k == h then given h more + 1 else given h more

-- The rounds' times, from `t` on and up to `u`.
abbrev pub Between : ℕ → ℕ → List (ℕ × ℕ × Bool) → Type 0
Between t u [] = t ≤ u
Between t u ((k, now, ok) ∷ more) = (t ≤ now) × Between now u more

-- What the constructor gets: a round for each connection of the initial size, the clock not going
-- back, and no pointer given twice.
pub record Starts (s : Settings) (u : ℕ) (rounds : List (ℕ × ℕ × Bool)) : Type 0 where
  pub all : length rounds ≡ pos_part s.init_size
  pub times : Between 0 u rounds
  pub once : (h : ℕ) → given h rounds ≤ 1
