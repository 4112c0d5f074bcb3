-- ===== src/Pool/Queue.antt =====
-- src/server/db/connectionpool.cpp: `_connQueue`. Pointers in it, and alive times from front to back.
use cluster_chatroom_project.Prelude.{
  ℕ, ◌+◌, ◌-◌, ◌≤◌, ◌<◌, ◌≡◌, refl, ap, ◌⊎◌, inl, inr, true, false, ◌&&◌, List, [], ◌∷◌, ◌++◌,
  length, All, Bool-cases, if_rule, if◌then◌else◌, ◌==◌, arith,
}
use cluster_chatroom_project.Prelude.Int.{ℤ, pos, negsuc, ltb_ℤ, pos_part}
use cluster_chatroom_project.Pool.{Settings, Conn, without, is_idle, scan_loop}
use cluster_chatroom_project.Pool.Steps.{occurs}

pub occurs-append : (h : ℕ) (xs ys : List Conn) → occurs h (xs ++ ys) ≡ occurs h xs + occurs h ys
occurs-append h [] ys = omega arith
occurs-append h (c ∷ cs) ys = ground (arith, occurs-append h cs ys)

pub occurs-without :
    (h k : ℕ) (l : List Conn)
    → 0 < occurs h l
    → occurs k l ≡ (if h == k then occurs k (without h l) + 1 else occurs k (without h l))
unfolding without
occurs-without h k [] o = absurd (omega arith)
occurs-without h k (c ∷ cs) o = ground (arith, occurs-without h k cs)

pub length-without : (h : ℕ) (l : List Conn) → 0 < occurs h l → length l ≡ length (without h l) + 1
unfolding without
length-without h [] o = absurd (omega arith)
length-without h (c ∷ cs) o = ground (arith, length-without h cs)

-- From front to back the alive times ascend, from `lo` on and up to `hi`.
abbrev pub OldestFirst : ℕ → ℕ → List Conn → Type 0
OldestFirst lo hi [] = lo ≤ hi
OldestFirst lo hi (c ∷ cs) = (lo ≤ c.alive) × OldestFirst c.alive hi cs

pub OldestFirst-push :
    (lo hi now : ℕ) (l : List Conn) (c : Conn)
    → OldestFirst lo hi l
    → hi ≤ now
    → c.alive ≡ now
    → OldestFirst lo now (l ++ c ∷ [])
OldestFirst-push lo hi now [] c o h e = (omega arith, omega arith)
OldestFirst-push lo hi now (d ∷ l) c o h e = (o.0, OldestFirst-push d.alive hi now l c o.1 h e)

pub OldestFirst-wider :
    (lo lo' hi hi' : ℕ) (l : List Conn)
    → OldestFirst lo hi l
    → lo' ≤ lo
    → hi ≤ hi'
    → OldestFirst lo' hi' l
OldestFirst-wider lo lo' hi hi' [] o a b = omega arith
OldestFirst-wider lo lo' hi hi' (c ∷ l) o a b =
    (omega (arith, o.0), OldestFirst-wider c.alive c.alive hi hi' l o.1 (omega arith) b)

-- The scanner's rest of the queue: it is behind what was dropped, which was idle, and the count
-- goes down by as much, but not below the initial size.
pub record Scanned (s : Settings) (now : ℕ) (l : List Conn) (n : ℕ) (l' : List Conn) (n' : ℕ)
    : Type 0 where
  pub dropped : List Conn
  pub split : l ≡ dropped ++ l'
  pub idle : All (λ c. is_idle s now c ≡ true) dropped
  pub fewer : n ≡ n' + length dropped
  pub least : pos_part s.init_size ≤ n → pos_part s.init_size ≤ n'
  -- Why it stopped: the queue is empty, the count is the initial size or less, or the front is in use.
  pub stopped :
      (l' ≡ [])
      ⊎ ((ltb_ℤ s.init_size (pos n') ≡ false)
          ⊎ ((c : Conn) × (rest : List Conn) × (l' ≡ c ∷ rest) × (is_idle s now c ≡ false)))

above_init : (z : ℤ) (n : ℕ) → ltb_ℤ z (pos n) ≡ true → pos_part z ≤ n → 0 < n → pos_part z ≤ n - 1
above_init (pos i) n h l p = ground arith
above_init (negsuc i) n h l p = omega arith

pub scan_loop-Scanned :
    (s : Settings) (now : ℕ) (l : List Conn) (n : ℕ)
    → length l ≤ n
    → let (l', n') = scan_loop s now l n in Scanned s now l n l' n'
unfolding scan_loop
scan_loop-Scanned s now [] n h = record {
  dropped = [];
  split = refl;
  idle = tt;
  fewer = omega arith;
  least = λ x. x;
  stopped = inl refl;
}
scan_loop-Scanned s now (c ∷ cs) n h =
    let ih = scan_loop-Scanned s now cs (n - 1) (omega arith) in
    if_rule {A = List Conn × ℕ} (λ r. Scanned s now (c ∷ cs) n r.0 r.1)
      (ltb_ℤ s.init_size (pos n) && is_idle s now c)
      (λ e. record {
        dropped = c ∷ ih.dropped;
        split = ap (◌∷◌ c) ih.split;
        idle = (ground arith, ih.idle);
        fewer = omega (arith, ih.fewer);
        least = λ x. ih.least (above_init s.init_size n (ground arith) x (omega arith));
        stopped = ih.stopped;
      })
      (λ e. record {
        dropped = [];
        split = refl;
        idle = tt;
        fewer = omega arith;
        least = λ x. x;
        stopped = elim (Bool-cases (ltb_ℤ s.init_size (pos n))) [
          | inl a ↦ inr (inr (c, cs, refl, ground arith))
          | inr a ↦ inr (inl a)
        ];
      })

pub OldestFirst-behind :
    (lo hi : ℕ) (xs ys : List Conn) → OldestFirst lo hi (xs ++ ys) → OldestFirst lo hi ys
OldestFirst-behind lo hi [] ys o = o
OldestFirst-behind lo hi (x ∷ xs) ys o =
    OldestFirst-wider x.alive lo hi hi ys (OldestFirst-behind x.alive hi xs ys o.1) o.0
      (omega arith)

is_idle-later :
    (s : Settings) (now : ℕ) (c d : Conn)
    → c.alive ≤ d.alive
    → is_idle s now c ≡ false
    → is_idle s now d ≡ false
unfolding is_idle
is_idle-later s now c d l h = ground arith

-- If the front is in use, so is what stands behind it.
pub OldestFirst-in_use :
    (s : Settings) (now hi : ℕ) (c : Conn) (l : List Conn)
    → OldestFirst c.alive hi l
    → is_idle s now c ≡ false
    → All (λ d. is_idle s now d ≡ false) l
OldestFirst-in_use s now hi c [] o h = tt
OldestFirst-in_use s now hi c (d ∷ l) o h =
    let e = is_idle-later s now c d o.0 h in (e, OldestFirst-in_use s now hi d l o.1 e)
