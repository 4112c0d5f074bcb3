-- ===== src/Pool/Invariant.antt =====
-- src/server/db/connectionpool.cpp: the pool's connections are counted and accounted for.
use mathlib.Core.Option.{some-injective}
use cluster_chatroom_project.Prelude.{
  ℕ, ◌+◌, ◌≤◌, ◌≡◌, refl, ap, subst, ◌∙◌, ◌⊎◌, inl, inr, Bool, true, false, ◌&&◌, some, List, [],
  ◌∷◌, ◌++◌, length, length-append, All, Bool-cases, if_rule, arith,
}
use cluster_chatroom_project.Prelude.Int.{ℤ, pos, negsuc, ltb_ℤ, pos_part}
use cluster_chatroom_project.Pool.{
  Settings, Conn, Pool, fill, produce, revive, take_front, give_back, is_idle, scan_loop, scan,
}
use cluster_chatroom_project.Pool.Steps.{
  occurs, IsNew, Step, produces, takes, gives_back, scans, Course, here, next, blank, given,
  Between, Starts,
}
use cluster_chatroom_project.Pool.Queue.{
  occurs-append, occurs-without, length-without, OldestFirst, OldestFirst-push, OldestFirst-wider,
  OldestFirst-behind, OldestFirst-in_use, scan_loop-Scanned,
}

-- `_connCount` is how many connections there are, in the queue or with a thread; none is there
-- twice; they are as many as at the start or more, and no more than the limit, unless there were
-- more at the start; the queue stands in the order of the alive times.
pub record Inv (now : ℕ) (p : Pool) : Type 0 where
  pub counted : p.conn_count ≡ length p.queue + length p.leased
  pub once : (h : ℕ) → occurs h p.queue + occurs h p.leased ≤ 1
  pub least : pos_part p.settings.init_size ≤ p.conn_count
  pub most :
      (p.conn_count ≤ pos_part p.settings.init_size) ⊎ (p.conn_count ≤ pos_part p.settings.max_size)
  pub ordered : OldestFirst 0 now p.queue

pub Inv-later : (t now : ℕ) (p : Pool) → t ≤ now → Inv t p → Inv now p
Inv-later t now p l v = record {
  counted = v.counted;
  once = v.once;
  least = v.least;
  most = v.most;
  ordered = OldestFirst-wider 0 0 t now p.queue v.ordered (omega arith) l;
}

below_max : (z : ℤ) (n : ℕ) → ltb_ℤ (pos n) z ≡ true → n + 1 ≤ pos_part z
below_max (pos m) n l = ground arith
below_max (negsuc m) n l = absurd (ground arith)

produce-Inv :
    (now h : ℕ) (ok : Bool) (p : Pool) → IsNew h p → Inv now p → Inv now (produce now h ok p)
unfolding produce
produce-Inv now h ok p f v =
    if_rule (Inv now) (ltb_ℤ (pos p.conn_count) p.settings.max_size && ok)
      (λ e.
        let c : Conn = record { handle = h; alive = now } in
        record {
          counted = omega (arith, v.counted, length-append p.queue (c ∷ []));
          once = λ k. ground (arith, v.once k, f, occurs-append k p.queue (c ∷ []));
          least = omega (arith, v.least);
          most = inr (below_max p.settings.max_size p.conn_count (ground arith));
          ordered = OldestFirst-push 0 now now p.queue c v.ordered (omega arith) refl;
        })
      (λ _. v)

handle-revive : (now : ℕ) (a b : Bool) (c : Conn) → (revive now a b c).handle ≡ c.handle
unfolding revive
handle-revive now a b c = ground arith

take_front-Inv :
    (now : ℕ) (a b : Bool) (p : Pool) (c : Conn) (rest : List Conn)
    → p.queue ≡ c ∷ rest
    → Inv now p
    → Inv now (take_front now a b p c rest).1
unfolding take_front
take_front-Inv now a b p c rest e v =
    let o : OldestFirst 0 now (c ∷ rest) = subst (OldestFirst 0 now) e v.ordered in
    let n : length p.queue ≡ length rest + 1 = ap length e ∙ omega arith in
    let k = handle-revive now a b c in
    record {
      counted = omega (arith, v.counted);
      once = λ h.
          let w = v.once h in
          let q : occurs h p.queue ≡ occurs h (c ∷ rest) = ap (occurs h) e in
          ground (arith, w, q, k);
      least = v.least;
      most = v.most;
      ordered = OldestFirst-wider c.alive 0 now now rest o.1 (omega arith) (omega arith);
    }

give_back-Inv :
    (now : ℕ) (c : Conn) (p : Pool)
    → occurs c.handle p.leased ≡ 1
    → Inv now p
    → Inv now (give_back now c.handle p)
unfolding give_back
give_back-Inv now c p o v =
    let d : Conn = record { handle = c.handle; alive = now } in
    record {
      counted = omega (
        arith,
        v.counted,
        length-append p.queue (d ∷ []),
        length-without c.handle p.leased (omega arith),
      );
      once = λ h. ground (
        arith,
        v.once h,
        occurs-append h p.queue (d ∷ []),
        occurs-without c.handle h p.leased (omega arith),
      );
      least = v.least;
      most = v.most;
      ordered = OldestFirst-push 0 now now p.queue d v.ordered (omega arith) refl;
    }

scan-Inv : (now : ℕ) (p : Pool) → Inv now p → Inv now (scan now p)
unfolding scan
scan-Inv now p v =
    let r = scan_loop p.settings now p.queue p.conn_count in
    let s = scan_loop-Scanned p.settings now p.queue p.conn_count (omega (arith, v.counted)) in
    let n = ap length s.split in
    let m = length-append s.dropped r.0 in
    record {
      counted = omega (arith, v.counted, s.fewer);
      once = λ h.
          let q = ap (occurs h) s.split ∙ occurs-append h s.dropped r.0 in omega (arith, v.once h);
      least = s.least v.least;
      most = elim v.most [
        | inl l ↦ inl (omega (arith, s.fewer))
        | inr l ↦ inr (omega (arith, s.fewer))
      ];
      ordered =
          OldestFirst-behind 0 now s.dropped r.0 (subst (OldestFirst 0 now) s.split v.ordered);
    }

Step-Inv : {now : ℕ} {p q : Pool} → Step now p q → Inv now p → Inv now q
Step-Inv {now} {p} (produces h ok m f) v = produce-Inv now h ok p f v
Step-Inv {now} {p} (takes c rest a b e) v = take_front-Inv now a b p c rest e v
Step-Inv {now} {p} (gives_back c o) v = give_back-Inv now c p o v
Step-Inv {now} {p} scans v = scan-Inv now p v

Course-Inv : {t u : ℕ} {p q : Pool} → Course t p u q → Inv t p → Inv u q
Course-Inv (here t p) v = v
Course-Inv (next {u = u} {v = w} {q = q} course l step) v =
    Step-Inv step (Inv-later u w q l (Course-Inv course v))

-- The constructor's loop, part of the way.
record Filled (t : ℕ) (s : Settings) (n : ℕ) (p : Pool) : Type 0 where
  from : p.settings ≡ s
  free : p.leased ≡ []
  counted : p.conn_count ≡ length p.queue
  number : p.conn_count ≡ n
  ordered : OldestFirst 0 t p.queue

fill-Filled :
    (s : Settings) (t u n : ℕ) (rounds : List (ℕ × ℕ × Bool)) (p q : Pool)
    → Filled t s n p
    → ((h : ℕ) → occurs h p.queue + given h rounds ≤ 1)
    → Between t u rounds
    → fill rounds p ≡ some q
    → Filled u s (n + length rounds) q × ((h : ℕ) → occurs h q.queue ≤ 1)
unfolding fill
fill-Filled s t u n [] p q f o b e =
    let z : p ≡ q = some-injective _ _ e in
    subst (λ x. Filled u s (n + 0) x × ((h : ℕ) → occurs h x.queue ≤ 1)) z
      (
        record {
          from = f.from;
          free = f.free;
          counted = f.counted;
          number = omega (arith, f.number);
          ordered = OldestFirst-wider 0 0 t u p.queue f.ordered (omega arith) b;
        },
        λ h. omega (arith, o h),
      )
fill-Filled s t u n ((k, now, ok) ∷ more) p q f o b e = elim (Bool-cases ok) [
  | inr bad ↦ absurd (ground arith)
  | inl good ↦
      let c : Conn = record { handle = k; alive = now } in
      let p' : Pool = record p { queue = p.queue ++ c ∷ []; conn_count = p.conn_count + 1 } in
      let r : fill more p' ≡ some q = ground arith in
      let l = length-append p.queue (c ∷ []) in
      let f' : Filled now s (n + 1) p' = record {
        from = f.from;
        free = f.free;
        counted = omega (arith, f.counted);
        number = omega (arith, f.number);
        ordered = OldestFirst-push 0 t now p.queue c f.ordered b.0 refl;
      } in
      let o' : (h : ℕ) → occurs h (p.queue ++ c ∷ []) + given h more ≤ 1 =
        λ h. ground (arith, o h, occurs-append h p.queue (c ∷ [])) in
      let (g, w) = fill-Filled s now u (n + 1) more p' q f' o' b.1 r in
      (subst (λ i. Filled u s i q) (omega arith) g, w)
]

fill-Inv :
    (s : Settings) (u : ℕ) (rounds : List (ℕ × ℕ × Bool)) (p : Pool)
    → Starts s u rounds
    → fill rounds (blank s) ≡ some p
    → Inv u p
fill-Inv s u rounds p a e =
    let empty : Filled 0 s 0 (blank s) = record {
      from = refl;
      free = refl;
      counted = refl;
      number = refl;
      ordered = omega arith;
    } in
    let (f, w) =
      fill-Filled s 0 u 0 rounds (blank s) p empty (λ h. omega (arith, a.once h)) a.times e in
    let n = ap length f.free in
    let i = ap (λ (x : Settings). pos_part x.init_size) f.from in
    record {
      counted = omega (arith, f.counted);
      once = λ h. let z = ap (occurs h) f.free in omega (arith, w h);
      least = omega (arith, f.number, a.all);
      most = inl (omega (arith, f.number, a.all));
      ordered = f.ordered;
    }

-- From the pool's constructor, at times that do not run backwards and with pointers that are new,
-- through any sequence of the steps of consumers, producer and scanner: the count is the number of
-- connections queued or lent; no connection is twice in the pool; there are at least as many as
-- `_initSize` and at most as many as `_maxSize`, or as `_initSize` if that is more; and the queue
-- has the connection that was used longest ago in front.
pub fill-Course-Inv :
    (s : Settings) (t u : ℕ) (rounds : List (ℕ × ℕ × Bool)) (p q : Pool)
    → Starts s t rounds
    → fill rounds (blank s) ≡ some p
    → Course t p u q
    → Inv u q
fill-Course-Inv s t u rounds p q a e course = Course-Inv course (fill-Inv s t rounds p a e)

-- From a pool whose invariant holds: after the scanner, it still holds, and either no queued
-- connection has been idle for the limit or just as many connections as `_initSize` are left, or
-- none if that is negative.
pub scan-idle :
    (now : ℕ) (p : Pool)
    → Inv now p
    → let q = scan now p in
      Inv now q
      × ((All (λ c. is_idle p.settings now c ≡ false) q.queue)
          ⊎ (q.conn_count ≡ pos_part p.settings.init_size))
unfolding scan
scan-idle now p v =
    let r = scan_loop p.settings now p.queue p.conn_count in
    let s = scan_loop-Scanned p.settings now p.queue p.conn_count (omega (arith, v.counted)) in
    let o = OldestFirst-behind 0 now s.dropped r.0 (subst (OldestFirst 0 now) s.split v.ordered) in
    (
      scan-Inv now p v,
      elim s.stopped [
        | inl e ↦ inl (rw e tt)
        | inr (inl l) ↦ inr (at_least p.settings.init_size r.1 l (s.least v.least))
        | inr (inr (c, rest, e, f)) ↦ inl (
            rw e
              (f, OldestFirst-in_use p.settings now now c rest (subst (OldestFirst 0 now) e o).1 f))
      ],
    )
  where
    at_least : (z : ℤ) (n : ℕ) → ltb_ℤ z (pos n) ≡ false → pos_part z ≤ n → n ≡ pos_part z
    at_least (pos i) n l h = ground arith
    at_least (negsuc i) n l h = ground arith
