-- ===== src/Node/Runs.antt =====
-- The events of a server process: what holds of it, whatever they are.
use cluster_chatroom_project.Prelude.{
  ℕ, ◌≡◌, refl, sym, ap, subst, ◌∙◌, ◌⊎◌, inl, inr, Bool, true, false, ◌||◌, Bool-cases,
  Option-cases, some, List, [], ◌∷◌, ◌++◌, Bytes, if◌then◌else◌, ◌==◌, arith, ◌>>=◌, codes,
}
use cluster_chatroom_project.Prelude.Int.{ℤ}
use cluster_chatroom_project.Json.{JsonLib}
use cluster_chatroom_project.Redis.{observe}
use cluster_chatroom_project.Frame.{waits, next_frame}
use cluster_chatroom_project.Frame.Server.{Served, on_message}
use cluster_chatroom_project.Frame.Server.Pieces.{on_message_total}
use cluster_chatroom_project.Frame.Server.Keeps.{Handles, on_message-R}
use cluster_chatroom_project.Database.Users.{reset_state}
use cluster_chatroom_project.Service.{World, Machine}
use cluster_chatroom_project.Service.Accounts.{reset}
use cluster_chatroom_project.Service.Chat.{handle_redis_subscribe_message}
use cluster_chatroom_project.Service.Dispatch.{run_message, on_connection}
use cluster_chatroom_project.Service.Table.{IsTable}
use cluster_chatroom_project.Service.Evolves.{
  Comes, Grows, StaysLost, Evolves, Evolves-refl, Evolves-trans, Evolves-widen,
}
use cluster_chatroom_project.Service.Evolves.Calls.{in_world-EvolvesBy}
use cluster_chatroom_project.Service.Evolves.Messages.{handle_redis_subscribe_message-EvolvesBy}
use cluster_chatroom_project.Service.Evolves.Accounts.{client_close_exception-EvolvesBy}
use cluster_chatroom_project.Service.Evolves.Whole.{Admits, ignore-EvolvesBy, run_message-Evolves}
use cluster_chatroom_project.Node.{
  Event, opens, reads, closes, notified, interrupted, Node, at, after, after_reading, apply, run,
}

-- Each connection that was not shut down has less than a frame in its buffer.
abbrev pub Settled : {W : Type 0} → Node W → Type 0
Settled n = (c : ℕ) → (n.shut c ≡ true) ⊎ (next_frame (n.buffers c) ≡ waits)

at-Settled :
    (c d : ℕ) (b : Bytes) (s : Bool) (buffers : ℕ → Bytes) (shut : ℕ → Bool)
    → (s ≡ true) ⊎ (next_frame b ≡ waits)
    → (shut d ≡ true) ⊎ (next_frame (buffers d) ≡ waits)
    → (at c s shut d ≡ true) ⊎ (next_frame (at c b buffers d) ≡ waits)
at-Settled c d b s buffers shut h k = elim (Bool-cases (c == d)) [ inl e ↦ rw e h | inr e ↦ rw e k ]

nil-waits : next_frame [] ≡ waits
unfolding next_frame
nil-waits = refl

or-shut : {X : Type 0} (a b : Bool) → (a ≡ true) ⊎ X → (a || b ≡ true) ⊎ X
or-shut a b (inl e) = inl (ground arith)
or-shut a b (inr x) = inr x

module _ (world : World) (lib : JsonLib) where
  open world use {sql}

  -- In an event of this node, bytes that are read from connection `c` make `onMessage` come to a
  -- login message; with its name and password and the database as it is then, user `j` logs in on
  -- that connection.
  abbrev pub LogsInAt : Node sql.State → Event → ℤ → ℕ → Type 0
  LogsInAt n (reads d time chunk) j c =
      (body : Bytes) × (js : lib.Json) × (msgid : ℤ) × (m : Machine sql.State) × Handles lib
        (run_message world lib d time) body m (n.buffers d ++ chunk) n.machine
      × (lib.parse body ≡ some js)
      × ((lib.find js (codes "msgid") >>= lib.as_int) ≡ some msgid)
      × Admits world lib m.world d msgid js j c
  LogsInAt n _ j c = ⊥

  -- In one of the events, while the process runs.
  abbrev pub Entered : Node sql.State → List Event → ℤ → ℕ → Type 0
  Entered n [] j c = ⊥
  Entered n (e ∷ es) j c =
      (n.running ≡ true)
      × (LogsInAt n e j c
          ⊎ ((next : Node sql.State) × (apply world lib e n ≡ some next) × Entered next es j c))

  reading-Evolves :
      (c time : ℕ) (chunk : Bytes) (n : Node sql.State) (r : Served (Machine sql.State))
      → on_message lib (run_message world lib c time) (n.buffers c ++ chunk) n.machine ≡ some r
      → Evolves (LogsInAt n (reads c time chunk)) n.machine r.state
  reading-Evolves c time chunk n r e =
      let P = LogsInAt n (reads c time chunk) in
      on_message-R lib (run_message world lib c time) (Evolves P) (Evolves-refl P) (Evolves-trans P)
        (n.buffers c ++ chunk) n.machine r e
        (λ body js msgid m h p k.
          Evolves-widen (Admits world lib m.world c msgid js) P
            (λ j d a. (body, js, msgid, m, h, p, k, a)) m _
            (run_message-Evolves world lib c time msgid js m))

  record Passes (e : Event) (n : Node sql.State) : Type 0 where
    next : Node sql.State
    applied : apply world lib e n ≡ some next
    evolves : Evolves (LogsInAt n e) n.machine next.machine
    settled : Settled n → Settled next

  apply-Passes : (e : Event) (n : Node sql.State) → Passes e n
  unfolding apply on_connection reset
  apply-Passes (opens c) n = record {
    next =
        after world lib (on_connection world lib c true n.machine)
          (record n { buffers = at c [] n.buffers; shut = at c false n.shut });
    applied = refl;
    evolves = Evolves-refl _ n.machine;
    settled = λ h d. at-Settled c d [] false n.buffers n.shut (inr nil-waits) (h d);
  }
  apply-Passes (reads c time chunk) n =
      let (r, e, left) =
        on_message_total lib (run_message world lib c time) (n.buffers c ++ chunk) n.machine in
      record {
        next = after_reading world lib c r n;
        applied = rw (e, apply) refl;
        evolves = reading-Evolves c time chunk n r e;
        settled = λ h d.
            at-Settled c d r.buffer (r.shut || n.shut c) n.buffers n.shut
              (or-shut r.shut (n.shut c) left) (h d);
      }
  apply-Passes (closes c) n = record {
    next = after world lib (on_connection world lib c false n.machine) n;
    applied = refl;
    evolves =
        (ignore-EvolvesBy _ world lib (client_close_exception-EvolvesBy _ world c)).along n.machine;
    settled = λ h. h;
  }
  apply-Passes (notified channel message) n = elim (Option-cases (observe channel message)) [
    | inl e ↦ record {
      next = n;
      applied = rw (e, apply) refl;
      evolves = Evolves-refl _ n.machine;
      settled = λ h. h;
    }
    | inr ((id, msg), e) ↦ record {
      next = after world lib (handle_redis_subscribe_message world lib id msg n.machine) n;
      applied = rw (e, apply) refl;
      evolves = (handle_redis_subscribe_message-EvolvesBy _ world lib id msg).along n.machine;
      settled = λ h. h;
    }
  ]
  apply-Passes interrupted n = record {
    next = record n { machine = (reset world n.machine).0; running = false };
    applied = refl;
    evolves = (in_world-EvolvesBy _ world (reset_state sql)).along n.machine;
    settled = λ h. h;
  }

  record RunPasses (es : List Event) (n : Node sql.State) : Type 0 where
    last : Node sql.State
    ran : run world lib es n ≡ some last
    evolves : Evolves (Entered n es) n.machine last.machine
    settled : Settled n → Settled last

  -- A process that has ended does nothing.
  stopped-RunPasses :
      (e : Event) (es : List Event) (n : Node sql.State) → n.running ≡ false → RunPasses (e ∷ es) n
  unfolding run
  stopped-RunPasses e es n r = record {
    last = n;
    ran =
        subst
          (λ b.
            (if b then apply world lib e n >>= (λ n'. run world lib es n') else some n) ≡ some n)
          (sym r) refl;
    evolves = Evolves-refl (Entered n (e ∷ es)) n.machine;
    settled = λ h. h;
  }

  step-RunPasses :
      (e : Event) (es : List Event) (n : Node sql.State) (p : Passes e n)
      → n.running ≡ true
      → RunPasses es p.next
      → RunPasses (e ∷ es) n
  unfolding run
  step-RunPasses e es n p r q = record {
    last = q.last;
    ran =
        let rest = apply world lib e n >>= λ n'. run world lib es n' in
        subst (λ b. (if b then rest else some n) ≡ rest) (sym r) refl
        ∙ ap (λ o. o >>= λ n'. run world lib es n') p.applied
        ∙ q.ran;
    evolves =
        Evolves-trans (Entered n (e ∷ es)) n.machine p.next.machine q.last.machine
          (Evolves-widen (LogsInAt n e) (Entered n (e ∷ es)) (λ j c h. (r, inl h)) n.machine
            p.next.machine p.evolves)
          (Evolves-widen (Entered p.next es) (Entered n (e ∷ es))
            (λ j c h. (r, inr (p.next, p.applied, h))) p.next.machine q.last.machine q.evolves);
    settled = λ h. q.settled (p.settled h);
  }

  run-RunPasses : (es : List Event) (n : Node sql.State) → RunPasses es n
  unfolding run
  run-RunPasses [] n = record {
    last = n;
    ran = refl;
    evolves = Evolves-refl (Entered n []) n.machine;
    settled = λ h. h;
  }
  run-RunPasses (e ∷ es) n = elim (Bool-cases n.running) [
    | inr r ↦ stopped-RunPasses e es n r
    | inl r ↦ let p = apply-Passes e n in step-RunPasses e es n p r (run-RunPasses es p.next)
  ]

  -- From a node whose table of connections has no user twice and each of whose connections has
  -- been shut down or has less than a frame in its buffer: whatever events a server process
  -- meets, connections opened and closed, bytes read in any pieces, arrays from Redis, an
  -- interrupt, it deals with all of them, or it has ended before. Afterwards both still hold;
  -- each entry of the table was there before, or in one of the events, while the process ran,
  -- bytes that were read on the entry's connection made `onMessage` come to a login message with
  -- the name and the right password of a row that the database gave for the name in the state at
  -- that point, the row of the entry's user and not online; what was sent stays sent; and Redis,
  -- once given up, is not taken up again.
  pub run_total :
      (es : List Event) (n : Node sql.State)
      → IsTable n.machine.conns
      → Settled n
      → (last : Node sql.State) × (run world lib es n ≡ some last)
        × IsTable last.machine.conns
        × Comes (Entered n es) n.machine.conns last.machine.conns
        × Grows n.machine last.machine
        × StaysLost n.machine last.machine
        × Settled last
  run_total es n t s =
      let q = run-RunPasses es n in
      (
        q.last,
        q.ran,
        q.evolves.table t,
        q.evolves.comes,
        q.evolves.grows,
        q.evolves.lost,
        q.settled s,
      )
