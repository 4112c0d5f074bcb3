-- ===== src/Service/Evolves/Calls.antt =====
-- src/server/chatservice.cpp: what the calls of the handlers do to a node's state.
use cluster_chatroom_project.Prelude.{
  ℕ, ◌≡◌, refl, sym, ◌⊎◌, inl, inr, true, false, not, ◌||◌, ◌&&◌, Bool, Bool-cases, Option, some,
  none, List, [], ◌∷◌, ◌++◌, append-nil, Bytes, if_rule, if◌then◌else◌, ◌==◌,
}
use cluster_chatroom_project.Prelude.Int.{ℤ}
use cluster_chatroom_project.Json.{JsonLib}
use cluster_chatroom_project.Redis.{
  Redis, Reply, null, integer, string, other, to_u64, incr_seq, local_fallback_seq, replied,
  publish,
}
use cluster_chatroom_project.Effect.{Program, give, ◌>>=◌, each}
use cluster_chatroom_project.Effect.Keeps.{Keeps, bind-Keeps, if-Keeps, each-Keeps}
use cluster_chatroom_project.Database.Offline.{insert_message}
use cluster_chatroom_project.Service.{
  World, Machine, Sent, to_store, in_world, send, send_with_header, next_seq, publish_to, subscribe,
  unsubscribe, noted, store, or_throw, get_int, get_string, set_field, respond,
}
use cluster_chatroom_project.Service.Evolves.{
  Evolves, Evolves-refl, Evolves-trans, Comes-refl, StaysLost,
}

local_fallback_seq-redis_available :
    (conv : Bytes) (r : Redis) → (local_fallback_seq conv r).0.redis_available ≡ r.redis_available
unfolding local_fallback_seq
local_fallback_seq-redis_available conv r = refl

replied-redis_available :
    (conv : Bytes) (reply : Reply) (r : Redis)
    → r.redis_available ≡ true ⊎ (replied conv reply r).0.redis_available ≡ false
unfolding replied local_fallback_seq
replied-redis_available conv null r = inr refl
replied-redis_available conv (integer z) r =
    if_rule {A = Redis × ℕ} (λ x. r.redis_available ≡ true ⊎ x.0.redis_available ≡ false)
      (to_u64 z == 0) (λ _. Bool-cases r.redis_available) (λ _. Bool-cases r.redis_available)
replied-redis_available conv (string s) r = Bool-cases r.redis_available
replied-redis_available conv other r = Bool-cases r.redis_available

incr_seq-redis_available :
    (conv : Bytes) (reply : Reply) (r : Redis)
    → r.redis_available ≡ true ⊎ (incr_seq conv reply r).0.redis_available ≡ false
unfolding incr_seq local_fallback_seq
incr_seq-redis_available conv reply r =
    if_rule {A = Redis × ℕ} (λ x. r.redis_available ≡ true ⊎ x.0.redis_available ≡ false)
      (not r.command_context || not r.redis_available) (λ _. Bool-cases r.redis_available)
      (λ _. replied-redis_available conv reply r)

module _ (P : ℤ → ℕ → Type 0) where
  -- The table as it was, and no more than things sent.
  pub quiet :
      {W : Type 0} (m m' : Machine W) (more : List Sent)
      → m'.conns ≡ m.conns
      → m'.sent ≡ m.sent ++ more
      → StaysLost m m'
      → Evolves P m m'
  quiet m m' more e f l = record {
    table = λ t. rw e t;
    comes = rw e (Comes-refl P m.conns);
    grows = (more, f);
    lost = l;
  }

  module _ (world : World) where
    open world use {sql, is_connected}

    abbrev pub EvolvesBy : {A : Type 0} → Program (Machine sql.State) A → Type 0
    EvolvesBy p = Keeps (Evolves P) (Evolves-refl P) (Evolves-trans P) p

    -- A call, and what follows it.
    pub bind-EvolvesBy :
        {A B : Type 0} {p : Program (Machine sql.State) A} {k : A → Program (Machine sql.State) B}
        → EvolvesBy p
        → ((a : A) → EvolvesBy (k a))
        → EvolvesBy (p >>= k)
    bind-EvolvesBy h t = bind-Keeps (Evolves P) (Evolves-refl P) (Evolves-trans P) h t

    pub if-EvolvesBy :
        {A : Type 0} (b : Bool) {p q : Program (Machine sql.State) A}
        → EvolvesBy p
        → EvolvesBy q
        → EvolvesBy (if b then p else q)
    if-EvolvesBy b h t = if-Keeps (Evolves P) (Evolves-refl P) (Evolves-trans P) b h t

    pub each-EvolvesBy :
        {A B : Type 0} {f : A → Program (Machine sql.State) B} (xs : List A)
        → ((x : A) → EvolvesBy (f x))
        → EvolvesBy (each f xs)
    each-EvolvesBy xs h = each-Keeps (Evolves P) (Evolves-refl P) (Evolves-trans P) xs h

    pub give-EvolvesBy : {A : Type 0} (a : A) → EvolvesBy (give a)
    give-EvolvesBy a = record { along = Evolves-refl P }

    pub in_world-EvolvesBy : {A : Type 0} (p : Program sql.State A) → EvolvesBy (in_world world p)
    in_world-EvolvesBy p = record {
      along = λ m.
          quiet m (in_world world p m).0 [] refl (sym (append-nil m.sent))
            (Bool-cases m.redis.redis_available);
    }

    send-EvolvesBy : (x : Sent) → EvolvesBy (send world x)
    send-EvolvesBy x = record {
      along =
          λ m. quiet m (send world x m).0 (x ∷ []) refl refl (Bool-cases m.redis.redis_available);
    }

    pub send_with_header-EvolvesBy :
        (conn : ℕ) (body : Bytes) → EvolvesBy (send_with_header world conn body)
    unfolding send_with_header
    send_with_header-EvolvesBy conn body = record {
      along = λ m. elim (Bool-cases (is_connected conn m.world)) [
        | inl e ↦ rw e (quiet m _ (_ ∷ []) refl refl (Bool-cases m.redis.redis_available))
        | inr e ↦ rw e (Evolves-refl P m)
      ];
    }

    pub next_seq-EvolvesBy : (conv : Bytes) → EvolvesBy (next_seq world conv)
    unfolding next_seq
    next_seq-EvolvesBy conv = record {
      along = λ m. elim (Bool-cases (m.redis.command_context && m.redis.redis_available)) [
        | inl e ↦
            rw e (
              quiet m _ [] refl (sym (append-nil m.sent)) (incr_seq-redis_available conv _ m.redis))
        | inr e ↦ rw e (
            quiet m _ [] refl (sym (append-nil m.sent))
              (incr_seq-redis_available conv other m.redis))
      ];
    }

    pub publish_to-EvolvesBy : (id : ℤ) (msg : Bytes) → EvolvesBy (publish_to world id msg)
    unfolding publish_to
    publish_to-EvolvesBy id msg = record {
      along = λ m. elim (Bool-cases (publish (world.publish_reply id msg m.world).1)) [
        | inl e ↦ rw e (quiet m _ (_ ∷ []) refl refl (Bool-cases m.redis.redis_available))
        | inr e ↦
            rw e (quiet m _ [] refl (sym (append-nil m.sent)) (Bool-cases m.redis.redis_available))
      ];
    }

    pub subscribe-EvolvesBy : (id : ℤ) → EvolvesBy (subscribe world id)
    unfolding subscribe
    subscribe-EvolvesBy id = record {
      along = λ m. quiet m _ [] refl (sym (append-nil m.sent)) (Bool-cases m.redis.redis_available);
    }

    pub unsubscribe-EvolvesBy : (id : ℤ) → EvolvesBy (unsubscribe world id)
    unfolding unsubscribe
    unsubscribe-EvolvesBy id = record {
      along = λ m. quiet m _ [] refl (sym (append-nil m.sent)) (Bool-cases m.redis.redis_available);
    }

    module _ (lib : JsonLib) where
      open lib use {Json, find, set, as_int, as_string, dump}

      noted-EvolvesBy :
          (id : ℤ) (msg : Bytes) (asked : Option Bool) → EvolvesBy (noted world lib id msg asked)
      noted-EvolvesBy id msg none = give-EvolvesBy tt
      noted-EvolvesBy id msg (some ok) = send-EvolvesBy (to_store id msg ok)

      pub store-EvolvesBy : (id : ℤ) (msg : Bytes) → EvolvesBy (store world lib id msg)
      unfolding store
      store-EvolvesBy id msg =
          bind-EvolvesBy (in_world-EvolvesBy (insert_message lib sql id msg))
            (noted-EvolvesBy id msg)

      pub or_throw-EvolvesBy : {A : Type 0} (o : Option A) → EvolvesBy (or_throw world lib o)
      or_throw-EvolvesBy none = record { along = Evolves-refl P }
      or_throw-EvolvesBy (some a) = give-EvolvesBy a

      pub get_int-EvolvesBy : (js : Json) (k : Bytes) → EvolvesBy (get_int world lib js k)
      unfolding get_int
      get_int-EvolvesBy js k =
          bind-EvolvesBy (or_throw-EvolvesBy (find js k)) (λ x. or_throw-EvolvesBy (as_int x))

      pub get_string-EvolvesBy : (js : Json) (k : Bytes) → EvolvesBy (get_string world lib js k)
      unfolding get_string
      get_string-EvolvesBy js k =
          bind-EvolvesBy (or_throw-EvolvesBy (find js k)) (λ x. or_throw-EvolvesBy (as_string x))

      pub set_field-EvolvesBy : (k : Bytes) (v js : Json) → EvolvesBy (set_field world lib k v js)
      set_field-EvolvesBy k v js = or_throw-EvolvesBy (set js k v)

      pub respond-EvolvesBy : (conn : ℕ) (js : Json) → EvolvesBy (respond world lib conn js)
      unfolding respond
      respond-EvolvesBy conn js =
          bind-EvolvesBy (or_throw-EvolvesBy (dump js)) (λ t. send_with_header-EvolvesBy conn t)
