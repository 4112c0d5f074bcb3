-- ===== src/Service/Numbering.antt =====
-- src/server/chatservice.cpp: what `onechat` sends, from the message to what leaves the node.
use cluster_chatroom_project.Prelude.{
  ℕ, ◌/◌, ◌<◌, ◌^◌, arith, ◌≡◌, refl, ap, subst, ◌∙◌, ◌⊎◌, inl, inr, false, ◌&&◌, none, some, ◌++◌,
  Bytes, codes, same, Option-cases, Bool-cases, if◌then◌else◌,
}
use cluster_chatroom_project.Prelude.Int.{ℤ, pos}
use cluster_chatroom_project.Json.{JsonLib}
use cluster_chatroom_project.Redis.{Reply, other, incr_seq}
use cluster_chatroom_project.Redis.Sequence.{incr_seq-lt}
use cluster_chatroom_project.Database.Offline.{columns_of, text_or_empty, number_or_zero}
use cluster_chatroom_project.Database.Users.{query_user}
use cluster_chatroom_project.Conversation.{p2p}
use cluster_chatroom_project.Effect.{Thrown, json_exception, Result, done, thrown}
use cluster_chatroom_project.Service.{World, Machine, next_seq, get_int}
use cluster_chatroom_project.Service.Chat.{number_message, deliver_to, onechat}
use cluster_chatroom_project.Service.Delivery.{MovesFrom, Way, deliver_to-Way}

-- Nothing was sent, and no connection came or went.
abbrev pub Quiet : {W : Type 0} → Machine W → Machine W → Type 0
Quiet m m' = (m'.sent ≡ m.sent) × (m'.conns ≡ m.conns)

module _ (world : World) (lib : JsonLib) where
  open world use {sql, incr}

  -- INCR is sent for the conversation if there is a context and Redis is taken to be there: the
  -- world after it, and the reply.
  abbrev pub asked : Bytes → Machine sql.State → sql.State × Reply
  asked conv m =
      if m.redis.command_context && m.redis.redis_available
      then incr conv m.world
      else (m.world, other)

  open lib use {Json, find, set, dump, of_string, of_unsigned, of_int, find-set}

  -- The text of a message that has the conversation's name, and the number that `incrSeq` gives on
  -- the reply to the conversation's INCR; of its other fields, all but the time are those that it came with.
  pub record Numbered (conv : Bytes) (m : Machine sql.State) (js : Json) (payload : Bytes)
      : Type 0 where
    pub message : Json
    pub number : ℕ
    pub text : dump message ≡ some payload
    pub named : find message (codes "convid") ≡ some (of_string conv)
    pub numbered : find message (codes "seq") ≡ some (of_unsigned number)
    pub given : number ≡ (incr_seq conv (asked conv m).1 m.redis).1
    pub row : columns_of lib payload ≡ (conv, number)
    pub kept :
        (k : Bytes)
        → same (codes "convid") k ≡ false
        → same (codes "seq") k ≡ false
        → same (codes "msgts") k ≡ false
        → find message k ≡ find js k

  -- The number, and the world afterwards.
  abbrev Gives : Bytes → Machine sql.State → Machine sql.State × Result ℕ → Type 0
  Gives conv m r =
      (r.1 ≡ done (incr_seq conv (asked conv m).1 m.redis).1)
      × Quiet m r.0
      × (r.0.world ≡ (asked conv m).0)

  next_seq-Gives : (conv : Bytes) (m : Machine sql.State) → Gives conv m (next_seq world conv m)
  unfolding next_seq
  next_seq-Gives conv m = elim (Bool-cases (m.redis.command_context && m.redis.redis_available)) [
    | inl e ↦ rw e (refl, (refl, refl), refl)
    | inr e ↦ rw e (refl, (refl, refl), refl)
  ]

  columns_of-message :
      (message : Json) (conv payload : Bytes) (n : ℕ)
      → dump message ≡ some payload
      → find message (codes "convid") ≡ some (of_string conv)
      → find message (codes "seq") ≡ some (of_unsigned n)
      → n < 2 ^ 64
      → columns_of lib payload ≡ (conv, n)
  unfolding columns_of
  columns_of-message message conv payload n d c s l =
      rw
        (
          lib.parse-dump message payload d,
          c,
          s,
          lib.as_string-of_string conv,
          lib.as_unsigned-of_unsigned n l,
          columns_of,
          text_or_empty,
          number_or_zero,
        )
        refl

  pub fields-Numbered :
      (conv payload : Bytes) (time n : ℕ) (m : Machine sql.State) (js j1 j2 j3 : Json)
      → n ≡ (incr_seq conv (asked conv m).1 m.redis).1
      → set js (codes "convid") (of_string conv) ≡ some j1
      → set j1 (codes "seq") (of_unsigned n) ≡ some j2
      → set j2 (codes "msgts") (of_int (pos (time / 1000))) ≡ some j3
      → dump j3 ≡ some payload
      → Numbered conv m js payload
  fields-Numbered conv payload time n m js j1 j2 j3 g e1 e2 e3 d =
      let f1 = λ (k : Bytes). find-set js j1 (of_string conv) (codes "convid") k e1 in
      let f2 = λ (k : Bytes). find-set j1 j2 (of_unsigned n) (codes "seq") k e2 in
      let f3 = λ (k : Bytes). find-set j2 j3 (of_int (pos (time / 1000))) (codes "msgts") k e3 in
      let named = f3 (codes "convid") ∙ f2 (codes "convid") ∙ f1 (codes "convid") in
      let numbered = f3 (codes "seq") ∙ f2 (codes "seq") in
      record {
        message = j3;
        number = n;
        text = d;
        named = named;
        numbered = numbered;
        row =
            columns_of-message j3 conv payload n d named numbered
              (omega (arith, g, incr_seq-lt conv (asked conv m).1 m.redis));
        given = g;
        kept = λ k a b c.
            f3 k
            ∙ ap (λ i. if i then some (of_int (pos (time / 1000))) else find j2 k) c
            ∙ f2 k
            ∙ ap (λ i. if i then some (of_unsigned n) else find j1 k) b
            ∙ f1 k
            ∙ ap (λ i. if i then some (of_string conv) else find js k) a;
      }

  -- The numbered message cannot be written.
  abbrev pub Unwritten : Bytes → ℕ → Json → Machine sql.State → Type 0
  Unwritten conv time js m =
      (j1 j2 j3 : Json) × (set js (codes "convid") (of_string conv) ≡ some j1)
      × (set j1 (codes "seq") (of_unsigned (incr_seq conv (asked conv m).1 m.redis).1) ≡ some j2)
      × (set j2 (codes "msgts") (of_int (pos (time / 1000))) ≡ some j3)
      × (dump j3 ≡ none)

  -- The two ends of `number_message`.
  abbrev pub Numbers :
      Bytes → ℕ → Json → Machine sql.State → Machine sql.State × Result Bytes → Type 0
  Numbers conv time js m r =
      ((r.1 ≡ thrown json_exception) × Quiet m r.0 × Unwritten conv time js m)
      ⊎ ((payload : Bytes) × (r.1 ≡ done payload)
          × Quiet m r.0
          × (r.0.world ≡ (asked conv m).0)
          × Numbered conv m js payload)

  pub number_message-Numbers :
      (conv : Bytes) (time : ℕ) (js x : Json) (k : Bytes) (m : Machine sql.State)
      → find js k ≡ some x
      → Numbers conv time js m (number_message world lib conv time js m)
  unfolding number_message
  number_message-Numbers conv time js x k m h =
      let (e, q, v) = next_seq-Gives conv m in
      let n = (incr_seq conv (asked conv m).1 m.redis).1 in
      elim (Option-cases (set js (codes "convid") (of_string conv))) [
        | inl o ↦ absurd (lib.set_object js x (of_string conv) k (codes "convid") h o)
        | inr (j1, e1) ↦ elim (Option-cases (set j1 (codes "seq") (of_unsigned n))) [
          | inl o ↦ absurd (
              lib.set_object j1 _ (of_unsigned n) (codes "convid") (codes "seq")
                (find-set js j1 (of_string conv) (codes "convid") (codes "convid") e1) o)
          | inr (j2, e2) ↦
              elim (Option-cases (set j2 (codes "msgts") (of_int (pos (time / 1000))))) [
                | inl o ↦ absurd (
                    lib.set_object j2 _ (of_int (pos (time / 1000))) (codes "seq") (codes "msgts")
                      (find-set j1 j2 (of_unsigned n) (codes "seq") (codes "seq") e2) o)
                | inr (j3, e3) ↦ elim (Option-cases (dump j3)) [
                  | inl o ↦ rw (e, e1, e2, e3, o) (inl (refl, q, (j1, j2, j3, refl, e2, e3, o)))
                  | inr (payload, d) ↦
                      rw (e, e1, e2, e3, d)
                        (inr (
                          payload,
                          refl,
                          q,
                          v,
                          fields-Numbered conv payload time n m js j1 j2 j3 refl e1 e2 e3 d,
                        ))
                ]
              ]
        ]
      ]

  pub get_int-cases :
      (js : Json) (k : Bytes) (m : Machine sql.State)
      → (get_int world lib js k m ≡ (m, thrown json_exception))
        ⊎ ((z : ℤ) × (get_int world lib js k m ≡ (m, done z)) × ((x : Json) × (find js k ≡ some x)))
  unfolding get_int
  get_int-cases js k m = elim (Option-cases (find js k)) [
    | inl x ↦ inl (rw x refl)
    | inr (f, e) ↦ elim (Option-cases (lib.as_int f)) [
      | inl x ↦ inl (rw (e, x) refl)
      | inr (z, y) ↦ inr (z, rw (e, y) refl, (f, e))
    ]
  ]

  -- Why a private message is not sent: its sender or its recipient is no number, the numbered message
  -- cannot be written, or the database throws when it is asked for a recipient without a connection.
  abbrev pub Fails : ℕ → Json → Machine sql.State → Thrown → Type 0
  Fails time js m e =
      (get_int world lib js (codes "id") m ≡ (m, thrown e))
      ⊎ ((get_int world lib js (codes "toid") m ≡ (m, thrown e))
          ⊎ ((fromid toid : ℤ) × (get_int world lib js (codes "id") m ≡ (m, done fromid))
              × (get_int world lib js (codes "toid") m ≡ (m, done toid))
              × (Unwritten (p2p fromid toid) time js m
                  ⊎ ((query_user sql toid (asked (p2p fromid toid) m).0).1 ≡ thrown e))))

  -- What came of a private message: nothing was sent and an exception is on its way; or the
  -- numbered message has taken a way to the user that the message names.
  abbrev pub Chats : ℕ → Json → Machine sql.State → Machine sql.State × Result Unit → Type 0
  Chats time js m r =
      ((e : Thrown) × (r.1 ≡ thrown e) × Quiet m r.0 × Fails time js m e)
      ⊎ ((fromid toid : ℤ) × (payload : Bytes) × (get_int world lib js (codes "id") m
            ≡ (m, done fromid))
          × (get_int world lib js (codes "toid") m ≡ (m, done toid))
          × (r.1 ≡ done tt)
          × Numbered (p2p fromid toid) m js payload
          × MovesFrom (Way world lib m.conns toid payload) (asked (p2p fromid toid) m).0 m r.0)

  -- For a private message, either an exception is on its way, nothing was sent and the table of
  -- connections is as it was, and the reason is that the sender or the recipient is no number,
  -- that the numbered message cannot be written, or that the database throws when it is asked for
  -- the recipient; or the message, with the conversation's name, the number that `incrSeq` gives
  -- on the reply to the INCR of that conversation, and all its other fields but for the time as
  -- they came, has taken one way to the user that it names, and nothing else was sent: a frame to
  -- the user's connection, if the table has one, unless it is down; a PUBLISH that Redis replied
  -- to, if the database has the user online; or, offline or without that reply, a row with the
  -- message that MySQL was asked to insert, unless there was no connection to it.
  pub onechat-Chats :
      (time : ℕ) (js : Json) (m : Machine sql.State) → Chats time js m (onechat world lib time js m)
  unfolding onechat
  onechat-Chats time js m = elim (get_int-cases js (codes "id") m) [
    | inl x ↦ rw x (inl (json_exception, refl, (refl, refl), inl refl))
    | inr (f, x, (o, h)) ↦ elim (get_int-cases js (codes "toid") m) [
      | inl y ↦ rw (x, y) (inl (json_exception, refl, (refl, refl), inr (inl refl)))
      | inr (t, y, g) ↦ elim (number_message-Numbers (p2p f t) time js o (codes "id") m h) [
        | inl (z, q, u) ↦
            rw (x, y, z) (inl (json_exception, refl, q, inr (inr (f, t, refl, refl, inl u))))
        | inr (payload, z, q, v, nb) ↦
            let n = (number_message world lib (p2p f t) time js m).0 in
            elim (deliver_to-Way world lib t payload n) [
              | inl (e, l, w, s, c) ↦
                  let l' = subst (λ w. (query_user sql t w).1 ≡ thrown e) v l in
                  rw (x, y, z, w)
                    (inl (e, refl, (s ∙ q.0, c ∙ q.1), inr (inr (f, t, refl, refl, inr l'))))
              | inr (w, (xs, s, c, way)) ↦
                  let r = (deliver_to world lib t payload n).0 in
                  let sent = s ∙ ap (λ l. l ++ xs) q.0 in
                  let there = subst (λ l. Way world lib l t payload n.world xs r.world) q.1 way in
                  let from = subst (λ w. Way world lib m.conns t payload w xs r.world) v there in
                  rw (x, y, z, w)
                    (inr (f, t, payload, refl, refl, refl, nb, (xs, sent, c ∙ q.1, from)))
            ]
      ]
    ]
  ]
