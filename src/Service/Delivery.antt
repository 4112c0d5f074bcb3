-- ===== src/Service/Delivery.antt =====
-- src/server/chatservice.cpp: the ways that a message can take to one user.
use cluster_chatroom_project.Prelude.{
  ℕ, ◌≡◌, refl, ◌⊎◌, inl, inr, Bool, true, some, none, List, [], ◌∷◌, ◌++◌, Bytes, codes, same,
  Bool-cases, Option-cases, append-nil, sym, ap, false, if◌then◌else◌,
}
use cluster_chatroom_project.Prelude.Int.{ℤ, pos}
use cluster_chatroom_project.Conversation.Decimal.{to_string}
use cluster_chatroom_project.Database.{User}
use cluster_chatroom_project.Json.{JsonLib}
use cluster_chatroom_project.Frame.{encode}
use cluster_chatroom_project.Effect.{Thrown, Result, done, thrown}
use cluster_chatroom_project.Redis.{publish}
use cluster_chatroom_project.Database.Users.{query_user}
use cluster_chatroom_project.Database.Offline.{insert_message, columns_of}
use cluster_chatroom_project.Service.{
  World, Machine, Sent, to_connection, to_channel, to_store, find_conn, send_with_header,
  publish_to, store,
}
use cluster_chatroom_project.Service.Chat.{
  publish_or_store, forward, deliver_to, handle_redis_subscribe_message,
}

pub Result-cases :
    {A : Type 0} (r : Result A) → ((e : Thrown) × (r ≡ thrown e)) ⊎ ((a : A) × (r ≡ done a))
Result-cases (done a) = inr (a, refl)
Result-cases (thrown e) = inl (e, refl)

-- From world `w`, the things that `P` says were sent, and no connection came or went.
abbrev pub MovesFrom :
    {W : Type 0} → (W → List Sent → W → Type 0) → W → Machine W → Machine W → Type 0
MovesFrom P w m m' =
    (xs : List Sent) × (m'.sent ≡ m.sent ++ xs) × (m'.conns ≡ m.conns) × P w xs m'.world

abbrev pub Moves :
    {W : Type 0} → (W → List Sent → W → Type 0) → Machine W → Machine W × Result Unit → Type 0
Moves P m r = (r.1 ≡ done tt) × MovesFrom P m.world m r.0

module _ (world : World) (lib : JsonLib) where
  open world use {sql, is_connected, publish_reply}
  open sql use {State, get_connection, execute_update}

  abbrev insert_text : Bytes
  insert_text = codes "insert into OfflineMessage(userid,convid,seq,message) values(?,?,?,?)"

  -- The offline store: without a connection to MySQL the message is lost; with one, MySQL is asked
  -- for a row with the user, the message and its conversation and number.
  abbrev pub Stores : ℤ → Bytes → State → List Sent → State → Type 0
  Stores id msg w xs w' =
      ((get_connection w ≡ (w', false)) × (xs ≡ []))
      ⊎ ((v : State) × (ok : Bool) × (get_connection w ≡ (v, true))
          × (execute_update insert_text
                (to_string id
                  ∷ (columns_of lib msg).0
                  ∷ to_string (pos (columns_of lib msg).1)
                  ∷ msg
                  ∷ [])
                v
              ≡ (w', ok))
          × (xs ≡ to_store id msg ok ∷ []))

  -- A connection of this node: one frame, if the connection is up.
  abbrev pub Writes : ℕ → Bytes → State → List Sent → State → Type 0
  Writes c payload w xs w' =
      (w' ≡ w) × (xs ≡ (if is_connected c w then to_connection c (encode payload) ∷ [] else []))

  -- A user of another node: by Redis where the database has the user online and Redis replies, and
  -- otherwise by the offline store.
  abbrev pub Leaves : ℤ → Bytes → State → List Sent → State → Type 0
  Leaves id payload w xs w' =
      (v : State) × (user : User) × (query_user sql id w ≡ (v, done user))
      × (((same user.state (codes "online") ≡ true)
            × (publish (publish_reply id payload v).1 ≡ true)
            × (xs ≡ to_channel id payload ∷ [])
            × (w' ≡ (publish_reply id payload v).0))
          ⊎ (((same user.state (codes "online") ≡ true)
                × (publish (publish_reply id payload v).1 ≡ false)
                × Stores id payload (publish_reply id payload v).0 xs w')
              ⊎ ((same user.state (codes "online") ≡ false) × Stores id payload v xs w')))

  -- The way that a message takes to user `id`, by the table's entry for the user.
  abbrev pub Way : List (ℤ × ℕ) → ℤ → Bytes → State → List Sent → State → Type 0
  Way conns id payload w xs w' =
      ((c : ℕ) × (find_conn id conns ≡ some c) × Writes c payload w xs w')
      ⊎ ((find_conn id conns ≡ none) × Leaves id payload w xs w')

  -- The database throws when it is asked for the user, and nothing is sent; or the message takes
  -- the way `P`.
  abbrev pub Once :
      (State → List Sent → State → Type 0)
      → ℤ
      → Machine State
      → Machine State × Result Unit
      → Type 0
  Once P id m r =
      ((e : Thrown) × ((query_user sql id m.world).1 ≡ thrown e)
        × (r.1 ≡ thrown e)
        × (r.0.sent ≡ m.sent)
        × (r.0.conns ≡ m.conns))
      ⊎ Moves P m r

  store-Stores :
      (id : ℤ) (msg : Bytes) (m : Machine State)
      → Moves (Stores id msg) m (store world lib id msg m)
  unfolding store insert_message
  store-Stores id msg m = elim (Bool-cases (get_connection m.world).1) [
    | inl e ↦
        rw e (
          refl,
          (_, refl, refl, inr (_, _, ap (λ b. ((get_connection m.world).0, b)) e, refl, refl)),
        )
    | inr e ↦ rw e (
      refl,
      ([], sym (append-nil m.sent), refl, inl (ap (λ b. ((get_connection m.world).0, b)) e, refl)),
    )
  ]

  pub send_with_header-Writes :
      (c : ℕ) (payload : Bytes) (m : Machine State)
      → Moves (Writes c payload) m (send_with_header world c payload m)
  unfolding send_with_header
  send_with_header-Writes c payload m = elim (Bool-cases (is_connected c m.world)) [
    | inl e ↦ rw e (refl, (_, refl, refl, (refl, refl)))
    | inr e ↦ rw e (refl, ([], sym (append-nil m.sent), refl, (refl, refl)))
  ]

  pub forward-Leaves :
      (id : ℤ) (payload : Bytes) (m : Machine State)
      → Once (Leaves id payload) id m (forward world lib id payload m)
  unfolding forward publish_or_store publish_to
  forward-Leaves id payload m =
      let q = query_user sql id m.world in
      let after : Machine State = record m { world = q.0 } in
      elim (Result-cases q.1) [
        | inl (e, t) ↦ rw t (inl (e, refl, refl, refl, refl))
        | inr (user, d) ↦ elim (Bool-cases (same user.state (codes "online"))) [
          | inr off ↦
              let (t, (xs, s, c, w)) = store-Stores id payload after in
              rw (d, off) (inr (t, (xs, s, c, (_, user, refl, inr (inr (off, w))))))
          | inl on ↦
              let p = publish_reply id payload q.0 in
              elim (Bool-cases (publish p.1)) [
                | inl y ↦
                    rw (d, on, y)
                      (inr (refl, (_, refl, refl, (_, user, refl, inl (on, y, refl, refl)))))
                | inr n ↦
                    let (t, (xs, s, c, w)) =
                      store-Stores id payload (record after { world = p.0 }) in
                    rw (d, on, n) (inr (t, (xs, s, c, (_, user, refl, inr (inl (on, n, w))))))
              ]
        ]
      ]

  -- What `onechat` does with a numbered message.
  pub deliver_to-Way :
      (id : ℤ) (payload : Bytes) (m : Machine State)
      → Once (Way m.conns id payload) id m (deliver_to world lib id payload m)
  unfolding deliver_to
  deliver_to-Way id payload m = elim (Option-cases (find_conn id m.conns)) [
    | inl n ↦ elim (forward-Leaves id payload m) [
      | inl x ↦ rw (n, deliver_to) (inl x)
      | inr (t, (xs, s, c, w)) ↦ rw (n, deliver_to) (inr (t, (xs, s, c, inr (refl, w))))
    ]
    | inr (c, f) ↦
        let (t, (xs, s, k, w)) = send_with_header-Writes c payload m in
        rw (f, deliver_to) (inr (t, (xs, s, k, inl (c, refl, w))))
  ]

  -- The ways of a message from another node.
  abbrev pub Arrives : List (ℤ × ℕ) → ℤ → Bytes → State → List Sent → State → Type 0
  Arrives conns id msg w xs w' =
      ((c : ℕ) × (find_conn id conns ≡ some c) × Writes c msg w xs w')
      ⊎ ((find_conn id conns ≡ none) × Stores id msg w xs w')

  -- A message from another node never ends in an exception. If the table has a connection for the
  -- user, the message is written to it as one frame, and nothing is sent if the connection is
  -- down. If the table has none, MySQL is asked to insert the message as it is, for that user and
  -- with the conversation and the number that it names, and nothing else is sent; without a
  -- connection to MySQL nothing is sent, and the message is lost.
  pub handle_redis_subscribe_message-Arrives :
      (id : ℤ) (msg : Bytes) (m : Machine State)
      → Moves (Arrives m.conns id msg) m (handle_redis_subscribe_message world lib id msg m)
  unfolding handle_redis_subscribe_message
  handle_redis_subscribe_message-Arrives id msg m = elim (Option-cases (find_conn id m.conns)) [
    | inl n ↦
        let (t, (xs, s, c, w)) = store-Stores id msg m in
        rw (n, handle_redis_subscribe_message) (t, (xs, s, c, inr (refl, w)))
    | inr (c, f) ↦
        let (t, (xs, s, k, w)) = send_with_header-Writes c msg m in
        rw (f, handle_redis_subscribe_message) (t, (xs, s, k, inl (c, refl, w)))
  ]
