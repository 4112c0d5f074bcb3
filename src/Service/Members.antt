-- ===== src/Service/Members.antt =====
-- src/server/chatservice.cpp, `groupchat`: who of a group gets a message, and how.
use mathlib.Core.List.{Perm}
use mathlib.Core.List.Perm
use mathlib.Core.List as List
use cluster_chatroom_project.Prelude.{
  ℕ, ◌≡◌, refl, sym, ap, ◌∙◌, ◌⊎◌, inl, inr, some, none, List, [], ◌∷◌, ◌++◌, append_assoc,
  append-nil, Bytes, Option-cases,
}
use cluster_chatroom_project.Prelude.Int.{ℤ}
use cluster_chatroom_project.Json.{JsonLib}
use cluster_chatroom_project.Effect.{Thrown, Result, done, thrown}
use cluster_chatroom_project.Database.Users.{query_user}
use cluster_chatroom_project.Service.{World, Machine, Sent, find_conn, send_with_header}
use cluster_chatroom_project.Service.Chat.{partition, send_all, forward, forward_all, deliver_all}
use cluster_chatroom_project.Service.Delivery.{
  MovesFrom, Way, forward-Leaves, send_with_header-Writes,
}

-- The members that have a connection to this node, and those that have none.
abbrev pub here : List (ℤ × ℕ) → List ℤ → List ℤ
here conns [] = []
here conns (id ∷ ids) = elim (find_conn id conns) [
  | some c ↦ id ∷ here conns ids
  | none ↦ here conns ids
]

abbrev pub elsewhere : List (ℤ × ℕ) → List ℤ → List ℤ
elsewhere conns [] = []
elsewhere conns (id ∷ ids) = elim (find_conn id conns) [
  | some c ↦ elsewhere conns ids
  | none ↦ id ∷ elsewhere conns ids
]

here-elsewhere :
    (conns : List (ℤ × ℕ)) (ids : List ℤ) → Perm (here conns ids ++ elsewhere conns ids) ids
here-elsewhere conns [] = Perm.refl []
here-elsewhere conns (id ∷ ids) = elim (Option-cases (find_conn id conns)) [
  | inl n ↦
      rw (n, here, elsewhere)
        (Perm.trans (List.perm_middle (here conns ids) (elsewhere conns ids))
          (Perm.cons id (here-elsewhere conns ids)))
  | inr (c, f) ↦ rw (f, here, elsewhere) (Perm.cons id (here-elsewhere conns ids))
]

module _ (world : World) (lib : JsonLib) (conns : List (ℤ × ℕ)) (payload : Bytes) where
  open world use {sql}

  -- The message takes a way to each of the users in turn, each from the world that the one before
  -- has left.
  abbrev pub Each : List ℤ → sql.State → List Sent → sql.State → Type 0
  Each [] w xs w' = (xs ≡ []) × (w' ≡ w)
  Each (id ∷ ids) w xs w' =
      (ys zs : List Sent) × (v : sql.State) × (xs ≡ ys ++ zs)
      × Way world lib conns id payload w ys v
      × Each ids v zs w'

  -- By the loop that ended in `r`.
  abbrev pub SendsEach : List ℤ → Machine sql.State → Machine sql.State × Result Unit → Type 0
  SendsEach ids m r =
      (r.1 ≡ done tt)
      × ((xs : List Sent) × (r.0.sent ≡ m.sent ++ xs) × Each ids m.world xs r.0.world)

  Each-append :
      (is js : List ℤ) (u v w : sql.State) (xs ys : List Sent)
      → Each is u xs v
      → Each js v ys w
      → Each (is ++ js) u (xs ++ ys) w
  Each-append [] js u v w xs ys (e, f) b = rw (e, sym f) b
  Each-append (i ∷ is) js u v w xs bs (ys, zs, x, e, way, a) b = (
    ys,
    zs ++ bs,
    x,
    ap (λ l. l ++ bs) e ∙ append_assoc ys zs bs,
    way,
    Each-append is js x v w zs bs a b,
  )

  -- One more in front of the others.
  SendsEach-cons :
      (id : ℤ) (ids : List ℤ) (m m' : Machine sql.State) (r : Machine sql.State × Result Unit)
      → MovesFrom (Way world lib conns id payload) m.world m m'
      → SendsEach ids m' r
      → SendsEach (id ∷ ids) m r
  SendsEach-cons id ids m m' r (ys, s, c, w) (d, (xs, t, e)) = (
    d,
    (ys ++ xs, t ∙ ap (λ l. l ++ xs) s ∙ append_assoc m.sent ys xs, (ys, xs, m'.world, refl, w, e)),
  )

  send_all-Each :
      (ids : List ℤ) (m : Machine sql.State)
      → SendsEach
          (here conns ids)
          m
          (send_all world lib (partition world lib conns ids).0 payload m)
  unfolding send_all partition
  send_all-Each [] m = (refl, ([], sym (append-nil m.sent), (refl, refl)))
  send_all-Each (id ∷ ids) m = elim (Option-cases (find_conn id conns)) [
    | inl n ↦ rw (n, here, partition) (send_all-Each ids m)
    | inr (c, f) ↦
        let (d, (xs, s, k, w)) = send_with_header-Writes world lib c payload m in
        let n = (send_with_header world c payload m).0 in
        let way : MovesFrom (Way world lib conns id payload) m.world m n =
          (xs, s, k, inl (c, f, w)) in
        rw (f, here, partition, d)
          (SendsEach-cons id (here conns ids) m n
            (send_all world lib (partition world lib conns ids).0 payload n) way
            (send_all-Each ids n))
  ]

  -- The database throws when it is asked for a user.
  abbrev pub Throws : Thrown → Type 0
  Throws e = (id : ℤ) × (w : sql.State) × ((query_user sql id w).1 ≡ thrown e)

  forward_all-Each :
      (ids : List ℤ) (m : Machine sql.State)
      → let r = forward_all world lib (partition world lib conns ids).1 payload m in
        ((e : Thrown) × (r.1 ≡ thrown e) × Throws e) ⊎ SendsEach (elsewhere conns ids) m r
  unfolding forward_all partition
  forward_all-Each [] m = inr (refl, ([], sym (append-nil m.sent), (refl, refl)))
  forward_all-Each (id ∷ ids) m = elim (Option-cases (find_conn id conns)) [
    | inr (c, f) ↦ rw (f, elsewhere, partition) (forward_all-Each ids m)
    | inl n ↦
        let m' = (forward world lib id payload m).0 in
        elim (forward-Leaves world lib id payload m) [
          | inl (e, l, t, s, c) ↦ rw (n, elsewhere, partition, t) (inl (e, refl, (id, m.world, l)))
          | inr (d, (xs, s, c, w)) ↦
              let way : MovesFrom (Way world lib conns id payload) m.world m m' =
                (xs, s, c, inr (n, w)) in
              elim (forward_all-Each ids m') [
                | inl (e, t, x) ↦ rw (n, elsewhere, partition, d) (inl (e, t, x))
                | inr each ↦
                    rw (n, elsewhere, partition, d)
                      (inr (
                        SendsEach-cons id (elsewhere conns ids) m m'
                          (forward_all world lib (partition world lib conns ids).1 payload m') way
                          each))
              ]
        ]
  ]

module _ (world : World) (lib : JsonLib) where
  -- `groupchat` delivers to a list of members, unless an exception is on its way, by a way to each
  -- of them, in some order of the members.
  pub deliver_all-Each :
      (ids : List ℤ) (payload : Bytes) (m : Machine world.sql.State)
      → let r = deliver_all world lib ids payload m in
        ((e : Thrown) × (r.1 ≡ thrown e) × Throws world lib m.conns payload e)
        ⊎ ((order : List ℤ) × Perm order ids × SendsEach world lib m.conns payload order m r)
  unfolding deliver_all
  deliver_all-Each ids payload m =
      let (d, (xs, s, e)) = send_all-Each world lib m.conns payload ids m in
      let m' = (send_all world lib (partition world lib m.conns ids).0 payload m).0 in
      let last = (forward_all world lib (partition world lib m.conns ids).1 payload m').0.world in
      let order = here m.conns ids ++ elsewhere m.conns ids in
      elim (forward_all-Each world lib m.conns payload ids m') [
        | inl (x, t, y) ↦ rw d (inl (x, t, y))
        | inr (t, (ys, q, f)) ↦ rw d (
            inr (
              order,
              here-elsewhere m.conns ids,
              (
                t,
                (
                  xs ++ ys,
                  q ∙ ap (λ l. l ++ ys) s ∙ append_assoc m.sent xs ys,
                  Each-append world lib m.conns payload (here m.conns ids) (elsewhere m.conns ids)
                      m.world m'.world last xs ys e f,
                ),
              ),
            ))
      ]
