-- ===== src/Service/GroupMessage.antt =====
-- src/server/chatservice.cpp: `groupchat` from the message to what leaves the node.
use mathlib.Core.List.{Perm}
use cluster_chatroom_project.Prelude.{
  ℕ, [], ◌≡◌, refl, ap, subst, ◌∙◌, ◌⊎◌, inl, inr, List, ◌++◌, Bytes, codes,
}
use cluster_chatroom_project.Prelude.Int.{ℤ}
use cluster_chatroom_project.Json.{JsonLib}
use cluster_chatroom_project.Conversation.{group}
use cluster_chatroom_project.Effect.{Thrown, json_exception, Result, done, thrown}
use cluster_chatroom_project.Database.Groups.{query_group_users}
use cluster_chatroom_project.Service.{World, Machine, Sent, get_int}
use cluster_chatroom_project.Service.Chat.{number_message, deliver_all, groupchat}
use cluster_chatroom_project.Service.Delivery.{Result-cases}
use cluster_chatroom_project.Service.Numbering.{
  asked, Unwritten, Numbered, number_message-Numbers, get_int-cases,
}
use cluster_chatroom_project.Service.Members.{Throws, Each, SendsEach, deliver_all-Each}

module _ (world : World) (lib : JsonLib) where
  open world use {sql}

  -- Why a handler ends in an exception: the sender or the group is no number, the numbered message
  -- cannot be written, or the database throws when it is asked for the members or for a user.
  abbrev pub FailsFor : ℕ → lib.Json → Machine sql.State → Thrown → Type 0
  FailsFor time js m e =
      (get_int world lib js (codes "id") m ≡ (m, thrown e))
      ⊎ ((get_int world lib js (codes "groupid") m ≡ (m, thrown e))
          ⊎ ((userid groupid : ℤ) × (get_int world lib js (codes "id") m ≡ (m, done userid))
              × (get_int world lib js (codes "groupid") m ≡ (m, done groupid))
              × (Unwritten world lib (group groupid) time js m
                  ⊎ (((query_group_users sql userid groupid (asked world lib (group groupid) m).0).1
                        ≡ thrown e)
                      ⊎ Throws world lib m.conns [] e))))

  -- What came of a group message: an exception is on its way; or the numbered message has taken a
  -- way to each of the members that the database gave when it was asked after the numbering.
  abbrev pub Broadcasts :
      ℕ → lib.Json → Machine sql.State → Machine sql.State × Result Unit → Type 0
  Broadcasts time js m r =
      ((e : Thrown) × (r.1 ≡ thrown e) × FailsFor time js m e)
      ⊎ ((userid groupid : ℤ) × (payload : Bytes) × (v : sql.State) × (ids order : List ℤ)
          × (xs : List Sent) × (get_int world lib js (codes "id") m ≡ (m, done userid))
          × (get_int world lib js (codes "groupid") m ≡ (m, done groupid))
          × Numbered world lib (group groupid) m js payload
          × (query_group_users sql userid groupid (asked world lib (group groupid) m).0
              ≡ (v, done ids))
          × Perm order ids
          × (r.1 ≡ done tt)
          × (r.0.sent ≡ m.sent ++ xs)
          × Each world lib m.conns payload order v xs r.0.world)

  -- `groupchat` ends in an exception, for one of the reasons of `FailsFor`; or the message, with the group
  -- conversation's name, the number that `incrSeq` gives on the reply to the INCR of that
  -- conversation, and all its other fields but for the time as they came, has taken a way to each of
  -- the members that the database gave, in some order of them, and nothing else was sent.
  pub groupchat-Broadcasts :
      (time : ℕ) (js : lib.Json) (m : Machine sql.State)
      → Broadcasts time js m (groupchat world lib time js m)
  unfolding groupchat
  groupchat-Broadcasts time js m = elim (get_int-cases world lib js (codes "id") m) [
    | inl x ↦ rw x (inl (json_exception, refl, inl refl))
    | inr (f, x, (o, h)) ↦ elim (get_int-cases world lib js (codes "groupid") m) [
      | inl y ↦ rw (x, y) (inl (json_exception, refl, inr (inl refl)))
      | inr (g, y, _) ↦
          elim (number_message-Numbers world lib (group g) time js o (codes "id") m h) [
            | inl (z, q, u) ↦
                rw (x, y, z) (inl (json_exception, refl, inr (inr (f, g, refl, refl, inl u))))
            | inr (payload, z, q, v, nb) ↦
                let n = (number_message world lib (group g) time js m).0 in
                let found = query_group_users sql f g n.world in
                let n' : Machine sql.State = record n { world = found.0 } in
                elim (Result-cases found.1) [
                  | inl (e, t) ↦
                      let t' = subst (λ w. (query_group_users sql f g w).1 ≡ thrown e) v t in
                      rw (x, y, z, t) (inl (e, refl, inr (inr (f, g, refl, refl, inr (inl t')))))
                  | inr (ids, t) ↦ elim (deliver_all-Each world lib ids payload n') [
                    | inl (e, d, o) ↦
                        rw (x, y, z, t) (inl (e, d, inr (inr (f, g, refl, refl, inr (inr o)))))
                    | inr (order, p, sends) ↦
                        let r = deliver_all world lib ids payload n' in
                        let (d, (xs, s, each)) =
                          subst (λ l. SendsEach world lib l payload order n' r) q.1 sends in
                        let given : found ≡ (found.0, done ids) = ap (λ b. (found.0, b)) t in
                        let from =
                          subst (λ w. query_group_users sql f g w ≡ (found.0, done ids)) v given in
                        rw (x, y, z, t)
                          (inr (
                            f,
                            g,
                            payload,
                            found.0,
                            ids,
                            order,
                            xs,
                            refl,
                            refl,
                            nb,
                            from,
                            p,
                            d,
                            s ∙ ap (λ l. l ++ xs) q.0,
                            each,
                          ))
                  ]
                ]
          ]
    ]
  ]
