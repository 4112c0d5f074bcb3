-- ===== src/Client/Welcome/Returns.antt =====
-- src/server/chatservice.cpp, the successful branch of `login`: when it throws nothing.
use cluster_chatroom_project.Service.Sorted.{sort_offline_messages-All}
use cluster_chatroom_project.Prelude.{
  true, All, ℕ, ◌≡◌, refl, ap, ◌∙◌, Bool, false, some, List, [], ◌∷◌, ◌++◌, Bytes, codes, same_refl,
  Option-cases, Bool-cases, inl, inr, if◌then◌else◌, ◌>>=◌,
}
use cluster_chatroom_project.Prelude.Int.{ℤ, pos}
use cluster_chatroom_project.Json.{JsonLib}
use cluster_chatroom_project.Effect.{Program, Result, done}
use cluster_chatroom_project.Database.{connected, User, Group}
use cluster_chatroom_project.Database.Users.{update_state, query_friends}
use cluster_chatroom_project.Database.Groups.{query_groups}
use cluster_chatroom_project.Database.Offline.{query_messages, remove_messages}
use cluster_chatroom_project.Frame.{encode}
use cluster_chatroom_project.Service.{
  World, to_connection, Machine, set_field, respond, subscribe, send_with_header,
}
use cluster_chatroom_project.Service.Sorting.{sort_offline_messages}
use cluster_chatroom_project.Service.Accounts.Login as Server
use cluster_chatroom_project.Client.{object}
use cluster_chatroom_project.Client.Lists.{
  user_fields, group_of, friend_text-object, group_text-object, each-each_of,
}
use cluster_chatroom_project.Service.Accounts.Parts.{
  send_groups, send_friends, send_offline, send_response,
}
use cluster_chatroom_project.Client.Welcome.Written.{
  is_ascii, Written, nothing, int, text, texts, field, Dumps, Answers, UserTexts, GroupTexts,
  each_of_total, user_dump, group_dump,
}

module _ (world : World) (lib : JsonLib) (T : Bytes → Type 0) (dumps : Dumps lib T) where
  open world use {sql}
  open lib use {Json, dump, find, set, of_int, of_string, of_strings}

  -- A value that contains something and can be written.
  abbrev HasField : Json → Type 0
  HasField js = Written lib T js × ((i : Bytes) × (x : Json) × (find js i ≡ some x))

  -- A call that gives such a value, or that gives anything.
  abbrev Gives : Machine sql.State × Result Json → Type 0
  Gives r = (m : Machine sql.State) × (j : Json) × (r ≡ (m, done j)) × HasField j

  abbrev Ends : Machine sql.State × Result Unit → Type 0
  Ends r = (m : Machine sql.State) × (r ≡ (m, done tt))

  set_field-Gives :
      (k : Bytes) (v js : Json) (m : Machine sql.State)
      → is_ascii k ≡ true
      → Written lib T v
      → HasField js
      → Gives (set_field world lib k v js m)
  set_field-Gives k v js m a w (wj, (i, x, h)) = elim (Option-cases (set js k v)) [
    | inl e ↦ absurd (lib.set_object js x v i k h e)
    | inr (j, e) ↦ (
      m,
      j,
      rw e refl,
      (
        field js v j k wj a w e,
        (k, v, lib.find-set js j v k k e ∙ ap (λ b. if b then some v else find js k) (same_refl k)),
      ),
    )
  ]

  set_texts-Gives :
      (k : Bytes) (ts : List Bytes) (js : Json) (m : Machine sql.State)
      → is_ascii k ≡ true
      → All T ts
      → HasField js
      → Gives (Server.set_texts world lib k ts js m)
  unfolding Server.set_texts
  set_texts-Gives k [] js m a w h = (m, js, refl, h)
  set_texts-Gives k (t ∷ ts) js m a w h =
      set_field-Gives k (of_strings (t ∷ ts)) js m a (texts (t ∷ ts) w) h

  send_with_header-Ends :
      (conn : ℕ) (body : Bytes) (m : Machine sql.State) → Ends (send_with_header world conn body m)
  unfolding send_with_header
  send_with_header-Ends conn body m = elim (Bool-cases (world.is_connected conn m.world)) [
    | inl e ↦ rw e (record m { sent = m.sent ++ to_connection conn (encode body) ∷ [] }, refl)
    | inr e ↦ rw e (m, refl)
  ]

  send_groups-Ends :
      (conn : ℕ) (user : User) (js : Json) (m : Machine sql.State)
      → Answers sql.State (List Group) (All (GroupTexts T)) (query_groups sql user.id)
      → HasField js
      → Ends (send_groups world lib conn user js m)
  unfolding respond
  send_groups-Ends conn user js m q h =
      let (w, groups, a, clean) = q m.world in
      let n : Machine sql.State = record m { world = w } in
      let (list, t, u) =
        each_of_total (group_of lib) T (GroupTexts T) groups (group_dump lib T dumps) clean in
      let b =
        each-each_of world lib (Server.group_text world lib) (group_of lib) groups n
          (group_text-object world lib) in
      let (n', j, c, f) = set_texts-Gives (codes "groups") list js n refl u h in
      let (body, d, _) = dumps j f.0 in
      let (last, e) = send_with_header-Ends conn body n' in (last, rw (a, b, t, c, d) e)

  send_friends-Ends :
      (conn : ℕ) (user : User) (js : Json) (m : Machine sql.State)
      → Answers sql.State (List User) (All (UserTexts T)) (query_friends sql user.id)
      → Answers sql.State (List Group) (All (GroupTexts T)) (query_groups sql user.id)
      → HasField js
      → Ends (send_friends world lib conn user js m)
  send_friends-Ends conn user js m q r h =
      let (w, friends, a, clean) = q m.world in
      let n : Machine sql.State = record m { world = w } in
      let write = λ (u : User). object lib (user_fields lib u) >>= dump in
      let (list, t, u) =
        each_of_total write T (UserTexts T) friends (user_dump lib T dumps) clean in
      let b =
        each-each_of world lib (Server.friend_text world lib) write friends n
          (friend_text-object world lib) in
      let (n', j, c, f) = set_texts-Gives (codes "friends") list js n refl u h in
      let (last, e) = send_groups-Ends conn user j n' r f in (last, rw (a, b, t, c) e)

  connected-Answers :
      (rest : Program sql.State Bool)
      → Answers sql.State Bool (λ b. Unit) rest
      → Answers sql.State Bool (λ b. Unit) (connected sql false rest)
  connected-Answers rest h s = elim (Bool-cases (sql.get_connection s).1) [
    | inl e ↦ rw e (h (sql.get_connection s).0)
    | inr e ↦ rw e ((sql.get_connection s).0, false, refl, tt)
  ]

  remove_messages-Answers :
      (id : ℤ) → Answers sql.State Bool (λ b. Unit) (remove_messages lib sql id)
  unfolding remove_messages
  remove_messages-Answers id = connected-Answers _ (λ s. (_, _, refl, tt))

  update_state-Answers : (user : User) → Answers sql.State Bool (λ b. Unit) (update_state sql user)
  unfolding update_state
  update_state-Answers user = connected-Answers _ (λ s. (_, _, refl, tt))

  take_offline-Gives :
      (id : ℤ) (messages : List Bytes) (js : Json) (m : Machine sql.State)
      → All T messages
      → HasField js
      → Gives (Server.take_offline world lib id js messages m)
  unfolding Server.take_offline
  take_offline-Gives id [] js m clean h = (m, js, refl, h)
  take_offline-Gives id (t ∷ ts) js m clean h =
      let (n, j, c, f) =
        set_field-Gives (codes "offlinemsg") (of_strings (sort_offline_messages lib (t ∷ ts))) js m
          refl (texts _ (sort_offline_messages-All lib T (t ∷ ts) clean)) h in
      let (w, ok, a, _) = remove_messages-Answers id n.world in
      (record n { world = w }, j, rw (c, a) refl, f)

  send_offline-Ends :
      (conn : ℕ) (user : User) (js : Json) (m : Machine sql.State)
      → Answers sql.State (List Bytes) (All T) (query_messages lib sql user.id)
      → Answers sql.State (List User) (All (UserTexts T)) (query_friends sql user.id)
      → Answers sql.State (List Group) (All (GroupTexts T)) (query_groups sql user.id)
      → HasField js
      → Ends (send_offline world lib conn user js m)
  send_offline-Ends conn user js m p q r h =
      let (w, messages, a, clean) = p m.world in
      let n : Machine sql.State = record m { world = w } in
      let (n', j, c, f) = take_offline-Gives user.id messages js n clean h in
      let (last, e) = send_friends-Ends conn user j n' q r f in (last, rw (a, c) e)

  acknowledge-Gives : (m : Machine sql.State) → Gives (Server.acknowledge world lib (pos 0) m)
  unfolding Server.acknowledge
  acknowledge-Gives m = elim (Option-cases (set lib.null (codes "msgid") (of_int (pos 2)))) [
    | inl e ↦ absurd (lib.set-null (codes "msgid") (of_int (pos 2)) e)
    | inr (j, e) ↦
        let own = lib.find-set lib.null j (of_int (pos 2)) (codes "msgid") (codes "msgid") e in
        let made = field lib.null (of_int (pos 2)) j (codes "msgid") nothing refl (int (pos 2)) e in
        rw e (
          set_field-Gives (codes "errno") (of_int (pos 0)) j m refl (int (pos 0))
            (made, (codes "msgid", of_int (pos 2), own)))
  ]

  send_response-Ends :
      (conn : ℕ) (user : User) (m : Machine sql.State)
      → Answers sql.State (List Bytes) (All T) (query_messages lib sql user.id)
      → Answers sql.State (List User) (All (UserTexts T)) (query_friends sql user.id)
      → Answers sql.State (List Group) (All (GroupTexts T)) (query_groups sql user.id)
      → T user.name
      → Ends (send_response world lib conn user m)
  send_response-Ends conn user m p q r name =
      let (n1, j1, a1, f1) = acknowledge-Gives m in
      let (n2, j2, a2, f2) =
        set_field-Gives (codes "id") (of_int user.id) j1 n1 refl (int user.id) f1 in
      let (n3, j3, a3, f3) =
        set_field-Gives (codes "name") (of_string user.name) j2 n2 refl (text user.name name) f2 in
      let (last, e) = send_offline-Ends conn user j3 n3 p q r f3 in (last, rw (a1, a2, a3) e)

  pub welcome-Ends :
      (conn : ℕ) (user : User) (m : Machine sql.State)
      → Answers sql.State (List Bytes) (All T) (query_messages lib sql user.id)
      → Answers sql.State (List User) (All (UserTexts T)) (query_friends sql user.id)
      → Answers sql.State (List Group) (All (GroupTexts T)) (query_groups sql user.id)
      → T user.name
      → Ends (Server.welcome world lib conn user m)
  unfolding Server.welcome subscribe
  welcome-Ends conn user m p q r name =
      let s = (world.subscribe_writes user.id m.world).0 in
      let (w, ok, a, _) = update_state-Answers (record user { state = codes "online" }) s in
      let n0 : Machine sql.State = (Server.record_conn world lib user.id conn m).0 in
      let (last, e) = send_response-Ends conn user (record n0 { world = w }) p q r name in
      (last, rw a e)
