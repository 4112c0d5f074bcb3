-- ===== src/Client/Welcome/Parts.antt =====
-- src/server/chatservice.cpp, the successful branch of `login`: the response, call by call.
use cluster_chatroom_project.Prelude.{
  ℕ, ◌≡◌, refl, ap, ◌∙◌, false, some, none, List, map, Bytes, codes, same,
}
use cluster_chatroom_project.Prelude.Int.{ℤ, pos}
use cluster_chatroom_project.Json.{JsonLib}
use cluster_chatroom_project.Effect.{done, each, go_on-done}
use cluster_chatroom_project.Database.{User, Group}
use cluster_chatroom_project.Database.Users.{update_state, query_friends}
use cluster_chatroom_project.Database.Groups.{query_groups}
use cluster_chatroom_project.Database.Offline.{query_messages}
use cluster_chatroom_project.Service.{
  World, Machine, in_world, or_throw, set_field, respond, subscribe, send_with_header,
}
use cluster_chatroom_project.Service.Accounts.Login as Server
use cluster_chatroom_project.Service.Accounts.Parts.{
  send_groups, send_friends, send_offline, send_response,
}
use cluster_chatroom_project.Client.Login.{read_friend, read_group, read_each}
use cluster_chatroom_project.Client.Lists.Read.{
  public_user, public_group, friends-read, or_throw-gives, groups-read,
}
use cluster_chatroom_project.Client.Welcome.Fields.{
  texts_field, offline_field, set_field-done, set_texts-done, take_offline-done, subscribe-sent,
  in_world-sent, acknowledge-done,
}

module _ (world : World) (lib : JsonLib) where
  open world use {sql}
  open lib use {Json, dump, find, set, of_int, of_string, of_strings}

  -- Each part done, on what the message was before it.
  pub record GroupsSent (conn : ℕ) (id : ℤ) (m m' : Machine sql.State) (j : Json) : Type 0 where
    pub before : Machine sql.State
    pub after : Machine sql.State
    pub groups : List Group
    pub asked : query_groups sql id before.world ≡ (after.world, done groups)
    pub texts : List Bytes
    pub read : read_each lib (read_group lib) texts ≡ some (map public_group groups)
    pub response : Json
    pub field : find response (codes "groups") ≡ texts_field lib texts
    pub kept : (i : Bytes) → same (codes "groups") i ≡ false → find response i ≡ find j i
    pub body : Bytes
    pub dumped : dump response ≡ some body
    pub last : Machine sql.State
    pub written : send_with_header world conn body last ≡ (m', done tt)
    pub quiet : last.sent ≡ m.sent

  send_groups-GroupsSent :
      (conn : ℕ) (user : User) (j : Json) (m m' : Machine sql.State)
      → send_groups world lib conn user j m ≡ (m', done tt)
      → find j (codes "groups") ≡ none
      → GroupsSent conn user.id m m' j
  unfolding respond
  send_groups-GroupsSent conn user j m m' e h =
      let (n1, groups, e1, r1) = go_on-done (in_world world (query_groups sql user.id) m) _ e in
      let (n2, texts, e2, r2) = go_on-done (each (Server.group_text world lib) groups n1) _ r1 in
      let (n3, js, e3, r3) =
        go_on-done (Server.set_texts world lib (codes "groups") texts j n2) _ r2 in
      let (n4, body, e4, r4) = go_on-done (or_throw world lib (dump js) n3) _ r3 in
      let (a, b) = groups-read world lib groups texts n1 n2 e2 in
      let (c, d, f) = set_texts-done world lib (codes "groups") texts j js n2 n3 e3 h in
      let (g, k) = or_throw-gives world lib (dump js) n3 n4 body e4 in
      record {
        before = m;
        after = n1;
        groups = groups;
        asked = ap (λ r. (r.0.world, r.1)) e1;
        texts = texts;
        read = a;
        response = js;
        field = c;
        kept = d;
        body = body;
        dumped = g;
        last = n4;
        written = r4;
        quiet =
            ap Machine.sent k
            ∙ f
            ∙ ap Machine.sent b
            ∙ in_world-sent world lib (query_groups sql user.id) m n1 groups e1;
      }

  pub record FriendsSent (conn : ℕ) (id : ℤ) (m m' : Machine sql.State) (j : Json) : Type 0 where
    pub before : Machine sql.State
    pub after : Machine sql.State
    pub friends : List User
    pub asked : query_friends sql id before.world ≡ (after.world, done friends)
    pub texts : List Bytes
    pub read : read_each lib (read_friend lib) texts ≡ some (map public_user friends)
    pub next : Json
    pub field : find next (codes "friends") ≡ texts_field lib texts
    pub kept : (i : Bytes) → same (codes "friends") i ≡ false → find next i ≡ find j i
    pub between : Machine sql.State
    pub rest : GroupsSent conn id between m' next
    pub quiet : between.sent ≡ m.sent

  send_friends-FriendsSent :
      (conn : ℕ) (user : User) (j : Json) (m m' : Machine sql.State)
      → send_friends world lib conn user j m ≡ (m', done tt)
      → find j (codes "friends") ≡ none
      → find j (codes "groups") ≡ none
      → FriendsSent conn user.id m m' j
  send_friends-FriendsSent conn user j m m' e h h' =
      let (n1, friends, e1, r1) = go_on-done (in_world world (query_friends sql user.id) m) _ e in
      let (n2, texts, e2, r2) = go_on-done (each (Server.friend_text world lib) friends n1) _ r1 in
      let (n3, js, e3, r3) =
        go_on-done (Server.set_texts world lib (codes "friends") texts j n2) _ r2 in
      let (a, b) = friends-read world lib friends texts n1 n2 e2 in
      let (c, d, f) = set_texts-done world lib (codes "friends") texts j js n2 n3 e3 h in
      record {
        before = m;
        after = n1;
        friends = friends;
        asked = ap (λ r. (r.0.world, r.1)) e1;
        texts = texts;
        read = a;
        next = js;
        field = c;
        kept = d;
        between = n3;
        rest = send_groups-GroupsSent conn user js n3 m' r3 (d (codes "groups") refl ∙ h');
        quiet =
            f
            ∙ ap Machine.sent b
            ∙ in_world-sent world lib (query_friends sql user.id) m n1 friends e1;
      }

  pub record OfflineSent (conn : ℕ) (id : ℤ) (m m' : Machine sql.State) (j : Json) : Type 0 where
    pub before : Machine sql.State
    pub after : Machine sql.State
    pub messages : List Bytes
    pub asked : query_messages lib sql id before.world ≡ (after.world, done messages)
    pub next : Json
    pub field : find next (codes "offlinemsg") ≡ offline_field lib messages
    pub kept : (i : Bytes) → same (codes "offlinemsg") i ≡ false → find next i ≡ find j i
    pub between : Machine sql.State
    pub rest : FriendsSent conn id between m' next
    pub quiet : between.sent ≡ m.sent

  send_offline-OfflineSent :
      (conn : ℕ) (user : User) (j : Json) (m m' : Machine sql.State)
      → send_offline world lib conn user j m ≡ (m', done tt)
      → find j (codes "offlinemsg") ≡ none
      → find j (codes "friends") ≡ none
      → find j (codes "groups") ≡ none
      → OfflineSent conn user.id m m' j
  send_offline-OfflineSent conn user j m m' e h h' h'' =
      let (n1, messages, e1, r1) =
        go_on-done (in_world world (query_messages lib sql user.id) m) _ e in
      let (n2, js, e2, r2) =
        go_on-done (Server.take_offline world lib user.id j messages n1) _ r1 in
      let (c, d, f) = take_offline-done world lib user.id messages j js n1 n2 e2 h in
      record {
        before = m;
        after = n1;
        messages = messages;
        asked = ap (λ r. (r.0.world, r.1)) e1;
        next = js;
        field = c;
        kept = d;
        between = n2;
        rest =
            send_friends-FriendsSent conn user js n2 m' r2 (d (codes "friends") refl ∙ h')
              (d (codes "groups") refl ∙ h'');
        quiet = f ∙ in_world-sent world lib (query_messages lib sql user.id) m n1 messages e1;
      }

  pub record Welcomed (conn : ℕ) (user : User) (m m' : Machine sql.State) : Type 0 where
    pub named : Json
    pub errno : find named (codes "errno") ≡ some (of_int (pos 0))
    pub id : find named (codes "id") ≡ some (of_int user.id)
    pub name : find named (codes "name") ≡ some (of_string user.name)
    pub between : Machine sql.State
    pub rest : OfflineSent conn user.id between m' named
    pub quiet : between.sent ≡ m.sent

  send_response-Welcomed :
      (conn : ℕ) (user : User) (m m' : Machine sql.State)
      → send_response world lib conn user m ≡ (m', done tt)
      → Welcomed conn user m m'
  send_response-Welcomed conn user m m' e =
      let (n1, j1, e1, r1) = go_on-done (Server.acknowledge world lib (pos 0) m) _ e in
      let (n2, j2, e2, r2) =
        go_on-done (set_field world lib (codes "id") (of_int user.id) j1 n1) _ r1 in
      let (n3, j3, e3, r3) =
        go_on-done (set_field world lib (codes "name") (of_string user.name) j2 n2) _ r2 in
      let (a, b, c) = acknowledge-done world lib m n1 j1 e1 in
      let (a', b', c') = set_field-done world lib (codes "id") (of_int user.id) j1 j2 n1 n2 e2 in
      let (a'', b'', c'') =
        set_field-done world lib (codes "name") (of_string user.name) j2 j3 n2 n3 e3 in
      let new : (i : Bytes)
          → same (codes "name") i ≡ false
          → same (codes "id") i ≡ false
          → same (codes "msgid") i ≡ false
          → same (codes "errno") i ≡ false
          → find j3 i ≡ none =
        λ i x y z w. b'' i x ∙ b' i y ∙ b i z w in
      record {
        named = j3;
        errno = b'' (codes "errno") refl ∙ b' (codes "errno") refl ∙ a;
        id = b'' (codes "id") refl ∙ a';
        name = a'';
        between = n3;
        rest =
            send_offline-OfflineSent conn user j3 n3 m' r3
              (new (codes "offlinemsg") refl refl refl refl)
              (new (codes "friends") refl refl refl refl)
              (new (codes "groups") refl refl refl refl);
        quiet = c'' ∙ c' ∙ c;
      }

  pub welcome-Welcomed :
      (conn : ℕ) (user : User) (m m' : Machine sql.State)
      → Server.welcome world lib conn user m ≡ (m', done tt)
      → Welcomed conn user m m'
  unfolding Server.welcome
  welcome-Welcomed conn user m m' e =
      let n0 : Machine sql.State = (Server.record_conn world lib user.id conn m).0 in
      let online = update_state sql (record user { state = codes "online" }) in
      let (n1, u, e1, r1) = go_on-done (subscribe world user.id n0) _ e in
      let (n2, v, e2, r2) = go_on-done (in_world world online n1) _ r1 in
      let w = send_response-Welcomed conn user n2 m' r2 in
      record {
        named = w.named;
        errno = w.errno;
        id = w.id;
        name = w.name;
        between = w.between;
        rest = w.rest;
        quiet =
            w.quiet
            ∙ in_world-sent world lib online n1 n2 v e2
            ∙ subscribe-sent world lib user.id n0 n1 u e1;
      }
