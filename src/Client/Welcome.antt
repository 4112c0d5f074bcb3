-- ===== src/Client/Welcome.antt =====
-- A login: from the response of src/server/chatservice.cpp to the menu of src/client/main.cpp.
pub mod Fields
pub mod Parts
pub mod Written
pub mod Returns
use mathlib.Core.Option.{some-injective}
use cluster_chatroom_project.Prelude.{
  ℕ, ◌≡◌, refl, sym, ap, subst, ◌∙◌, Bool, true, false, Option, some, none, List, [], ◌∷◌, ◌++◌,
  map, Bytes, codes, if◌then◌else◌, ◌>>=◌, bind-eq-some, arith, Bool-cases, inl, inr,
}
use cluster_chatroom_project.Prelude.Int.{ℤ, pos}
use cluster_chatroom_project.Json.{JsonLib}
use cluster_chatroom_project.Effect.{done}
use cluster_chatroom_project.Frame.{encode}
use cluster_chatroom_project.Database.{User, GroupUser, Group}
use cluster_chatroom_project.Database.Users.{query_friends}
use cluster_chatroom_project.Database.Groups.{query_groups}
use cluster_chatroom_project.Database.Offline.{query_messages}
use cluster_chatroom_project.Service.{World, Machine, to_connection, send_with_header}
use cluster_chatroom_project.Service.Sorting.{sort_offline_messages}
use cluster_chatroom_project.Service.Accounts.Login.{welcome}
use cluster_chatroom_project.Orderer.Conversations.{Orderer}
use cluster_chatroom_project.Client.{Client}
use cluster_chatroom_project.Client.Login.{
  Answer, entered, take_login, enter, texts_or, read_friend, read_group, read_each, timed, parsed,
  show_batch, take_offline,
}
use cluster_chatroom_project.Client.Lists.Read.{
  public_user, public_group, int_field-of_int, text_field-of_string,
}
use cluster_chatroom_project.Client.Welcome.Fields.{texts_field, offline_field}
use cluster_chatroom_project.Client.Welcome.Parts.{Welcomed, welcome-Welcomed}

-- A list that came replaces the old one; none comes for an empty one.
abbrev pub replaced : {A : Type 0} → List A → List A → List A
replaced [] old = old
replaced (x ∷ xs) old = x ∷ xs

module _ (lib : JsonLib) where
  open lib use {Json, find}

  texts_or-read :
      {A : Type 0} (read : Bytes → Option A) (old : List A) (texts : List Bytes) (xs : List A)
      → read_each lib read texts ≡ some xs
      → texts_or lib read old (texts_field lib texts) ≡ some (replaced xs old)
  unfolding texts_or read_each
  texts_or-read read old [] xs e =
      subst (λ ys. some old ≡ some (replaced ys old)) (some-injective _ _ e) refl
  texts_or-read read old (t ∷ ts) xs e =
      let (y, a, b) = bind-eq-some (read t) _ e in
      let (ys, c, d) = bind-eq-some (read_each lib read ts) _ b in
      subst (λ zs. texts_or lib read old (texts_field lib (t ∷ ts)) ≡ some (replaced zs old))
        (some-injective _ _ d) (rw (lib.as_strings-of_strings (t ∷ ts), a, c) refl)

  -- What the orderer makes of the stored messages, which the server has sorted.
  abbrev pub batch : (ℕ → ℕ) → ℕ → List Bytes → Orderer Json → Option (Orderer Json × List Json)
  batch clock now [] o = some (o, [])
  batch clock now (t ∷ ts) o =
      show_batch lib now (timed lib clock (parsed lib (sort_offline_messages lib (t ∷ ts)))) o

  take_offline-batch :
      (clock : ℕ → ℕ) (now : ℕ) (messages : List Bytes) (o : Orderer Json)
      → take_offline lib clock now (offline_field lib messages) o ≡ batch clock now messages o
  unfolding take_offline
  take_offline-batch clock now [] o = refl
  take_offline-batch clock now (t ∷ ts) o =
      rw (lib.as_strings-of_strings (sort_offline_messages lib (t ∷ ts))) refl

module _ (world : World) (lib : JsonLib) where
  open world use {sql, is_connected}
  open lib use {Json, find, dump}

  take_login-Welcomed :
      (conn : ℕ) (user : User) (m m' : Machine sql.State) (w : Welcomed world lib conn user m m')
      (clock : ℕ → ℕ) (now : ℕ) (c : Client Json)
      → take_login lib clock now w.rest.rest.rest.body c ≡ (
          batch lib clock now w.rest.messages c.orderer >>= λ r. some (
            entered
              (record c {
                user = record c.user { id = user.id; name = user.name; state = codes "online" };
                friends = replaced (map public_user w.rest.rest.friends) c.friends;
                groups = replaced (map public_group w.rest.rest.rest.groups) c.groups;
                orderer = r.0;
                running = true;
              })
              r.1))
  unfolding take_login enter
  take_login-Welcomed conn user m m' w clock now c =
      let o = w.rest in
      let f = o.rest in
      let g = f.rest in
      let js = g.response in
      rw
        (
          lib.parse-dump js g.body g.dumped,
          int_field-of_int lib js (codes "errno") (pos 0) (
              g.kept (codes "errno") refl
              ∙ f.kept (codes "errno") refl
              ∙ o.kept (codes "errno") refl
              ∙ w.errno),
          int_field-of_int lib js (codes "id") user.id (
              g.kept (codes "id") refl
              ∙ f.kept (codes "id") refl
              ∙ o.kept (codes "id") refl
              ∙ w.id),
          text_field-of_string lib js (codes "name") user.name (
              g.kept (codes "name") refl
              ∙ f.kept (codes "name") refl
              ∙ o.kept (codes "name") refl
              ∙ w.name),
          g.kept (codes "friends") refl ∙ f.field,
          texts_or-read lib (read_friend lib) c.friends f.texts (map public_user f.friends) f.read,
          g.field,
          texts_or-read lib (read_group lib) c.groups g.texts (map public_group g.groups) g.read,
          g.kept (codes "offlinemsg") refl ∙ f.kept (codes "offlinemsg") refl ∙ o.field,
          take_offline-batch lib clock now o.messages c.orderer,
        )
        refl

  -- What the server has written, and what the client has made of it.
  abbrev pub Enters :
      ℕ → User → Machine sql.State → Machine sql.State → (ℕ → ℕ) → ℕ → Client Json → Type 0
  Enters conn user m m' clock now c =
      (body : Bytes) × (messages : List Bytes) × (friends : List User) × (groups : List Group)
      × ((s : sql.State) × (t : sql.State) × (query_messages lib sql user.id s
            ≡ (t, done messages)))
      × ((s : sql.State) × (t : sql.State) × (query_friends sql user.id s ≡ (t, done friends)))
      × ((s : sql.State) × (t : sql.State) × (query_groups sql user.id s ≡ (t, done groups)))
      × (m'.sent ≡ (
          if is_connected conn m'.world
          then m.sent ++ to_connection conn (encode body) ∷ []
          else m.sent))
      × (take_login lib clock now body c ≡ (
          batch lib clock now messages c.orderer >>= λ r. some (
            entered
              (record c {
                user = record c.user { id = user.id; name = user.name; state = codes "online" };
                friends = replaced (map public_user friends) c.friends;
                groups = replaced (map public_group groups) c.groups;
                orderer = r.0;
                running = true;
              })
              r.1)))

  -- What one writing of a response adds to what was sent.
  abbrev AddsFrame : ℕ → Bytes → Machine sql.State → Machine sql.State → Type 0
  AddsFrame conn body n m' = m'.sent ≡ (
      if is_connected conn m'.world
      then n.sent ++ to_connection conn (encode body) ∷ []
      else n.sent)

  send_with_header-AddsFrame :
      (conn : ℕ) (body : Bytes) (n m' : Machine sql.State)
      → send_with_header world conn body n ≡ (m', done tt)
      → AddsFrame conn body n m'
  unfolding send_with_header
  send_with_header-AddsFrame conn body n m' e = elim (Bool-cases (is_connected conn n.world)) [
    | inl y ↦
        let h : record n { sent = n.sent ++ to_connection conn (encode body) ∷ [] } ≡ m' =
          ground arith in
        subst (AddsFrame conn body n) h (rw y refl)
    | inr z ↦ let h : n ≡ m' = ground arith in subst (AddsFrame conn body n) h (rw z refl)
  ]

  -- When the branch of `login` that lets a user in returns, any client enters with what it sent.
  pub welcome-Enters :
      (conn : ℕ) (user : User) (m m' : Machine sql.State) (clock : ℕ → ℕ) (now : ℕ)
      (c : Client Json)
      → welcome world lib conn user m ≡ (m', done tt)
      → Enters conn user m m' clock now c
  welcome-Enters conn user m m' clock now c e =
      let w = welcome-Welcomed world lib conn user m m' e in
      let o = w.rest in
      let f = o.rest in
      let g = f.rest in
      (
        g.body,
        o.messages,
        f.friends,
        g.groups,
        (o.before.world, o.after.world, o.asked),
        (f.before.world, f.after.world, f.asked),
        (g.before.world, g.after.world, g.asked),
        subst
            (λ sent. m'.sent ≡ (
              if is_connected conn m'.world
              then sent ++ to_connection conn (encode g.body) ∷ []
              else sent))
            (g.quiet ∙ f.quiet ∙ o.quiet ∙ w.quiet)
            (send_with_header-AddsFrame conn g.body g.last m' g.written),
        take_login-Welcomed conn user m m' w clock now c,
      )
