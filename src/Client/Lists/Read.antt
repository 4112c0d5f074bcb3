-- ===== src/Client/Lists/Read.antt =====
-- src/client/main.cpp reads the friends and groups that src/server/chatservice.cpp writes.
use mathlib.Core.Option.{some-injective}
use cluster_chatroom_project.Prelude.{
  ◌≡◌, refl, sym, subst, ◌∙◌, Option, some, none, List, [], ◌∷◌, map, Bytes, codes, ◌>>=◌,
  bind-eq-some,
}
use cluster_chatroom_project.Prelude.Int.{ℤ}
use cluster_chatroom_project.Json.{JsonLib}
use cluster_chatroom_project.Effect.{done, each}
use cluster_chatroom_project.Database.{User, no_user, GroupUser, Group}
use cluster_chatroom_project.Service.{World, Machine, or_throw}
use cluster_chatroom_project.Service.Accounts.Login.{friend_text, group_text}
use cluster_chatroom_project.Client.{object, assign}
use cluster_chatroom_project.Client.Object.{object-find, assign-find}
use cluster_chatroom_project.Client.Receive.{int_field, text_field}
use cluster_chatroom_project.Client.Login.{
  read_friend, read_member, read_group, read_each, texts_or,
}
use cluster_chatroom_project.Client.Lists.{
  user_fields, member_fields, group_fields, member_of, group_of, each_of, friend_text-object,
  group_text-object, each-each_of,
}

-- What the client is told of a user, a member and a group.
abbrev pub public_user : User → User
public_user u = record no_user { id = u.id; name = u.name; state = u.state }

abbrev pub public_member : GroupUser → GroupUser
public_member u = record { user = public_user u.user; role = u.role }

abbrev pub public_group : Group → Group
public_group g = record g { users = map public_member g.users }

module _ (lib : JsonLib) where
  open lib use {Json, dump, find, set, of_int, of_string, of_strings}

  pub int_field-of_int :
      (j : Json) (k : Bytes) (z : ℤ) → find j k ≡ some (of_int z) → int_field lib j k ≡ some z
  int_field-of_int j k z h = rw (h, lib.as_int-of_int z) refl

  pub text_field-of_string :
      (j : Json) (k t : Bytes) → find j k ≡ some (of_string t) → text_field lib j k ≡ some t
  text_field-of_string j k t h = rw (h, lib.as_string-of_string t) refl

  friend_of-read :
      (u : User) (t : Bytes)
      → (object lib (user_fields lib u) >>= dump) ≡ some t
      → read_friend lib t ≡ some (public_user u)
  unfolding read_friend
  friend_of-read u t e =
      let (j, o, d) = bind-eq-some (object lib (user_fields lib u)) dump e in
      let got : (i : Bytes) → _ = λ i. object-find lib (user_fields lib u) j i o in
      rw
        (
          lib.parse-dump j t d,
          int_field-of_int j (codes "id") u.id (got (codes "id")),
          text_field-of_string j (codes "name") u.name (got (codes "name")),
          text_field-of_string j (codes "state") u.state (got (codes "state")),
        )
        refl

  member_of-read :
      (u : GroupUser) (t : Bytes)
      → member_of lib u ≡ some t
      → read_member lib t ≡ some (public_member u)
  unfolding read_member
  member_of-read u t e =
      let (j, o, d) = bind-eq-some (object lib (member_fields lib u)) dump e in
      let got : (i : Bytes) → _ = λ i. object-find lib (member_fields lib u) j i o in
      rw
        (
          lib.parse-dump j t d,
          int_field-of_int j (codes "id") u.user.id (got (codes "id")),
          text_field-of_string j (codes "name") u.user.name (got (codes "name")),
          text_field-of_string j (codes "state") u.user.state (got (codes "state")),
          text_field-of_string j (codes "role") u.role (got (codes "role")),
        )
        refl

  each_of-read :
      {A : Type 0} (write : A → Option Bytes) (read : Bytes → Option A) (f : A → A) (xs : List A)
      (ts : List Bytes)
      → ((x : A) (t : Bytes) → write x ≡ some t → read t ≡ some (f x))
      → each_of write xs ≡ some ts
      → read_each lib read ts ≡ some (map f xs)
  unfolding read_each
  each_of-read write read f [] ts h e =
      subst (λ us. read_each lib read us ≡ some []) (some-injective _ _ e) refl
  each_of-read write read f (x ∷ xs) ts h e =
      let (t, a, b) = bind-eq-some (write x) _ e in
      let (us, c, d) = bind-eq-some (each_of write xs) _ b in
      subst (λ vs. read_each lib read vs ≡ some (f x ∷ map f xs)) (some-injective _ _ d)
        (rw (h x t a, each_of-read write read f xs us h c) refl)

  group_of-read :
      (g : Group) (t : Bytes) → group_of lib g ≡ some t → read_group lib t ≡ some (public_group g)
  unfolding read_group texts_or
  group_of-read g t e =
      let (j, o, x) = bind-eq-some (object lib (group_fields lib g)) _ e in
      let (us, u, y) = bind-eq-some (each_of (member_of lib) g.users) _ x in
      let (k, a, d) = bind-eq-some (assign lib j ((codes "users", of_strings us) ∷ [])) dump y in
      let got : (i : Bytes) → _ =
        λ i. assign-find lib j k ((codes "users", of_strings us) ∷ []) i a in
      let old : (i : Bytes) → _ = λ i. object-find lib (group_fields lib g) j i o in
      rw
        (
          lib.parse-dump k t d,
          int_field-of_int k (codes "id") g.id (got (codes "id") ∙ old (codes "id")),
          text_field-of_string k (codes "groupname") g.name
              (got (codes "groupname") ∙ old (codes "groupname")),
          text_field-of_string k (codes "groupdesc") g.desc
              (got (codes "groupdesc") ∙ old (codes "groupdesc")),
          got (codes "users"),
          lib.as_strings-of_strings us,
          each_of-read (member_of lib) (read_member lib) public_member g.users us member_of-read u,
        )
        refl

module _ (world : World) (lib : JsonLib) where
  open world use {sql}

  pub or_throw-gives :
      {A : Type 0} (o : Option A) (m m' : Machine sql.State) (a : A)
      → or_throw world lib o m ≡ (m', done a)
      → (o ≡ some a) × (m' ≡ m)
  or_throw-gives none m m' a e = cc
  or_throw-gives (some b) m m' a e = (cc, cc)

  pub friends-read :
      (friends : List User) (texts : List Bytes) (m m' : Machine sql.State)
      → each (friend_text world lib) friends m ≡ (m', done texts)
      → (read_each lib (read_friend lib) texts ≡ some (map public_user friends)) × (m' ≡ m)
  friends-read friends texts m m' e =
      let (o, x) =
        or_throw-gives (each_of (λ u. object lib (user_fields lib u) >>= lib.dump) friends) m m'
          texts
          (sym (
              each-each_of world lib (friend_text world lib)
                (λ u. object lib (user_fields lib u) >>= lib.dump) friends m
                (friend_text-object world lib))
            ∙ e) in
      (
        each_of-read lib (λ u. object lib (user_fields lib u) >>= lib.dump) (read_friend lib)
            public_user friends texts (friend_of-read lib) o,
        x,
      )

  pub groups-read :
      (groups : List Group) (texts : List Bytes) (m m' : Machine sql.State)
      → each (group_text world lib) groups m ≡ (m', done texts)
      → (read_each lib (read_group lib) texts ≡ some (map public_group groups)) × (m' ≡ m)
  groups-read groups texts m m' e =
      let (o, x) = or_throw-gives (each_of (group_of lib) groups) m m' texts (
        sym (
          each-each_of world lib (group_text world lib) (group_of lib) groups m
            (group_text-object world lib))
        ∙ e) in
      (
        each_of-read lib (group_of lib) (read_group lib) public_group groups texts
            (group_of-read lib) o,
        x,
      )
