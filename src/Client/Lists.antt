-- ===== src/Client/Lists.antt =====
-- The friends and groups of a login: src/server/chatservice.cpp writes them, and
-- src/client/main.cpp reads them.
pub mod Read
use mathlib.Core.Option.{some-injective}
use cluster_chatroom_project.Prelude.{
  ℕ, ◌≡◌, refl, sym, ap, subst, ◌∙◌, Option, some, none, List, [], ◌∷◌, map, Bytes, codes, ◌>>=◌,
  bind-eq-some,
}
use cluster_chatroom_project.Prelude.Int.{ℤ}
use cluster_chatroom_project.Json.{JsonLib}
use cluster_chatroom_project.Effect.{Program, Result, done, give, each, go_on}
use cluster_chatroom_project.Effect as Effect
use cluster_chatroom_project.Database.{User, no_user, GroupUser, Group}
use cluster_chatroom_project.Service.{World, Machine, or_throw, set_field}
use cluster_chatroom_project.Service.Accounts.Login.{friend_text, member_text, group_text}
use cluster_chatroom_project.Client.{object, assign}
use cluster_chatroom_project.Client.Object.{object-find}
use cluster_chatroom_project.Client.Receive.{int_field, text_field}
use cluster_chatroom_project.Client.Login.{
  read_friend, read_member, read_group, read_each, texts_or,
}

abbrev pub each_of : {A : Type 0} → (A → Option Bytes) → List A → Option (List Bytes)
each_of f [] = some []
each_of f (x ∷ xs) = f x >>= λ y. (each_of f xs >>= λ ys. some (y ∷ ys))

module _ (lib : JsonLib) where
  open lib use {Json, dump, of_int, of_string, of_strings}

  abbrev pub user_fields : User → List (Bytes × Json)
  user_fields u =
      (codes "id", of_int u.id)
      ∷ (codes "name", of_string u.name)
      ∷ (codes "state", of_string u.state)
      ∷ []

  abbrev pub member_fields : GroupUser → List (Bytes × Json)
  member_fields u =
      (codes "id", of_int u.user.id)
      ∷ (codes "name", of_string u.user.name)
      ∷ (codes "state", of_string u.user.state)
      ∷ (codes "role", of_string u.role)
      ∷ []

  abbrev pub group_fields : Group → List (Bytes × Json)
  group_fields g =
      (codes "id", of_int g.id)
      ∷ (codes "groupname", of_string g.name)
      ∷ (codes "groupdesc", of_string g.desc)
      ∷ []

  abbrev pub member_of : GroupUser → Option Bytes
  member_of u = object lib (member_fields u) >>= dump

  abbrev pub group_of : Group → Option Bytes
  group_of g = object lib (group_fields g) >>= λ j.
      (each_of member_of g.users >>= λ us.
      (assign lib j ((codes "users", of_strings us) ∷ []) >>= dump))

module _ (world : World) (lib : JsonLib) where
  open world use {sql}
  open lib use {Json, dump, find, set, of_int, of_string, of_strings}

  -- The server's statements that make a message field by field, before the rest of a program.
  abbrev put_all :
      Json
      → List (Bytes × Json)
      → (Json → Program (Machine sql.State) Bytes)
      → Program (Machine sql.State) Bytes
  put_all js [] k = k js
  put_all js ((i, v) ∷ fields) k =
      Effect.◌>>=◌ (set_field world lib i v js) (λ j. put_all j fields k)

  put_field-assign :
      (fields : List (Bytes × Json)) (next : Option Json)
      (k : Json → Program (Machine sql.State) Bytes) (g : Json → Option Bytes)
      (m : Machine sql.State)
      → ((j : Json) → put_all j fields k m ≡ or_throw world lib (assign lib j fields >>= g) m)
      → Effect.◌>>=◌ (or_throw world lib next) (λ j. put_all j fields k) m
        ≡ or_throw world lib ((next >>= λ j. assign lib j fields) >>= g) m
  put_field-assign fields none k g m h = refl
  put_field-assign fields (some j) k g m h = h j

  put_all-assign :
      (js : Json) (fields : List (Bytes × Json)) (k : Json → Program (Machine sql.State) Bytes)
      (g : Json → Option Bytes) (m : Machine sql.State)
      → ((j : Json) → k j m ≡ or_throw world lib (g j) m)
      → put_all js fields k m ≡ or_throw world lib (assign lib js fields >>= g) m
  unfolding assign
  put_all-assign js [] k g m h = h js
  put_all-assign js ((i, v) ∷ fields) k g m h =
      put_field-assign fields (set js i v) k g m (λ j. put_all-assign j fields k g m h)

  pub friend_text-object :
      (u : User) (m : Machine sql.State)
      → friend_text world lib u m ≡ or_throw world lib (object lib (user_fields lib u) >>= dump) m
  unfolding friend_text object
  friend_text-object u m =
      put_all-assign lib.null (user_fields lib u) (λ j. or_throw world lib (dump j)) dump m
        (λ j. refl)

  member_text-object :
      (u : GroupUser) (m : Machine sql.State)
      → member_text world lib u m ≡ or_throw world lib (member_of lib u) m
  unfolding member_text object
  member_text-object u m =
      put_all-assign lib.null (member_fields lib u) (λ j. or_throw world lib (dump j)) dump m
        (λ j. refl)

  -- The rest of a loop, behind its first turn.
  each_step :
      {A : Type 0} (f : A → Program (Machine sql.State) Bytes) (xs : List A) (first : Option Bytes)
      (others : Option (List Bytes)) (m : Machine sql.State)
      → each f xs m ≡ or_throw world lib others m
      → Effect.◌>>=◌
          (or_throw world lib first)
          (λ y. Effect.◌>>=◌ (each f xs) (λ ys. give (y ∷ ys)))
          m
        ≡ or_throw world lib (first >>= λ y. (others >>= λ ys. some (y ∷ ys))) m
  each_step f xs none others m h = refl
  each_step f xs (some y) none m h = rw h refl
  each_step f xs (some y) (some ys) m h = rw h refl

  pub each-each_of :
      {A : Type 0} (f : A → Program (Machine sql.State) Bytes) (g : A → Option Bytes) (xs : List A)
      (m : Machine sql.State)
      → ((x : A) (n : Machine sql.State) → f x n ≡ or_throw world lib (g x) n)
      → each f xs m ≡ or_throw world lib (each_of g xs) m
  unfolding each
  each-each_of f g [] m h = refl
  each-each_of f g (x ∷ xs) m h =
      rw (h x m) (each_step f xs (g x) (each_of g xs) m (each-each_of f g xs m h))

  group_rest :
      (users : List GroupUser) (texts : Option (List Bytes)) (j : Json) (m : Machine sql.State)
      → each (member_text world lib) users m ≡ or_throw world lib texts m
      → Effect.◌>>=◌
          (each (member_text world lib) users)
          (λ us.
            put_all j ((codes "users", of_strings us) ∷ []) (λ j4. or_throw world lib (dump j4)))
          m
        ≡ or_throw world lib
            (texts >>= λ us. (assign lib j ((codes "users", of_strings us) ∷ []) >>= dump))
            m
  group_rest users none j m h = rw h refl
  group_rest users (some us) j m h = rw h (
      put_all-assign j ((codes "users", of_strings us) ∷ []) (λ j4. or_throw world lib (dump j4))
        dump m (λ j4. refl))

  pub group_text-object :
      (g : Group) (m : Machine sql.State)
      → group_text world lib g m ≡ or_throw world lib (group_of lib g) m
  unfolding group_text object
  group_text-object g m =
      put_all-assign lib.null (group_fields lib g)
        (λ j. Effect.◌>>=◌ (each (member_text world lib) g.users) (λ us.
          put_all j ((codes "users", of_strings us) ∷ []) (λ j4. or_throw world lib (dump j4))))
        (λ j. each_of (member_of lib) g.users >>= λ us.
          (assign lib j ((codes "users", of_strings us) ∷ []) >>= dump))
        m
        (λ j.
          group_rest g.users (each_of (member_of lib) g.users) j m
            (each-each_of (member_text world lib) (member_of lib) g.users m member_text-object))
