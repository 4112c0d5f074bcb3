-- ===== src/Client/Welcome/Written.antt =====
-- What the response to a login in src/server/chatservice.cpp is made of, and that it can be written.
use mathlib.Core.Option.{some-injective}
use cluster_chatroom_project.Prelude.{
  true, ltb, ◌&&◌, All, subst, bind-eq-some, ◌≡◌, refl, Bool, Option, some, List, [], ◌∷◌, Bytes,
  codes, ◌>>=◌,
}
use cluster_chatroom_project.Prelude.Int.{ℤ}
use cluster_chatroom_project.Json.{JsonLib}
use cluster_chatroom_project.Effect.{Program, done}
use cluster_chatroom_project.Database.{User, GroupUser, Group}
use cluster_chatroom_project.Client.{object, assign}
use cluster_chatroom_project.Client.Object.{object_total, object-find, assign_total}
use cluster_chatroom_project.Client.Lists.{
  each_of, user_fields, member_fields, group_fields, member_of, group_of,
}

abbrev pub is_ascii : Bytes → Bool
is_ascii [] = true
is_ascii (c ∷ cs) = ltb c 128 && is_ascii cs

-- A value that the handlers make: of numbers, of texts for which `T` holds, and of fields with ASCII
-- names.
pub data Written (lib : JsonLib) (T : Bytes → Type 0) : lib.Json → Type 0 where
  nothing : Written lib T lib.null
  int : (z : ℤ) → Written lib T (lib.of_int z)
  text : (t : Bytes) → T t → Written lib T (lib.of_string t)
  texts : (ts : List Bytes) → All T ts → Written lib T (lib.of_strings ts)
  field :
      (j v j' : lib.Json) (k : Bytes)
      → Written lib T j
      → is_ascii k ≡ true
      → Written lib T v
      → lib.set j k v ≡ some j'
      → Written lib T j'

-- Such a value can be written, and `T` holds for what is written, as it does if `T` says that a text
-- is UTF-8.
abbrev pub Dumps : (lib : JsonLib) → (Bytes → Type 0) → Type 0
Dumps lib T = (j : lib.Json) → Written lib T j → (b : Bytes) × (lib.dump j ≡ some b) × T b

-- A query that throws nothing, in whatever state it is asked, and what `Q` says of its answer.
abbrev pub Answers : (S A : Type 0) → (A → Type 0) → Program S A → Type 0
Answers S A Q p = (s : S) → (t : S) × (a : A) × (p s ≡ (t, done a)) × Q a

-- `T` holds for the texts that a client is told.
abbrev pub UserTexts : (Bytes → Type 0) → User → Type 0
UserTexts T u = T u.name × T u.state

abbrev pub MemberTexts : (Bytes → Type 0) → GroupUser → Type 0
MemberTexts T m = UserTexts T m.user × T m.role

abbrev pub GroupTexts : (Bytes → Type 0) → Group → Type 0
GroupTexts T g = T g.name × T g.desc × All (MemberTexts T) g.users

pub each_of_total :
    {A : Type 0} (f : A → Option Bytes) (T : Bytes → Type 0) (Q : A → Type 0) (xs : List A)
    → ((x : A) → Q x → (b : Bytes) × (f x ≡ some b) × T b)
    → All Q xs
    → (ts : List Bytes) × (each_of f xs ≡ some ts) × All T ts
each_of_total f T Q [] h a = ([], refl, tt)
each_of_total f T Q (x ∷ xs) h a =
    let (b, e, t) = h x a.0 in
    let (ts, r, u) = each_of_total f T Q xs h a.1 in (b ∷ ts, rw (e, r) refl, (t, u))

module _ (lib : JsonLib) (T : Bytes → Type 0) (dumps : Dumps lib T) where
  open lib use {Json, dump, of_strings}

  abbrev IsFine : List (Bytes × Json) → Type 0
  IsFine fields = All (λ (f : Bytes × Json). (is_ascii f.0 ≡ true) × Written lib T f.1) fields

  assign-Written :
      (fields : List (Bytes × Json)) (js j : Json)
      → Written lib T js
      → IsFine fields
      → assign lib js fields ≡ some j
      → Written lib T j
  unfolding assign
  assign-Written [] js j w a e = subst (Written lib T) (some-injective _ _ e) w
  assign-Written ((k, v) ∷ fields) js j w a e =
      let (n, x, r) = bind-eq-some (lib.set js k v) _ e in
      assign-Written fields n j (field js v n k w a.0.0 a.0.1 x) a.1 r

  fields_dump :
      (fields : List (Bytes × Json))
      → IsFine fields
      → (b : Bytes) × ((object lib fields >>= dump) ≡ some b) × T b
  unfolding object
  fields_dump fields a =
      let (j, e) = object_total lib fields in
      let (b, d, t) = dumps j (assign-Written fields lib.null j nothing a e) in (b, rw e d, t)

  pub user_dump :
      (u : User)
      → UserTexts T u
      → (b : Bytes) × ((object lib (user_fields lib u) >>= dump) ≡ some b) × T b
  user_dump u (n, s) =
      fields_dump (user_fields lib u)
        ((refl, int u.id), ((refl, text u.name n), ((refl, text u.state s), tt)))

  member_dump : (m : GroupUser) → MemberTexts T m → (b : Bytes) × (member_of lib m ≡ some b) × T b
  member_dump m ((n, s), r) = fields_dump (member_fields lib m) (
    (refl, int m.user.id),
    ((refl, text m.user.name n), ((refl, text m.user.state s), ((refl, text m.role r), tt))),
  )

  pub group_dump : (g : Group) → GroupTexts T g → (b : Bytes) × (group_of lib g ≡ some b) × T b
  unfolding object
  group_dump g (n, d, m) =
      let (j, e) = object_total lib (group_fields lib g) in
      let (us, u, ut) = each_of_total (member_of lib) T (MemberTexts T) g.users member_dump m in
      let own = object-find lib (group_fields lib g) j (codes "id") e in
      let more = (codes "users", of_strings us) ∷ [] in
      let (k, a) = assign_total lib j (lib.of_int g.id) (codes "id") more own in
      let fine =
        assign-Written (group_fields lib g) lib.null j nothing
          ((refl, int g.id), ((refl, text g.name n), ((refl, text g.desc d), tt))) e in
      let (b, x, t) = dumps k (assign-Written more j k fine ((refl, texts us ut), tt) a) in
      (b, rw (e, u, a) x, t)
