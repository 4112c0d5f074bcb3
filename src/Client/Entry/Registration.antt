-- ===== src/Client/Entry/Registration.antt =====
-- src/server/chatservice.cpp: `reg`, and `login` with the same name and password.
mod Examples
use cluster_chatroom_project.Prelude.{
  ℕ, zero, suc, ◌+◌, ◌*◌, ◌/◌, ◌%◌, ◌<◌, ◌^◌, ◌≡◌, refl, sym, ap, ap₂, subst, ◌∙◌, inl, inr, Bool,
  true, false, Bool-cases, Option, Option-cases, some, none, List, [], ◌∷◌, append-nil, Bytes,
  codes, same, length, ◌==◌, bind-eq-some, arith,
}
use cluster_chatroom_project.Prelude.Int.{ℤ, pos, negsuc}
use cluster_chatroom_project.Conversation.Decimal.{to_string}
use cluster_chatroom_project.Text.Integers.{parse_int, parse_int-to_string, Stops-nil}
use cluster_chatroom_project.Json.{JsonLib}
use cluster_chatroom_project.Crypto.{xor, or, difference, safe_equal, hash_password, make_salt}
use cluster_chatroom_project.Effect.{Program, done, ◌>>=◌}
use cluster_chatroom_project.Effect.Keeps.{Keeps, bind-Keeps}
use cluster_chatroom_project.Database.{Sql, User, no_user, to_user, first_user}
use cluster_chatroom_project.Database.Rows.{stoi}
use cluster_chatroom_project.Database.Users.{insert_user, query_by_name}
use cluster_chatroom_project.Service.{
  World, Machine, get_string, or_throw, send_with_header, respond,
}
use cluster_chatroom_project.Service.Accounts.{registered, reg}
use cluster_chatroom_project.Service.Accounts.Login.{is_right, log_in, login, welcome}
use cluster_chatroom_project.Service.Evolves.Whole.{text_of}

abbrev pub insertion : Bytes
insertion = codes "insert into User(name,password,salt,state) values(?,?,?,?)"

abbrev pub selection : Bytes
selection = codes "select id,name,password,salt,state from User where name=?"

-- MySQL keeps a row that it has inserted, under a positive number, and a query for its unique name
-- finds it, when nothing else has happened but that a connection was taken.
pub record Remembers (sql : Sql) : Type 0 where
  pub number : sql.State → ℕ
  pub row :
      (s s' : sql.State) (name hashed salt state : Bytes)
      → sql.execute_update insertion (name ∷ hashed ∷ salt ∷ state ∷ []) s ≡ (s', true)
      → (sql.last_insert_id s' ≡ pos (number s'))
        × (number s' < 2 ^ 31)
        × ((sql.execute_query selection (name ∷ []) (sql.get_connection s').0).1
            ≡ some ((to_string (pos (number s')) ∷ name ∷ hashed ∷ salt ∷ state ∷ []) ∷ []))

xor_self : (f a : ℕ) → xor f a a ≡ 0
unfolding xor
xor_self zero a = refl
xor_self (suc f) a = ground (arith, xor_self f (a / 2))

or_of_zeros : (f : ℕ) → or f 0 0 ≡ 0
unfolding or
or_of_zeros zero = refl
or_of_zeros (suc f) = ground (arith, or_of_zeros f)

difference_self : (a : Bytes) → difference 0 a a ≡ 0
unfolding difference
difference_self [] = refl
difference_self (c ∷ a) =
    ap (λ d. difference (or 8 0 d) a a) (xor_self 8 c)
    ∙ ap (λ d. difference d a a) (or_of_zeros 8)
    ∙ difference_self a

safe_equal_self : (a : Bytes) → safe_equal a a ≡ true
unfolding safe_equal
safe_equal_self a = ground (arith, difference_self a)

module _ (sql : Sql) where
  -- What `insert` has stored when it returns true.
  insert_user-stored :
      (user stored : User) (s s' : sql.State)
      → insert_user sql user s ≡ (s', done (stored, true))
      → (t : sql.State) × (salt : Bytes) × (stored.id ≡ sql.last_insert_id s')
        × (sql.execute_update insertion
              (user.name ∷ hash_password sql.sha256 salt user.password ∷ salt ∷ user.state ∷ [])
              t
            ≡ (s', true))
  unfolding insert_user
  insert_user-stored user stored s s' e = elim (Bool-cases (sql.get_connection s).1) [
    | inr g ↦ absurd (ground arith)
    | inl g ↦
        let d = sql.draw (sql.get_connection s).0 in
        let salt = make_salt d.1 in
        let u =
          sql.execute_update insertion
            (user.name ∷ hash_password sql.sha256 salt user.password ∷ salt ∷ user.state ∷ [])
            d.0 in
        elim (Bool-cases u.1) [
          | inr k ↦ absurd (ground arith)
          | inl k ↦
              let a : u.0 ≡ s' = ground arith in
              let b : record user { id = sql.last_insert_id u.0 } ≡ stored = ground arith in
              (
                d.0,
                salt,
                sym (ap (λ (x : User). x.id) b) ∙ ap sql.last_insert_id a,
                ap₂ (λ x y. (x, y)) a k,
              )
        ]
  ]

  to_user-row :
      (n : ℕ) (name password salt state : Bytes) (s : sql.State)
      → n < 2 ^ 31
      → to_user sql (to_string (pos n) ∷ name ∷ password ∷ salt ∷ state ∷ []) s ≡ (
        s,
        done (record { id = pos n; name = name; password = password; salt = salt; state = state }),
      )
  unfolding to_user stoi
  to_user-row n name password salt state s l =
      let p =
        subst (λ b. parse_int b ≡ some (pos n)) (append-nil (to_string (pos n)))
          (parse_int-to_string (pos n) [] (omega (arith, l)) Stops-nil) in
      rw (p, stoi) refl

  query_by_name-row :
      (n : ℕ) (name password salt state : Bytes) (s : sql.State)
      → (sql.get_connection s).1 ≡ true
      → n < 2 ^ 31
      → (sql.execute_query selection (name ∷ []) (sql.get_connection s).0).1
        ≡ some ((to_string (pos n) ∷ name ∷ password ∷ salt ∷ state ∷ []) ∷ [])
      → (w : sql.State) × (query_by_name sql name s ≡ (
        w,
        done (record { id = pos n; name = name; password = password; salt = salt; state = state }),
      ))
  unfolding query_by_name first_user to_user stoi
  query_by_name-row n name password salt state s c l r = (
    (sql.execute_query selection (name ∷ []) (sql.get_connection s).0).0,
    rw (c, r) (to_user-row n name password salt state _ l),
  )

-- Programs that leave the database as it is.
module _ (world : World) where
  open world use {sql}

  abbrev SameWorld : Machine sql.State → Machine sql.State → Type 0
  SameWorld m m' = m'.world ≡ m.world

  abbrev Still : {A : Type 0} → Program (Machine sql.State) A → Type 0
  Still p = Keeps SameWorld (λ m. refl) (λ a b c h k. k ∙ h) p

  bind-Still :
      {A B : Type 0} {p : Program (Machine sql.State) A} {k : A → Program (Machine sql.State) B}
      → Still p
      → ((a : A) → Still (k a))
      → Still (p >>= k)
  bind-Still h t = bind-Keeps SameWorld (λ m. refl) (λ a b c h k. k ∙ h) h t

  send_with_header-Still : (conn : ℕ) (body : Bytes) → Still (send_with_header world conn body)
  unfolding send_with_header
  send_with_header-Still conn body = record { along = λ m. ground arith }

  module _ (lib : JsonLib) where
    open lib use {Json, null, set, dump, of_int}

    or_throw-Still : {A : Type 0} (o : Option A) → Still (or_throw world lib o)
    or_throw-Still none = record { along = λ m. refl }
    or_throw-Still (some a) = record { along = λ m. refl }

    registered-Still : (id : ℤ) → Still (registered world lib id)
    unfolding registered
    registered-Still id =
        bind-Still (or_throw-Still (set null (codes "msgid") (of_int (pos 5)))) λ j1.
          bind-Still (or_throw-Still (set j1 (codes "id") (of_int id)))
            λ j2. or_throw-Still (set j2 (codes "errno") (of_int (pos 0)))

    respond-Still : (conn : ℕ) (js : Json) → Still (respond world lib conn js)
    unfolding respond
    respond-Still conn js = bind-Still (or_throw-Still (dump js)) λ t. send_with_header-Still conn t

    get_string-text :
        (js : Json) (k t : Bytes) (m : Machine sql.State)
        → text_of world lib js k ≡ some t
        → get_string world lib js k m ≡ (m, done t)
    unfolding get_string
    get_string-text js k t m e =
        let (x, f, g) = bind-eq-some (lib.find js k) lib.as_string e in rw (f, g) refl

    reg-world :
        (conn : ℕ) (js : Json) (name password : Bytes) (stored : User) (s : sql.State)
        (m : Machine sql.State)
        → text_of world lib js (codes "name") ≡ some name
        → text_of world lib js (codes "password") ≡ some password
        → insert_user sql (record no_user { name = name; password = password }) m.world
          ≡ (s, done (stored, true))
        → (reg world lib conn js m).0.world ≡ s
    unfolding reg
    reg-world conn js name password stored s m f g e =
        rw
          (
            get_string-text js (codes "name") name m f,
            get_string-text js (codes "password") password m g,
            e,
          )
          ((bind-Still (registered-Still stored.id) (respond-Still conn)).along
            (record m { world = s }))

    login-welcome :
        (conn : ℕ) (js : Json) (name password : Bytes) (user : User) (w : sql.State)
        (m : Machine sql.State)
        → text_of world lib js (codes "name") ≡ some name
        → text_of world lib js (codes "password") ≡ some password
        → query_by_name sql name m.world ≡ (w, done user)
        → is_right world lib user password ≡ true
        → same user.state (codes "online") ≡ false
        → login world lib conn js m ≡ welcome world lib conn user (record m { world = w })
    unfolding login log_in
    login-welcome conn js name password user w m f g q r o =
        rw
          (
            get_string-text js (codes "name") name m f,
            get_string-text js (codes "password") password m g,
            q,
            r,
            o,
          )
          refl

    -- Given a database that keeps an inserted row under a positive number and finds it by its
    -- name: if the insertion of a registration succeeds, as the handler `reg` makes it, and a
    -- connection to the database is at hand afterwards, then `login` with the same message,
    -- right after it and on any connection, takes the branch that lets the user in, with the
    -- number that the registration was given, and the name.
    pub reg-login :
        (remembers : Remembers sql) (conn c : ℕ) (js : Json) (name password : Bytes) (stored : User)
        (s : sql.State) (m : Machine sql.State)
        → text_of world lib js (codes "name") ≡ some name
        → text_of world lib js (codes "password") ≡ some password
        → insert_user sql (record no_user { name = name; password = password }) m.world
          ≡ (s, done (stored, true))
        → (sql.get_connection s).1 ≡ true
        → let m' = (reg world lib conn js m).0 in
          (w : sql.State) × (user : User) × (user.id ≡ stored.id)
          × (user.name ≡ name)
          × (login world lib c js m' ≡ welcome world lib c user (record m' { world = w }))
    unfolding is_right
    reg-login remembers conn c js name password stored s m f g e k =
        let m' = (reg world lib conn js m).0 in
        let (t, salt, i, u) = insert_user-stored sql _ stored m.world s e in
        let (a, l, r) = remembers.row t s name _ salt (codes "offline") u in
        let (w, q) =
          query_by_name-row sql (remembers.number s) name _ salt (codes "offline") s k l r in
        (
          w,
          _,
          sym (i ∙ a),
          refl,
          login-welcome c js name password _ w m' f g
              (ap (query_by_name sql name) (reg-world conn js name password stored s m f g e) ∙ q)
              (safe_equal_self (hash_password sql.sha256 salt password)) refl,
        )
