-- ===== src/Service/Accounts/Guard.antt =====
-- src/server/chatservice.cpp, `login`: the branches that refuse.
use cluster_chatroom_project.Prelude.{
  ℕ, ◌≡◌, refl, ◌∙◌, ◌⊎◌, inl, inr, false, not, ◌&&◌, none, some, [], ◌∷◌, ◌++◌, Bytes, codes, same,
  Bool-cases, Option-cases, if◌then◌else◌, arith,
}
use cluster_chatroom_project.Prelude.Int.{ℤ, pos}
use cluster_chatroom_project.Json.{JsonLib}
use cluster_chatroom_project.Effect.{json_exception, Result, done, thrown}
use cluster_chatroom_project.Frame.{encode}
use cluster_chatroom_project.Database.{User}
use cluster_chatroom_project.Database.Users.{query_by_name}
use cluster_chatroom_project.Service.{
  World, Machine, to_connection, send_with_header, respond, get_string,
}
use cluster_chatroom_project.Service.Accounts.Login.{
  already_logged_in, wrong_password, acknowledge, refuse, is_right, log_in, login,
}

module _ (world : World) (lib : JsonLib) where
  open world use {sql, is_connected}
  open lib use {Json, null, find, set, dump, of_int, of_string, find-set}

  -- The answer is of a login, with the error's number; it is sent as one frame to the connection, if
  -- that is up; an answer that cannot be written ends the handler. Nothing else has changed.
  abbrev pub Refuses : ℕ → ℤ → Machine sql.State → Machine sql.State × Result Unit → Type 0
  Refuses conn errno m r =
      (answer : Json) × (find answer (codes "msgid") ≡ some (of_int (pos 2)))
      × (find answer (codes "errno") ≡ some (of_int errno))
      × (((dump answer ≡ none) × (r ≡ (m, thrown json_exception)))
          ⊎ ((body : Bytes) × (dump answer ≡ some body)
              × (r ≡ (
                if is_connected conn m.world
                    then record m { sent = m.sent ++ to_connection conn (encode body) ∷ [] }
                    else m,
                done tt,
              ))))

  send_with_header_eq :
      (conn : ℕ) (body : Bytes) (m : Machine sql.State)
      → send_with_header world conn body m ≡ (
        if is_connected conn m.world
            then record m { sent = m.sent ++ to_connection conn (encode body) ∷ [] }
            else m,
        done tt,
      )
  unfolding send_with_header
  send_with_header_eq conn body m = elim (Bool-cases (is_connected conn m.world)) [
    | inl e ↦ rw e refl
    | inr e ↦ rw e refl
  ]

  respond-Refuses :
      (conn : ℕ) (errno : ℤ) (js : Json) (m : Machine sql.State)
      → find js (codes "msgid") ≡ some (of_int (pos 2))
      → find js (codes "errno") ≡ some (of_int errno)
      → Refuses conn errno m (respond world lib conn js m)
  unfolding respond
  respond-Refuses conn errno js m f g = elim (Option-cases (dump js)) [
    | inl e ↦ (js, f, g, inl (e, rw e refl))
    | inr (t, e) ↦ (js, f, g, inr (t, e, rw e (send_with_header_eq conn t m)))
  ]

  refuse-Refuses :
      (conn : ℕ) (errno : ℤ) (msg : Bytes) (m : Machine sql.State)
      → Refuses conn errno m (refuse world lib conn errno msg m)
  unfolding refuse acknowledge
  refuse-Refuses conn errno msg m =
      elim (Option-cases (set null (codes "msgid") (of_int (pos 2)))) [
        | inl x ↦ absurd (lib.set-null (codes "msgid") (of_int (pos 2)) x)
        | inr (j1, e1) ↦
            let f1 = find-set null j1 (of_int (pos 2)) (codes "msgid") (codes "msgid") e1 in
            elim (Option-cases (set j1 (codes "errno") (of_int errno))) [
              | inl x ↦
                  absurd (lib.set_object j1 _ (of_int errno) (codes "msgid") (codes "errno") f1 x)
              | inr (j2, e2) ↦
                  let f2 = λ (k : Bytes). find-set j1 j2 (of_int errno) (codes "errno") k e2 in
                  elim (Option-cases (set j2 (codes "errmsg") (of_string msg))) [
                    | inl x ↦ absurd (
                        lib.set_object j2 _ (of_string msg) (codes "errno") (codes "errmsg")
                          (f2 (codes "errno")) x)
                    | inr (j3, e3) ↦
                        let f3 =
                          λ (k : Bytes). find-set j2 j3 (of_string msg) (codes "errmsg") k e3 in
                        rw (e1, e2, e3)
                          (respond-Refuses conn errno j3 m
                            (f3 (codes "msgid") ∙ f2 (codes "msgid") ∙ f1)
                            (f3 (codes "errno") ∙ f2 (codes "errno")))
                  ]
            ]
      ]

  log_in-Refuses :
      (conn : ℕ) (user : User) (password : Bytes) (m : Machine sql.State)
      → is_right world lib user password && not (same user.state (codes "online")) ≡ false
      → Refuses conn
          (if is_right world lib user password then pos 2 else pos 1)
          m
          (log_in world lib conn user password m)
  unfolding log_in
  log_in-Refuses conn user password m h = elim (Bool-cases (is_right world lib user password)) [
    | inl e ↦ elim (Bool-cases (same user.state (codes "online"))) [
      | inl o ↦ rw (e, o) (refuse-Refuses conn (pos 2) already_logged_in m)
      | inr o ↦ absurd (ground arith)
    ]
    | inr e ↦ rw e (refuse-Refuses conn (pos 1) wrong_password m)
  ]

  -- If the row that the database gives for a login's name does not fit its password, or is that
  -- of a user who is online, then `login` answers with errno 1, or 2 for a right password of a
  -- user who is online, in one frame to the connection that asked, if it is up; where that answer
  -- cannot be written, an exception is on its way and nothing is sent. The table and Redis stay,
  -- and the database is only asked for the row.
  pub login-Refuses :
      (conn : ℕ) (user : User) (name password : Bytes) (js : Json) (m : Machine sql.State)
      (w : sql.State)
      → find js (codes "name") ≡ some (of_string name)
      → find js (codes "password") ≡ some (of_string password)
      → query_by_name sql name m.world ≡ (w, done user)
      → is_right world lib user password && not (same user.state (codes "online")) ≡ false
      → Refuses conn
          (if is_right world lib user password then pos 2 else pos 1)
          (record m { world = w })
          (login world lib conn js m)
  unfolding login get_string
  login-Refuses conn user name password js m w f g q h =
      rw (f, lib.as_string-of_string name, g, lib.as_string-of_string password, q)
        (log_in-Refuses conn user password (record m { world = w }) h)
