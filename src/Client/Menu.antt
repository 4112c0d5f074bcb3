-- ===== src/Client/Menu.antt =====
-- src/client/main.cpp, `main`: the loop before the main menu. `none`: an exception ends the client.
pub mod Steady
pub mod Loop
mod Examples
use cluster_chatroom_project.Prelude.{
  ℕ, ◌≡◌, refl, ap, ◌∙◌, ◌⊎◌, inl, inr, Bool, true, false, Option, Option-cases, some, none, List,
  [], ◌∷◌, ◌++◌, Bytes, if◌then◌else◌, ◌>>=◌, bind-eq-some, if-eq-some,
}
use cluster_chatroom_project.Prelude.Int.{ℤ, pos, eqb_ℤ, eqb_ℤ_iff}
use cluster_chatroom_project.Json.{JsonLib}
use cluster_chatroom_project.Client.{Client, object, send_frame}
use cluster_chatroom_project.Client.Login.{
  Answer, entered, refused, account_fields, take_login, take_registration,
}

-- One turn: the choice, unless it is no number; the name and the password that are typed; what each
-- call of send gives; the response, unless `recvFrame` fails; and the clock, as `take_login` has it.
pub record Turn : Type 0 where
  pub choice : Option ℤ
  pub name : Bytes
  pub password : Bytes
  pub results : List ℤ
  pub response : Option Bytes
  pub clock : ℕ → ℕ
  pub now : ℕ

-- Where a turn leads: on in the loop; into `mainMenu`, with the calls of `renderChatMessage`; out of
-- the program; or nowhere, where the results of send end before the frame does.
pub data Stage (J : Type 0) : Type 0 where
  outside : Client J → Stage J
  inside : Client J → List J → Stage J
  quits : Client J → Stage J
  sending : Stage J

module _ (lib : JsonLib) where
  open lib use {Json}

  abbrev pub after_answer : Client Json → Answer lib → Stage Json
  after_answer c (entered c' out) = inside c' out
  after_answer c (refused text) = outside c

  -- A response, if there is one.
  abbrev pub on_response :
      Client Json → Option Bytes → (Bytes → Option (Stage Json)) → Option (Stage Json)
  on_response c none take = some (outside c)
  on_response c (some body) take = take body

  abbrev pub if_sent : Client Json → Option Bool → Option (Stage Json) → Option (Stage Json)
  if_sent c none next = some sending
  if_sent c (some false) next = some (outside c)
  if_sent c (some true) next = next

  -- A request is sent, and the response taken.
  unfoldable pub ask :
      ℤ → Turn → Client Json → (Bytes → Option (Stage Json)) → Option (Stage Json × Bytes)
  ask msgid t c take = do
    js ← object lib (account_fields lib msgid t.name t.password)
    r ← send_frame lib js t.results
    s ← if_sent c r.1 (on_response c t.response take)
    some (s, r.0)

  abbrev pub login_turn : Turn → Client Json → Bytes → Option (Stage Json)
  login_turn t c body = do a ← take_login lib t.clock t.now body c; some (after_answer c a)

  abbrev pub register_turn : Client Json → Bytes → Option (Stage Json)
  register_turn c body = do ok ← take_registration lib body; some (outside c)

  -- The switch.
  unfoldable pub choose : ℤ → Turn → Client Json → Option (Stage Json × Bytes)
  choose z t c =
      if eqb_ℤ z (pos 1)
      then ask (pos 1) t c (login_turn t c)
      else if eqb_ℤ z (pos 2)
      then ask (pos 4) t c (register_turn c)
      else if eqb_ℤ z (pos 3)
      then some (quits (record c { running = false }), [])
      else some (outside c, [])

  unfoldable pub turn : Turn → Client Json → Option (Stage Json × Bytes)
  turn t c = elim t.choice [ none ↦ some (outside c, []) | some z ↦ choose z t c ]

  -- What follows a turn: the loop goes on only where it has led on in the loop.
  abbrev pub continue :
      (Client Json → Option (Stage Json × Bytes)) → Stage Json × Bytes → Option (Stage Json × Bytes)
  continue k (outside c, written) = do r ← k c; some (r.0, written ++ r.1)
  continue k (s, written) = some (s, written)

  -- The loop, with what was written to the socket.
  unfoldable pub main_loop : List Turn → Client Json → Option (Stage Json × Bytes)
  main_loop [] c = some (outside c, [])
  main_loop (t ∷ ts) c = turn t c >>= continue (main_loop ts)
