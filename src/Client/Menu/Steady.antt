-- ===== src/Client/Menu/Steady.antt =====
-- src/client/main.cpp, `main`: a turn that stays in the loop before the main menu.
use mathlib.Core.Option.{some-injective}
use cluster_chatroom_project.Prelude.{
  ◌≡◌, refl, ap, subst, ◌∙◌, inl, inr, Bool, true, false, Option, Option-cases, some, none, [],
  Bytes, bind-eq-some, if-eq-some, arith,
}
use cluster_chatroom_project.Prelude.Int.{ℤ, pos, eqb_ℤ}
use cluster_chatroom_project.Json.{JsonLib}
use cluster_chatroom_project.Client.{Client, object, send_frame}
use cluster_chatroom_project.Client.Login.{
  Answer, entered, refused, account_fields, take_login, take_registration,
}
use cluster_chatroom_project.Client.Menu.{
  Turn, Stage, outside, after_answer, on_response, if_sent, ask, login_turn, register_turn, choose,
  turn,
}

module _ (lib : JsonLib) where
  open lib use {Json}

  -- Where a turn leads on in the loop, the client is as it was.
  abbrev pub Unchanged : Client Json → Stage Json → Type 0
  Unchanged c (outside d) = d ≡ c
  Unchanged c _ = Unit

  login_turn-Unchanged :
      (t : Turn) (c : Client Json) (s : Stage Json) (answer : Bytes)
      → login_turn lib t c answer ≡ some s
      → Unchanged c s
  login_turn-Unchanged t c s answer e =
      let (a, f, g) = bind-eq-some (take_login lib t.clock t.now answer c) _ e in
      subst (Unchanged c) (some-injective _ _ g) (after_answer-Unchanged a)
    where
      after_answer-Unchanged : (a : Answer lib) → Unchanged c (after_answer lib c a)
      after_answer-Unchanged (entered d o) = tt
      after_answer-Unchanged (refused text) = refl

  register_turn-Unchanged :
      (c : Client Json) (s : Stage Json) (answer : Bytes)
      → register_turn lib c answer ≡ some s
      → Unchanged c s
  register_turn-Unchanged c s answer e =
      let (a, f, g) = bind-eq-some (take_registration lib answer) _ e in
      subst (Unchanged c) (some-injective _ _ g) refl

  on_response-Unchanged :
      (c : Client Json) (s : Stage Json) (o : Option Bytes) (take : Bytes → Option (Stage Json))
      → ((answer : Bytes) → take answer ≡ some s → Unchanged c s)
      → on_response lib c o take ≡ some s
      → Unchanged c s
  on_response-Unchanged c s none take h e = subst (Unchanged c) (some-injective _ _ e) refl
  on_response-Unchanged c s (some answer) take h e = h answer e

  if_sent-Unchanged :
      (c : Client Json) (s : Stage Json) (r : Option Bool) (next : Option (Stage Json))
      → (next ≡ some s → Unchanged c s)
      → if_sent lib c r next ≡ some s
      → Unchanged c s
  if_sent-Unchanged c s none next h e = subst (Unchanged c) (some-injective _ _ e) tt
  if_sent-Unchanged c s (some false) next h e = subst (Unchanged c) (some-injective _ _ e) refl
  if_sent-Unchanged c s (some true) next h e = h e

  ask-Unchanged :
      (msgid : ℤ) (t : Turn) (c : Client Json) (s : Stage Json) (written : Bytes)
      (take : Bytes → Option (Stage Json))
      → ((answer : Bytes) → take answer ≡ some s → Unchanged c s)
      → ask lib msgid t c take ≡ some (s, written)
      → Unchanged c s
  unfolding ask
  ask-Unchanged msgid t c s written take h e =
      let (js, a1, b1) =
        bind-eq-some (object lib (account_fields lib msgid t.name t.password)) _ e in
      let (r, a2, b2) = bind-eq-some (send_frame lib js t.results) _ b1 in
      let (s', a3, b3) =
        bind-eq-some (if_sent lib c r.1 (on_response lib c t.response take)) _ b2 in
      if_sent-Unchanged c s r.1 (on_response lib c t.response take)
        (on_response-Unchanged c s t.response take h)
        (a3 ∙ ap (λ (x : Stage Json × Bytes). some x.0) (some-injective _ _ b3))

  choose-Unchanged :
      (z : ℤ) (t : Turn) (c : Client Json) (s : Stage Json) (written : Bytes)
      → choose lib z t c ≡ some (s, written)
      → Unchanged c s
  unfolding choose
  choose-Unchanged z t c s written e = elim (if-eq-some (eqb_ℤ z (pos 1)) e) [
    | inl (q, e1) ↦
        ask-Unchanged (pos 1) t c s written (login_turn lib t c) (login_turn-Unchanged t c s) e1
    | inr (q, e1) ↦ elim (if-eq-some (eqb_ℤ z (pos 2)) e1) [
      | inl (q2, e2) ↦
          ask-Unchanged (pos 4) t c s written (register_turn lib c) (register_turn-Unchanged c s) e2
      | inr (q2, e2) ↦ elim (if-eq-some (eqb_ℤ z (pos 3)) e2) [
        | inl (q3, e3) ↦
            subst (Unchanged c) (ap (λ (x : Stage Json × Bytes). x.0) (some-injective _ _ e3)) tt
        | inr (q3, e3) ↦
            subst (Unchanged c) (ap (λ (x : Stage Json × Bytes). x.0) (some-injective _ _ e3)) refl
      ]
    ]
  ]

  pub turn-Unchanged :
      (t : Turn) (c : Client Json) (s : Stage Json) (written : Bytes)
      → turn lib t c ≡ some (s, written)
      → Unchanged c s
  unfolding turn
  turn-Unchanged t c s written e = elim (Option-cases t.choice) [
    | inl n ↦
        let h : (outside c, []) ≡ (s, written) = ground arith in
        subst (Unchanged c) (ap (λ (x : Stage Json × Bytes). x.0) h) refl
    | inr (z, n) ↦ choose-Unchanged z t c s written (ground arith)
  ]
