-- ===== src/Client/Menu/Loop.antt =====
-- src/client/main.cpp, `main`: how the loop before the main menu is left.
use mathlib.Core.Option.{some-injective}
use cluster_chatroom_project.Prelude.{
  ◌≡◌, refl, sym, ap, subst, ◌∙◌, inl, inr, Bool, true, false, Option, Option-cases, some, none,
  List, [], ◌∷◌, ◌++◌, append_assoc, append-nil, Bytes, bind-eq-some, if-eq-some, arith,
}
use cluster_chatroom_project.Prelude.Int.{ℤ, pos, eqb_ℤ, eqb_ℤ_iff}
use cluster_chatroom_project.Json.{JsonLib}
use cluster_chatroom_project.Frame.{encode}
use cluster_chatroom_project.Client.{Client, object, send_frame, send_loop}
use cluster_chatroom_project.Client.Sending.{send_loop-append}
use cluster_chatroom_project.Client.Login.{
  Answer, entered, refused, account_fields, take_login, take_registration,
}
use cluster_chatroom_project.Client.Menu.{
  Turn, Stage, outside, inside, quits, sending, after_answer, on_response, if_sent, ask, login_turn,
  register_turn, choose, turn, continue, main_loop,
}
use cluster_chatroom_project.Client.Menu.Steady.{turn-Unchanged}

module _ (lib : JsonLib) where
  open lib use {Json, dump}

  -- A turn that leads into the menu: the login of the name and the password was written as a whole
  -- frame, and the response lets the client in.
  pub record Lets (t : Turn) (c c' : Client Json) (out : List Json) (written : Bytes) : Type 0 where
    pub chosen : t.choice ≡ some (pos 1)
    pub request : Json
    pub made : object lib (account_fields lib (pos 1) t.name t.password) ≡ some request
    pub body : Bytes
    pub dumped : dump request ≡ some body
    pub sent : written ≡ encode body
    pub answer : Bytes
    pub answered : t.response ≡ some answer
    pub let_in : take_login lib t.clock t.now answer c ≡ some (entered c' out)

  after_answer-inside :
      (c c' : Client Json) (out : List Json) (a : Answer lib)
      → after_answer lib c a ≡ inside c' out
      → a ≡ entered c' out
  after_answer-inside c c' out (entered d o) e = cc
  after_answer-inside c c' out (refused text) e = cc

  login_turn-inside :
      (t : Turn) (c c' : Client Json) (out : List Json) (answer : Bytes)
      → login_turn lib t c answer ≡ some (inside c' out)
      → take_login lib t.clock t.now answer c ≡ some (entered c' out)
  login_turn-inside t c c' out answer e =
      let (a, f, g) = bind-eq-some (take_login lib t.clock t.now answer c) _ e in
      f ∙ ap some (after_answer-inside c c' out a (some-injective _ _ g))

  register_turn-inside :
      (c c' : Client Json) (out : List Json) (answer : Bytes)
      → ¬ (register_turn lib c answer ≡ some (inside c' out))
  register_turn-inside c c' out answer e =
      let (a, f, g) = bind-eq-some (take_registration lib answer) _ e in cc

  on_response-inside :
      (c c' : Client Json) (out : List Json) (o : Option Bytes) (take : Bytes → Option (Stage Json))
      → on_response lib c o take ≡ some (inside c' out)
      → (answer : Bytes) × (o ≡ some answer) × (take answer ≡ some (inside c' out))
  on_response-inside c c' out none take e = absurd (cc)
  on_response-inside c c' out (some answer) take e = (answer, refl, e)

  if_sent-inside :
      (c c' : Client Json) (out : List Json) (r : Option Bool) (next : Option (Stage Json))
      → if_sent lib c r next ≡ some (inside c' out)
      → (r ≡ some true) × (next ≡ some (inside c' out))
  if_sent-inside c c' out none next e = absurd (cc)
  if_sent-inside c c' out (some false) next e = absurd (cc)
  if_sent-inside c c' out (some true) next e = (refl, e)

  -- What was sent as a whole frame.
  send_loop-whole :
      (frame : Bytes) (results : List ℤ)
      → (send_loop frame results).1 ≡ some true
      → (send_loop frame results).0 ≡ frame
  send_loop-whole frame results e =
      let (rest, a, b) = send_loop-append frame results in
      let written = (send_loop frame results).0 in
      sym (append-nil written) ∙ ap (λ x. written ++ x) (sym (b.0 e)) ∙ a

  ask-inside :
      (msgid : ℤ) (t : Turn) (c c' : Client Json) (out : List Json) (written : Bytes)
      (take : Bytes → Option (Stage Json))
      → ask lib msgid t c take ≡ some (inside c' out, written)
      → (js : Json) × (object lib (account_fields lib msgid t.name t.password) ≡ some js)
        × ((body : Bytes) × (dump js ≡ some body) × (written ≡ encode body))
        × ((answer : Bytes) × (t.response ≡ some answer) × (take answer ≡ some (inside c' out)))
  unfolding ask send_frame
  ask-inside msgid t c c' out written take e =
      let (js, a1, b1) =
        bind-eq-some (object lib (account_fields lib msgid t.name t.password)) _ e in
      let (r, a2, b2) = bind-eq-some (send_frame lib js t.results) _ b1 in
      let (s, a3, b3) = bind-eq-some (if_sent lib c r.1 (on_response lib c t.response take)) _ b2 in
      let (body, a4, b4) = bind-eq-some (dump js) _ a2 in
      let h : (s, r.0) ≡ (inside c' out, written) = some-injective _ _ b3 in
      let k : send_loop (encode body) t.results ≡ r = some-injective _ _ b4 in
      let (sent, next) =
        if_sent-inside c c' out r.1 (on_response lib c t.response take)
          (a3 ∙ ap (λ x. some x.0) h) in
      (
        js,
        a1,
        (
          body,
          a4,
          ap (λ x. x.1) (sym h)
              ∙ ap (λ x. x.0) (sym k)
              ∙ send_loop-whole (encode body) t.results (ap (λ x. x.1) k ∙ sent),
        ),
        on_response-inside c c' out t.response take next,
      )

  choose-Lets :
      (z : ℤ) (t : Turn) (c c' : Client Json) (out : List Json) (written : Bytes)
      → t.choice ≡ some z
      → choose lib z t c ≡ some (inside c' out, written)
      → Lets t c c' out written
  unfolding choose
  choose-Lets z t c c' out written k e = elim (if-eq-some (eqb_ℤ z (pos 1)) e) [
    | inl (q, e1) ↦
        let (js, a, (body, d, w), (answer, o, l)) =
          ask-inside (pos 1) t c c' out written (login_turn lib t c) e1 in
        record {
          chosen = k ∙ ap some ((eqb_ℤ_iff z (pos 1)).0 q);
          request = js;
          made = a;
          body = body;
          dumped = d;
          sent = w;
          answer = answer;
          answered = o;
          let_in = login_turn-inside t c c' out answer l;
        }
    | inr (q, e1) ↦ elim (if-eq-some (eqb_ℤ z (pos 2)) e1) [
      | inl (q2, e2) ↦
          let (js, a, b, (answer, o, l)) =
            ask-inside (pos 4) t c c' out written (register_turn lib c) e2 in
          absurd (register_turn-inside c c' out answer l)
      | inr (q2, e2) ↦ elim (if-eq-some (eqb_ℤ z (pos 3)) e2) [
        | inl (q3, e3) ↦ absurd (cc)
        | inr (q3, e3) ↦ absurd (cc)
      ]
    ]
  ]

  turn-Lets :
      (t : Turn) (c c' : Client Json) (out : List Json) (written : Bytes)
      → turn lib t c ≡ some (inside c' out, written)
      → Lets t c c' out written
  unfolding turn
  turn-Lets t c c' out written e = elim (Option-cases t.choice) [
    | inl n ↦ absurd (ground arith)
    | inr (z, n) ↦ choose-Lets z t c c' out written n (ground arith)
  ]

  -- Some turn leads into the menu, and the turns before it do not.
  pub record Ends (ts : List Turn) (c c' : Client Json) (out : List Json) (written : Bytes)
      : Type 0 where
    pub before : List Turn
    pub last : Turn
    pub later : List Turn
    pub split : ts ≡ before ++ last ∷ later
    pub first : Bytes
    pub frame : Bytes
    pub parted : written ≡ first ++ frame
    pub lets : Lets last c c' out frame

  Ends-later :
      (t : Turn) (ts : List Turn) (c c' : Client Json) (out : List Json) (w written : Bytes)
      → Ends ts c c' out written
      → Ends (t ∷ ts) c c' out (w ++ written)
  Ends-later t ts c c' out w written e = record {
    before = t ∷ e.before;
    last = e.last;
    later = e.later;
    split = ap (◌∷◌ t) e.split;
    first = w ++ e.first;
    frame = e.frame;
    parted = ap (λ x. w ++ x) e.parted ∙ sym (append_assoc w e.first e.frame);
    lets = e.lets;
  }

  -- What follows a turn.
  turn-Ends :
      (t : Turn) (ts : List Turn) (c c' : Client Json) (out : List Json) (written : Bytes)
      → ((w : Bytes) → main_loop lib ts c ≡ some (inside c' out, w) → Ends ts c c' out w)
      → (s : Stage Json) (w : Bytes) → turn lib t c ≡ some (s, w)
      → continue lib (main_loop lib ts) (s, w) ≡ some (inside c' out, written)
      → Ends (t ∷ ts) c c' out written
  turn-Ends t ts c c' out written ih (outside d) w f g =
      let (r, a, b) = bind-eq-some (main_loop lib ts d) _ g in
      let h : (r.0, w ++ r.1) ≡ (inside c' out, written) = some-injective _ _ b in
      let same = turn-Unchanged lib t c (outside d) w f in
      let rest = ih r.1 (
        ap (main_loop lib ts) (sym same)
        ∙ a
        ∙ ap (λ (x : Stage Json × Bytes). some (x.0, r.1)) h) in
      subst (Ends (t ∷ ts) c c' out) (ap (λ (x : Stage Json × Bytes). x.1) h)
        (Ends-later t ts c c' out w r.1 rest)
  turn-Ends t ts c c' out written ih (inside d o) w f g = record {
    before = [];
    last = t;
    later = ts;
    split = refl;
    first = [];
    frame = written;
    parted = refl;
    lets = turn-Lets t c c' out written (f ∙ g);
  }
  turn-Ends t ts c c' out written ih (quits d) w f g = absurd (cc)
  turn-Ends t ts c c' out written ih sending w f g = absurd (cc)

  -- If the client's loop before the main menu leads into the menu, then after turns that left the
  -- client as it was there was a turn with choice 1. In it the login with the name and the
  -- password that were typed was written as a whole frame, the last that was written, and the
  -- client is what the response to it makes of the client from before the loop, by a response
  -- that lets it in.
  pub main_loop-Ends :
      (ts : List Turn) (c c' : Client Json) (out : List Json) (written : Bytes)
      → main_loop lib ts c ≡ some (inside c' out, written)
      → Ends ts c c' out written
  unfolding main_loop
  main_loop-Ends [] c c' out written e = absurd (cc)
  main_loop-Ends (t ∷ ts) c c' out written e =
      let (r, f, g) = bind-eq-some (turn lib t c) _ e in
      turn-Ends t ts c c' out written (λ w. main_loop-Ends ts c c' out w) r.0 r.1 f g
