-- ===== src/Client/Render/Shown.antt =====
-- src/client/main.cpp, `readTaskHandler`, over include/conversation_orderer.hpp: a message that was
-- typed elsewhere and comes next in its conversation.
mod Examples
use cluster_chatroom_project.Prelude.{
  ℕ, ◌+◌, ◌%◌, ◌<◌, ◌≡◌, refl, sym, subst, ap, ◌∙◌, true, false, Bool-cases, inl, inr, some, none,
  List, [], ◌∷◌, ◌++◌, append-nil, Bytes, codes, All, ltb, ◌||◌, ◌==◌, if◌then◌else◌, same_refl,
  arith,
}
use cluster_chatroom_project.Prelude.Int.{ℤ, pos}
use cluster_chatroom_project.Json.{JsonLib}
use cluster_chatroom_project.Orderer.Channel.{
  u64, Channel, contains, deliver, drain_loop, drain_pending, begin, accept, receive,
}
use cluster_chatroom_project.Orderer.Invariant.{Inv, contains-lt, deliver-pending}
use cluster_chatroom_project.Orderer.Conversations.{
  Orderer, channel, set_channel, tick, stamp, dispatch, on_message,
}
use cluster_chatroom_project.Orderer.Projection.{channel-set_channel}
use cluster_chatroom_project.Text.Integers.{IsInt}
use cluster_chatroom_project.Redis.Sequence.{incr_seq-lt}
use cluster_chatroom_project.Database.{User}
use cluster_chatroom_project.Service.{World, Machine}
use cluster_chatroom_project.Service.Numbering.{asked, Numbered}
use cluster_chatroom_project.Client.{Client, object}
use cluster_chatroom_project.Client.Commands.{sends, chat_fields, menu_line}
use cluster_chatroom_project.Client.Line.{typed, chat_name}
use cluster_chatroom_project.Client.Receive.{
  message_type, render, render_all, take_message, take_parsed, read_body,
}
use cluster_chatroom_project.Client.Render.{
  line_of, message_type-of_int, Numbered-find, menu_line-render,
}

fresh_number : (s : ℕ) (xs : List ℕ) → All (λ x. x < s) xs → contains s xs ≡ false
fresh_number s xs b = elim (Bool-cases (contains s xs)) [
  | inl e ↦ absurd (omega (arith, contains-lt s s xs b e))
  | inr e ↦ e
]

module _ {A : Type 0} where
  drain_nothing :
      (now : ℕ) (ch : Channel A)
      → ch.pending ≡ []
      → drain_pending now ch ≡ (record ch { pending = [] }, [])
  unfolding drain_pending drain_loop
  drain_nothing now ch p = rw p refl

  deliver-wraps : (ch : Channel A) (s : ℕ) → (deliver ch s).expect ≡ (s + 1) % u64
  unfolding deliver
  deliver-wraps ch s = refl

  begin_again : (s : ℕ) (ch : Channel A) → ch.initialized ≡ true → begin s ch ≡ ch
  unfolding begin
  begin_again s ch i =
      subst (λ b. (if b then ch else record ch { initialized = true; expect = s }) ≡ ch) (sym i)
        refl

  accept-next :
      (now s : ℕ) (js : A) (ch : Channel A)
      → Inv ch
      → ch.expect ≡ s
      → ch.pending ≡ []
      → accept now s js ch ≡ (record (deliver ch s) { pending = [] }, (s, js) ∷ [])
  unfolding accept
  accept-next now s js ch v e p =
      let c = fresh_number s ch.delivered (subst (λ n. All (λ x. x < n) ch.delivered) e v.behind) in
      let a : (ltb s ch.expect || contains s ch.delivered) ≡ false = ground (arith, c, e) in
      let b : (s == ch.expect) ≡ true = ground (arith, e) in
      rw (a, b, drain_nothing now (deliver ch s) (deliver-pending ch s ∙ p)) refl

  -- The number that is expected, with nothing in the buffer.
  receive-next :
      (now s : ℕ) (js : A) (ch : Channel A)
      → Inv ch
      → ch.initialized ≡ true
      → ch.expect ≡ s
      → ch.pending ≡ []
      → receive now s js ch ≡ (record (deliver ch s) { pending = [] }, (s, js) ∷ [])
  unfolding receive
  receive-next now s js ch v i e p =
      ap (accept now s js) (begin_again s ch i) ∙ accept-next now s js ch v e p

module _ (lib : JsonLib) where
  open lib use {Json, parse, dump, find, of_int, of_unsigned, of_string}

  on_message-next :
      (later s : ℕ) (conv : Bytes) (js : Json) (o : Orderer Json)
      → find js (codes "convid") ≡ some (of_string conv)
      → find js (codes "seq") ≡ some (of_unsigned s)
      → s < u64
      → Inv (channel conv o.channels)
      → (channel conv o.channels).initialized ≡ true
      → (channel conv o.channels).expect ≡ s
      → (channel conv o.channels).pending ≡ []
      → on_message lib later js o
        ≡ some (
          record o {
            channels =
                set_channel conv
                  (record (deliver (channel conv o.channels) s) { pending = [] })
                  o.channels;
          },
          js ∷ [],
        )
  unfolding on_message
  on_message-next later s conv js o f g l v i e p =
      let st : stamp lib js ≡ some (of_string conv, s) =
        unfold stamp in rw (f, g, lib.as_unsigned-of_unsigned s l) refl in
      rw
        (
          st,
          dispatch,
          lib.as_string-of_string conv,
          receive-next later s js (channel conv o.channels) v i e p,
        )
        refl

  read_body-next :
      (now later s : ℕ) (conv payload text : Bytes) (js : Json) (c : Client Json)
      → parse payload ≡ some js
      → message_type lib js ≡ some (pos 6)
      → render lib js ≡ some text
      → tick now c.orderer ≡ (c.orderer, [])
      → find js (codes "convid") ≡ some (of_string conv)
      → find js (codes "seq") ≡ some (of_unsigned s)
      → s < u64
      → Inv (channel conv c.orderer.channels)
      → (channel conv c.orderer.channels).initialized ≡ true
      → (channel conv c.orderer.channels).expect ≡ s
      → (channel conv c.orderer.channels).pending ≡ []
      → read_body lib now later payload c
        ≡ some (
          record c {
            orderer = record c.orderer {
              channels =
                  set_channel conv
                    (record (deliver (channel conv c.orderer.channels) s) { pending = [] })
                    c.orderer.channels;
            };
          },
          js ∷ [],
        )
  unfolding read_body take_parsed take_message render_all
  read_body-next now later s conv payload text js c q t r k f g l v i e p =
      let m = on_message-next later s conv js c.orderer f g l v i e p in rw (k, q, t, m, r) refl

  -- Given a friend's number that is an int, and a text for the number of the client's user: the
  -- line `chat:<number>:<text>` makes the client send a message. Given what a node has made of
  -- it, in whatever conversation, and a client whose gaps have not timed out, whose channel of
  -- the conversation is well formed, has begun, has an empty buffer and expects the number that
  -- the node has given: that client reads the message and calls for it, and for nothing else, to
  -- be shown, which writes the sender's time, the number, the sender's number and name, and the
  -- text as typed; and it expects the next number.
  pub menu_line-shown :
      (world : World) (conv payload : Bytes) (m : Machine world.sql.State) (js : Json) (user : User)
      (time text number : Bytes) (to : ℤ) (now later : ℕ) (c : Client Json)
      → IsInt to
      → dump (of_int user.id) ≡ some number
      → object lib (chat_fields lib user time to text) ≡ some js
      → (n : Numbered world lib conv m js payload) → tick now c.orderer ≡ (c.orderer, [])
      → Inv (channel conv c.orderer.channels)
      → (channel conv c.orderer.channels).initialized ≡ true
      → (channel conv c.orderer.channels).expect ≡ n.number
      → (channel conv c.orderer.channels).pending ≡ []
      → (c' : Client Json) × (menu_line lib user time (typed chat_name to text)
          ≡ sends (chat_fields lib user time to text))
        × (read_body lib now later payload c ≡ some (c', n.message ∷ []))
        × (render lib n.message ≡ some (line_of time n.number number user.name [] text))
        × ((channel conv c'.orderer.channels).expect ≡ (n.number + 1) % u64)
  unfolding chat_fields
  menu_line-shown world conv payload m js user time text number to now later c h d o n k v i e p =
      let (a, q, r) =
        menu_line-render lib world conv payload m js user time text number to h d o n in
      let t = message_type-of_int lib n.message (pos 6) (
        Numbered-find lib world conv payload m js (chat_fields lib user time to text)
          (codes "msgid") n o refl refl refl) in
      let l =
        subst (λ x. x < u64) (sym n.given) (incr_seq-lt conv (asked world lib conv m).1 m.redis) in
      let b =
        read_body-next now later n.number conv payload _ n.message c q t r k n.named n.numbered l v
          i e p in
      let ch = channel conv c.orderer.channels in
      let own =
        channel-set_channel conv conv (record (deliver ch n.number) { pending = [] })
          c.orderer.channels in
      (
        _,
        a,
        b,
        r,
        ap (λ (x : Channel Json). x.expect)
              (own
                ∙ ap (λ y. if y then record (deliver ch n.number) { pending = [] } else ch)
                    (same_refl conv))
            ∙ deliver-wraps ch n.number,
      )
