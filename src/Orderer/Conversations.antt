-- ===== src/Orderer/Conversations.antt =====
-- include/conversation_orderer.hpp: `ConversationOrderer`, the channels of all conversations.
-- What `_emit` is called with is returned, in order. The unordered map is a list of entries: a new
-- conversation stands last, and the loops visit the entries in the list's order.
use cluster_chatroom_project.Prelude.{
  ℕ, Option, some, none, List, [], ◌∷◌, ◌++◌, Bytes, codes, same, if◌then◌else◌, ◌>>=◌,
}
use cluster_chatroom_project.Json.{JsonLib}
use cluster_chatroom_project.Orderer.Channel.{Channel, fresh, receive, expire, flush}

pub record Orderer (J : Type 0) : Type 0 where
  pub channels : List (Bytes × Channel J)
  pub gap_timeout : ℕ

module _ {J : Type 0} where
  -- `_channels[conv]`: a missing entry is a fresh channel.
  unfoldable pub channel : Bytes → List (Bytes × Channel J) → Channel J
  channel conv [] = fresh
  channel conv ((c, ch) ∷ rest) = if same c conv then ch else channel conv rest

  unfoldable pub set_channel :
      Bytes → Channel J → List (Bytes × Channel J) → List (Bytes × Channel J)
  set_channel conv ch [] = (conv, ch) ∷ []
  set_channel conv ch ((c, old) ∷ rest) =
      if same c conv then (c, ch) ∷ rest else (c, old) ∷ set_channel conv ch rest

  -- The messages of the calls of `deliver`.
  abbrev pub messages : List (ℕ × J) → List J
  messages [] = []
  messages ((s, js) ∷ out) = js ∷ messages out

  -- A loop over all channels, each with what it delivers.
  unfoldable pub each :
      (Channel J → Channel J × List (ℕ × J))
      → List (Bytes × Channel J)
      → List (Bytes × Channel J) × List J
  each f [] = ([], [])
  each f ((c, ch) ∷ rest) =
      let (ch', out) = f ch in
      let (rest', outs) = each f rest in ((c, ch') ∷ rest', messages out ++ outs)

  unfoldable pub tick : ℕ → Orderer J → Orderer J × List J
  tick now o =
      let (channels, out) = each (expire o.gap_timeout now) o.channels in
      (record o { channels = channels }, out)

  unfoldable pub flush_all : ℕ → Orderer J → Orderer J × List J
  flush_all now o =
      let (channels, out) = each (flush now) o.channels in (record o { channels = channels }, out)

module _ (lib : JsonLib) where
  open lib use {Json, find, as_unsigned, as_string}

  -- The conversation's field and the number of a message that has both.
  unfoldable pub stamp : Json → Option (Json × ℕ)
  stamp js = do
    c ← find js (codes "convid")
    s ← find js (codes "seq")
    n ← as_unsigned s
    some (c, n)

  -- Behind the test of the fields; a `convid` that is no string throws.
  unfoldable pub dispatch :
      ℕ → Json → Orderer Json → Option (Json × ℕ) → Option (Orderer Json × List Json)
  dispatch now js o none = some (o, js ∷ [])
  dispatch now js o (some (c, seq)) = do
    conv ← as_string c
    let r = receive now seq js (channel conv o.channels)
    some (record o { channels = set_channel conv r.0 o.channels }, messages r.1)

  unfoldable pub on_message : ℕ → Json → Orderer Json → Option (Orderer Json × List Json)
  unfolding stamp dispatch
  on_message now js o = dispatch now js o (stamp js)

  unfoldable pub on_messages : List (ℕ × Json) → Orderer Json → Option (Orderer Json × List Json)
  on_messages [] o = some (o, [])
  on_messages ((now, js) ∷ msgs) o = do
    r ← on_message now js o
    rs ← on_messages msgs r.0
    some (rs.0, r.1 ++ rs.1)

  -- Each message with the clock's reading when its turn comes; `now` is the reading at the end.
  unfoldable pub on_offline_batch :
      ℕ → List (ℕ × Json) → Orderer Json → Option (Orderer Json × List Json)
  on_offline_batch now msgs o = do
    r ← on_messages msgs o
    let s = flush_all now r.0
    some (s.0, r.1 ++ s.1)
