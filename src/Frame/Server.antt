-- ===== src/Frame/Server.antt =====
-- src/server/chatserver.cpp: `ChatServer::onMessage`. `S` is what the handlers act on.
pub mod Chunks
pub mod Pieces
pub mod Single
pub mod Keeps
use cluster_chatroom_project.Prelude.{
  ℕ, zero, suc, ◌+◌, ◌≡◌, Bool, true, false, ◌||◌, Option, some, none, List, [], ◌∷◌, ◌++◌, Bytes,
  codes, length, ◌>>=◌, if◌then◌else◌,
}
use cluster_chatroom_project.Prelude.Int.{ℤ}
use cluster_chatroom_project.Json.{JsonLib}
use cluster_chatroom_project.Frame.{Next, waits, illegal, frame, next_frame}

-- How a handler ends: it returns, a json::exception leaves it, or another std::exception.
pub data Outcome : Type 0 where
  returned threw_json threw_other : Outcome

-- The state, the buffer, and whether the connection was shut down.
pub record Served (S : Type 0) : Type 0 where
  pub state : S
  pub buffer : Bytes
  pub shut : Bool

module _ (lib : JsonLib) {S : Type 0} (handle : ℤ → lib.Json → S → S × Outcome) where
  open lib use {Json, parse, find, is_integer, as_int}

  -- `js["msgid"]` of a message that has an integer there; any other is ignored.
  unfoldable pub run_handler : Json → S → Option Json → S × Outcome
  run_handler js s none = (s, returned)
  run_handler js s (some field) =
      if is_integer field
      then (elim (as_int field) [ none ↦ (s, threw_json) | some msgid ↦ handle msgid js s ])
      else (s, returned)

  -- The try block: what becomes of one body.
  unfoldable pub handle_body : Bytes → S → S × Outcome
  unfolding run_handler
  handle_body body s = elim (parse body) [
    | none ↦ (s, threw_json)
    | some js ↦ run_handler js s (find js (codes "msgid"))
  ]

  -- The loop, on fuel; `none` means that the fuel ran out.
  unfoldable pub serve : ℕ → Bytes → S → Option (Served S)
  serve zero buffer s = none
  serve (suc f) buffer s = elim (next_frame buffer) [
    | waits ↦ some (record { state = s; buffer = buffer; shut = false })
    | illegal ↦ some (record { state = s; buffer = buffer; shut = true })
    | frame body rest ↦
        let r = handle_body body s in
        let more = serve f rest r.0 in
        elim r.1 [
          | returned ↦ more
          | threw_json ↦ some (record { state = r.0; buffer = rest; shut = true })
          | threw_other ↦ more
        ]
  ]

  -- One readable event. A frame takes five bytes, so the buffer's length is fuel enough.
  unfoldable pub on_message : Bytes → S → Option (Served S)
  on_message buffer s = serve (length buffer + 1) buffer s

  -- Readable events one after the other, each with the bytes that it adds to the buffer; a shutdown
  -- closes the writing side only, and does not end them.
  unfoldable pub on_messages : List Bytes → Bytes → S → Option (Served S)
  on_messages [] buffer s = some (record { state = s; buffer = buffer; shut = false })
  on_messages (chunk ∷ chunks) buffer s = do
    r ← on_message (buffer ++ chunk) s
    q ← on_messages chunks r.buffer r.state
    some (record q { shut = r.shut || q.shut })
