-- ===== src/Frame.antt =====
-- The wire format, `[4-byte big-endian length][body]`: `sendWithHeader` and the framing of
-- `onMessage` in src/server/chatserver.cpp, `sendFrame` and `recvFrame` in src/client/main.cpp.
pub mod Header
pub mod Stream
pub mod Server
mod Examples
use cluster_chatroom_project.Prelude.{
  ℕ, ◌+◌, ◌*◌, ◌/◌, ◌%◌, ◌^◌, Bool, true, false, ◌||◌, Option, some, none, List, [], ◌∷◌, ◌++◌,
  Bytes, length, take, drop, ltb, ◌==◌, if◌then◌else◌,
}

abbrev pub header_len : ℕ
header_len = 4

abbrev pub max_frame_len : ℕ
max_frame_len = 64 * 1024

-- htonl of a uint32_t, byte by byte, and its reading back.
unfoldable pub be32 : ℕ → Bytes
be32 n = (n / 2 ^ 24 % 256) ∷ (n / 2 ^ 16 % 256) ∷ (n / 2 ^ 8 % 256) ∷ (n % 256) ∷ []

unfoldable pub from_be32 : Bytes → ℕ
from_be32 (a ∷ b ∷ c ∷ d ∷ rest) = a * 2 ^ 24 + b * 2 ^ 16 + c * 2 ^ 8 + d
from_be32 _ = 0

-- The frame that is sent for a body, of whatever length.
unfoldable pub encode : Bytes → Bytes
encode body = be32 (length body) ++ body

-- A buffer's beginning: less than a frame, a length out of bounds, or a body and what follows it.
pub data Next : Type 0 where
  waits : Next
  illegal : Next
  frame : Bytes → Bytes → Next

unfoldable pub next_frame : Bytes → Next
next_frame buffer =
    if ltb (length buffer) header_len
    then waits
    else (let n = from_be32 buffer in
        if n == 0 || ltb max_frame_len n
        then illegal
        else if ltb (length buffer) (header_len + n)
        then waits
        else frame (take n (drop header_len buffer)) (drop n (drop header_len buffer)))

-- What `recvFrame` has at its end: the body, unless it failed, the buffer, and what is yet to come.
pub record Received : Type 0 where
  pub body : Option Bytes
  pub buffer : Bytes
  pub coming : List Bytes

-- `recvFrame`: each entry of the list is what one call of recv gives, and an empty one stands for a
-- result that is not positive.
unfoldable pub recv_frame : Bytes → List Bytes → Received
recv_frame buffer [] = elim (next_frame buffer) [
  | waits ↦ record { body = none; buffer = buffer; coming = [] }
  | illegal ↦ record { body = none; buffer = []; coming = [] }
  | frame b rest ↦ record { body = some b; buffer = rest; coming = [] }
]
recv_frame buffer (chunk ∷ chunks) = elim (next_frame buffer) [
  | waits ↦ elim chunk [
    | [] ↦ record { body = none; buffer = buffer; coming = chunks }
    | c ∷ cs ↦ recv_frame (buffer ++ c ∷ cs) chunks
  ]
  | illegal ↦ record { body = none; buffer = []; coming = chunk ∷ chunks }
  | frame b rest ↦ record { body = some b; buffer = rest; coming = chunk ∷ chunks }
]
