-- ===== src/Crypto.antt =====
-- src/server/db/crypto.cpp. SHA256 belongs to OpenSSL: it is an argument.
pub mod Equality
mod Examples
use cluster_chatroom_project.Prelude.{
  ℕ, zero, suc, ◌+◌, ◌*◌, ◌/◌, ◌%◌, Bool, true, false, List, [], ◌∷◌, ◌++◌, Bytes, length, map, ltb,
  ◌==◌, if◌then◌else◌,
}

-- A bit of a byte, from the lowest on: `^` and `|` on the `f` lowest bits.
unfoldable pub xor : ℕ → ℕ → ℕ → ℕ
xor zero a b = 0
xor (suc f) a b = (if a % 2 == b % 2 then 0 else 1) + 2 * xor f (a / 2) (b / 2)

unfoldable pub or : ℕ → ℕ → ℕ → ℕ
or zero a b = 0
or (suc f) a b = (if a % 2 == 0 then b % 2 else 1) + 2 * or f (a / 2) (b / 2)

-- The loop of `safeEqual`, with its `diff`; the texts have one length.
unfoldable pub difference : ℕ → Bytes → Bytes → ℕ
difference diff (a ∷ xs) (b ∷ ys) = difference (or 8 diff (xor 8 a b)) xs ys
difference diff _ _ = diff

unfoldable pub safe_equal : Bytes → Bytes → Bool
safe_equal a b = if length a == length b then difference 0 a b == 0 else false

-- "0123456789abcdef"[d]
abbrev pub hex_digit : ℕ → ℕ
hex_digit d = if ltb d 10 then b'0' + d else 87 + d

unfoldable pub hex : Bytes → Bytes
hex [] = []
hex (c ∷ cs) = hex_digit (c / 16) ∷ hex_digit (c % 16) ∷ hex cs

unfoldable pub hash_password : (Bytes → Bytes) → Bytes → Bytes → Bytes
hash_password sha256 salt pwd = hex (sha256 (salt ++ pwd))

-- `makeSalt`, from the numbers that are drawn.
unfoldable pub make_salt : List ℕ → Bytes
make_salt draws = map hex_digit draws
