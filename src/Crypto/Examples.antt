-- ===== src/Crypto/Examples.antt =====
-- `safeEqual` at a concrete input.
use cluster_chatroom_project.Prelude.{◌≡◌, ◌↔◌, true, codes, arith}
use cluster_chatroom_project.Crypto.{safe_equal}
use cluster_chatroom_project.Crypto.Equality.{safe_equal_iff}

safe_equal_iff_example : (safe_equal (codes "ab") (codes "aB") ≡ true) ↔ (codes "ab" ≡ codes "aB")
safe_equal_iff_example = safe_equal_iff (codes "ab") (codes "aB") (omega arith) (omega arith)
