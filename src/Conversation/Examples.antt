-- ===== src/Conversation/Examples.antt =====
-- test/orderer_test.cpp's names, and the theorems at concrete inputs.
use mathlib.Core.Quot
use cluster_chatroom_project.Prelude.{◌≡◌, refl, codes}
use cluster_chatroom_project.Prelude.Int.{pos, negsuc}
use cluster_chatroom_project.Conversation.Decimal.{to_string}
use cluster_chatroom_project.Conversation.{p2p, group}
use cluster_chatroom_project.Conversation.Names.{p2p_comm}
use cluster_chatroom_project.Conversation.Talks.{private, name_injective}

p2p_name : p2p (pos 20) (pos 3) ≡ codes "p3_20"
unfolding p2p to_string
p2p_name = refl

group_name : group (negsuc 6) ≡ codes "g-7"
unfolding group to_string
group_name = refl

-- Users 20 and 3, and 3 and 20.
name_injective_example : private (Quot.mk (pos 20, pos 3)) ≡ private (Quot.mk (pos 3, pos 20))
name_injective_example =
    name_injective (private (Quot.mk (pos 20, pos 3))) (private (Quot.mk (pos 3, pos 20)))
      (p2p_comm (pos 20) (pos 3))
