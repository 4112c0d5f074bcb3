-- ===== src/Client/Overview/Examples.antt =====
-- A run of `showCurrentUserData`.
use cluster_chatroom_project.Prelude.{◌≡◌, refl, [], ◌∷◌, codes}
use cluster_chatroom_project.Prelude.Int.{pos}
use cluster_chatroom_project.Conversation.Decimal.{to_string}
use cluster_chatroom_project.Database.{User, no_user, Group}
use cluster_chatroom_project.Client.Overview.{
  friend_line, friend_lines, group_lines, each_group, member_line,
}

abbrev ann : User
ann = record no_user { id = pos 3; name = codes "ann"; password = codes "secret" }

friend_lines_example : friend_lines (ann ∷ []) ≡ codes "3:ann:offline" ∷ []
unfolding friend_lines friend_line to_string
friend_lines_example = refl

abbrev band : Group
band = record {
  id = pos 8;
  name = codes "band";
  desc = codes "noise";
  users = record { user = ann; role = codes "creator" } ∷ [];
}

group_lines_example :
    group_lines (band ∷ []) ≡ codes "8:band:noise" ∷ codes "3:ann:offline:creator" ∷ []
unfolding group_lines each_group member_line to_string
group_lines_example = refl
