-- ===== src/Client/Overview.antt =====
-- src/client/main.cpp, `showCurrentUserData`: what is printed at a login.
mod Examples
use cluster_chatroom_project.Prelude.{◌≡◌, refl, ap, List, [], ◌∷◌, ◌++◌, map, Bytes, codes}
use cluster_chatroom_project.Conversation.Decimal.{to_string}
use cluster_chatroom_project.Database.{User, GroupUser, Group}
use cluster_chatroom_project.Client.{Client}
use cluster_chatroom_project.Client.Lists.Read.{public_user, public_member, public_group}
use cluster_chatroom_project.Client.Welcome.{replaced}

-- The first two fields of a line, and what follows them.
abbrev three : Bytes → Bytes → Bytes → Bytes
three a b c = a ++ b':' ∷ b ++ b':' ∷ c

unfoldable pub friend_line : User → Bytes
friend_line u = three (to_string u.id) u.name u.state

unfoldable pub member_line : GroupUser → Bytes
member_line u = three (to_string u.user.id) u.user.name (u.user.state ++ b':' ∷ u.role)

unfoldable pub friend_lines : List User → List Bytes
friend_lines [] = codes "you have no friend!" ∷ []
friend_lines (u ∷ us) = map friend_line (u ∷ us)

unfoldable pub each_group : List Group → List Bytes
each_group [] = []
each_group (g ∷ gs) =
    three (to_string g.id) g.name g.desc ∷ map member_line g.users ++ each_group gs

unfoldable pub group_lines : List Group → List Bytes
group_lines [] = codes "you have no group!" ∷ []
group_lines (g ∷ gs) = each_group (g ∷ gs)

-- The lines, without their ends.
unfoldable pub show_current_user_data : {J : Type 0} → Client J → List Bytes
show_current_user_data c =
    codes "==================login user================="
      ∷ (codes "current login user => id:: " ++ to_string c.user.id)
      ∷ (codes "current login user => name:: " ++ c.user.name)
      ∷ (codes "current login user => state:: " ++ c.user.state)
      ∷ codes "------------------friend list-----------------"
      ∷ friend_lines c.friends
    ++ codes "-----------------group list-----------------" ∷ group_lines c.groups
    ++ codes "=================================================" ∷ []

map-friend_line-public :
    (us : List User) → map friend_line (map public_user us) ≡ map friend_line us
unfolding friend_line
map-friend_line-public [] = refl
map-friend_line-public (u ∷ us) = ap (λ r. friend_line u ∷ r) (map-friend_line-public us)

map-member_line-public :
    (us : List GroupUser) → map member_line (map public_member us) ≡ map member_line us
unfolding member_line
map-member_line-public [] = refl
map-member_line-public (u ∷ us) = ap (λ r. member_line u ∷ r) (map-member_line-public us)

friend_lines-public :
    (us : List User) → friend_lines (replaced (map public_user us) []) ≡ friend_lines us
unfolding friend_lines
friend_lines-public [] = refl
friend_lines-public (u ∷ us) = map-friend_line-public (u ∷ us)

each_group-public : (gs : List Group) → each_group (map public_group gs) ≡ each_group gs
unfolding each_group
each_group-public [] = refl
each_group-public (g ∷ gs) = rw (map-member_line-public g.users, each_group-public gs) refl

group_lines-public :
    (gs : List Group) → group_lines (replaced (map public_group gs) []) ≡ group_lines gs
unfolding group_lines
group_lines-public [] = refl
group_lines-public (g ∷ gs) = each_group-public (g ∷ gs)

-- A client that had no friends and no groups prints those that it was told of as the rows that the
-- database gave the server would be printed, though it was not told their passwords.
pub show_current_user_data-public :
    {J : Type 0} (c : Client J) (friends : List User) (groups : List Group)
    → show_current_user_data (record c {
      friends = replaced (map public_user friends) [];
      groups = replaced (map public_group groups) [];
    })
      ≡ show_current_user_data (record c { friends = friends; groups = groups })
unfolding show_current_user_data
show_current_user_data-public c friends groups =
    rw (friend_lines-public friends, group_lines-public groups) refl
