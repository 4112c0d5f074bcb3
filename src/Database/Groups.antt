-- ===== src/Database/Groups.antt =====
-- src/server/muduo/groupmodel.cpp.
use cluster_chatroom_project.Prelude.{
  Bool, true, false, Option, some, none, List, [], ◌∷◌, Bytes, codes, if◌then◌else◌,
}
use cluster_chatroom_project.Prelude.Int.{ℤ}
use cluster_chatroom_project.Conversation.Decimal.{to_string}
use cluster_chatroom_project.Effect.{Program, done, give, ◌>>=◌, each}
use cluster_chatroom_project.Database.{Sql, no_user, GroupUser, Group, call, connected}
use cluster_chatroom_project.Database.Rows.{stoi, column}

module _ (sql : Sql) where
  open sql use {State, execute_update, execute_query, last_insert_id, begin, commit, rollback}

  abbrev pub insert_group : Group → Program State Bool
  insert_group group = call sql (
      execute_update (codes "insert into AllGroup(groupname,groupdesc) values(?,?)")
        (group.name ∷ group.desc ∷ []))

  -- The group with the id that its row was given.
  abbrev pub with_id : Group → Program State Group
  with_id group s = (s, done (record group { id = last_insert_id s }))

  -- createGroup: the group with its new id, and whether it was stored.
  unfoldable pub create_group : Group → Program State (Group × Bool)
  create_group group =
      connected sql (group, false)
        do
          ok ← insert_group group
          if ok then (do stored ← with_id group; give (stored, true)) else give (group, false)

  -- The second insertion of the transaction.
  unfoldable pub insert_creator : ℤ → Group → Program State (Group × Bool)
  insert_creator creator group = do
    stored ← with_id group
    ok ← call sql (
        execute_update (codes "insert into GroupUser(groupid,userid,role) values(?,?,?)")
          (to_string stored.id ∷ to_string creator ∷ codes "creator" ∷ []))
    give (stored, ok)

  abbrev pub finish : Group × Bool → Program State (Group × Bool)
  finish r s = if r.1 then ((commit s).0, done r) else (rollback s, done r)

  -- The transaction: both insertions, or none.
  unfoldable pub insert_both : Group → ℤ → Program State (Group × Bool)
  insert_both group creator = do
    ok ← insert_group group
    r ← if ok then insert_creator creator group else give (group, false)
    finish r

  unfoldable pub create_group_with_creator : Group → ℤ → Program State (Group × Bool)
  create_group_with_creator group creator =
      connected sql (group, false)
        do
          started ← call sql begin
          if started then insert_both group creator else give (group, false)

  unfoldable pub add_group : ℤ → ℤ → Bytes → Program State Bool
  add_group userid groupid role = connected sql false (
      call sql (
        execute_update (codes "insert into GroupUser(groupid,userid,role) values(?,?,?)")
          (to_string groupid ∷ to_string userid ∷ role ∷ [])))

  unfoldable pub to_group : List Bytes → Program State Group
  to_group row = do
    id ← stoi (column 0 row)
    give (record { id = id; name = column 1 row; desc = column 2 row; users = [] })

  unfoldable pub to_group_user : List Bytes → Program State GroupUser
  to_group_user row = do
    id ← stoi (column 0 row)
    give (record {
      user = record no_user { id = id; name = column 1 row; state = column 2 row };
      role = column 3 row;
    })

  abbrev pub all :
      {A : Type 0}
      → (List Bytes → Program State A)
      → Option (List (List Bytes))
      → Program State (List A)
  all f none = give []
  all f (some rows) = each f rows

  -- A group with its members.
  unfoldable pub fill_group : Group → Program State Group
  fill_group group = do
    rows ← call sql (
        execute_query
          (codes
            "select a.id,a.name,a.state,b.role from User a inner join GroupUser b on a.id=b.userid where b.groupid=?")
          (to_string group.id ∷ []))
    users ← all to_group_user rows
    give (record group { users = users })

  unfoldable pub query_groups : ℤ → Program State (List Group)
  query_groups userid = connected sql [] do
    rows ← call sql (
        execute_query
          (codes
            "select a.id,a.groupname,a.groupdesc from AllGroup a inner join GroupUser b on a.id=b.groupid where b.userid=?")
          (to_string userid ∷ []))
    groups ← all to_group rows
    each fill_group groups

  abbrev pub first_number : List Bytes → Program State ℤ
  first_number row = stoi (column 0 row)

  unfoldable pub query_group_users : ℤ → ℤ → Program State (List ℤ)
  query_group_users userid groupid = connected sql [] do
    rows ← call sql (
        execute_query (codes "select userid from GroupUser where groupid=? and userid!=?")
          (to_string groupid ∷ to_string userid ∷ []))
    all first_number rows
