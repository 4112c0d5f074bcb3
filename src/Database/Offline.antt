-- ===== src/Database/Offline.antt =====
-- src/server/muduo/offlinemessagemodel.cpp.
use cluster_chatroom_project.Prelude.{
  ℕ, Bool, false, Option, some, none, List, [], ◌∷◌, Bytes, codes, map,
}
use cluster_chatroom_project.Prelude.Int.{ℤ, pos}
use cluster_chatroom_project.Conversation.Decimal.{to_string}
use cluster_chatroom_project.Json.{JsonLib}
use cluster_chatroom_project.Effect.{Program, give, ◌>>=◌}
use cluster_chatroom_project.Database.{Sql, call, connected}
use cluster_chatroom_project.Database.Rows.{column}

module _ (lib : JsonLib) where
  open lib use {Json, parse, find, as_string, as_unsigned}

  abbrev pub text_or_empty : Option Json → Bytes
  text_or_empty none = []
  text_or_empty (some field) = elim (as_string field) [ none ↦ [] | some text ↦ text ]

  abbrev pub number_or_zero : Option Json → ℕ
  number_or_zero none = 0
  number_or_zero (some field) = elim (as_unsigned field) [ none ↦ 0 | some n ↦ n ]

  -- The columns convid and seq of a message.
  unfoldable pub columns_of : Bytes → Bytes × ℕ
  columns_of msg = elim (parse msg) [
    | none ↦ ([], 0)
    | some j ↦ (text_or_empty (find j (codes "convid")), number_or_zero (find j (codes "seq")))
  ]

  module _ (sql : Sql) where
    open sql use {State, execute_update, execute_query}

    -- Whether the row was stored, which the source does not look at; `none` where there was no
    -- connection, and nothing was asked.
    unfoldable pub insert_message : ℤ → Bytes → Program State (Option Bool)
    insert_message userid msg = connected sql none do
      let (convid, seq) = columns_of msg
      ok ← call sql (
          execute_update
            (codes "insert into OfflineMessage(userid,convid,seq,message) values(?,?,?,?)")
            (to_string userid ∷ convid ∷ to_string (pos seq) ∷ msg ∷ []))
      give (some ok)

    unfoldable pub remove_messages : ℤ → Program State Bool
    remove_messages userid = connected sql false (
        call sql (
          execute_update (codes "delete from OfflineMessage where userid=?")
            (to_string userid ∷ [])))

    abbrev pub first_columns : Option (List (List Bytes)) → List Bytes
    first_columns none = []
    first_columns (some rows) = map (column 0) rows

    unfoldable pub query_messages : ℤ → Program State (List Bytes)
    query_messages userid = connected sql [] do
      rows ← call sql (
          execute_query
            (codes
              "select message from OfflineMessage where userid=? order by convid asc, seq asc, id asc")
            (to_string userid ∷ []))
      give (first_columns rows)
