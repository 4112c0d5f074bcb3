-- ===== src/Client/Welcome/Fields.antt =====
-- src/server/chatservice.cpp, `login`: what its calls do to the fields of the response.
use cluster_chatroom_project.Prelude.{
  ◌≡◌, sym, ap, ◌∙◌, Bool, false, Option, some, none, List, [], ◌∷◌, Bytes, codes, same, same_refl,
  if◌then◌else◌, arith,
}
use cluster_chatroom_project.Prelude.Int.{ℤ, pos}
use cluster_chatroom_project.Json.{JsonLib}
use cluster_chatroom_project.Effect.{Program, done, go_on-done}
use cluster_chatroom_project.Database.Offline.{remove_messages}
use cluster_chatroom_project.Service.{World, Machine, in_world, set_field, subscribe}
use cluster_chatroom_project.Service.Sorting.{sort_offline_messages}
use cluster_chatroom_project.Service.Accounts.Login as Server
use cluster_chatroom_project.Client.Lists.Read.{or_throw-gives}

module _ (lib : JsonLib) where
  open lib use {Json, of_strings}

  -- The field for a list of texts: none for no texts.
  abbrev pub texts_field : List Bytes → Option Json
  texts_field [] = none
  texts_field (t ∷ ts) = some (of_strings (t ∷ ts))

  abbrev pub offline_field : List Bytes → Option Json
  offline_field [] = none
  offline_field (t ∷ ts) = some (of_strings (sort_offline_messages lib (t ∷ ts)))

module _ (world : World) (lib : JsonLib) where
  open world use {sql}
  open lib use {Json, dump, find, set, of_int, of_string, of_strings}

  pub set_field-done :
      (k : Bytes) (v js j : Json) (m m' : Machine sql.State)
      → set_field world lib k v js m ≡ (m', done j)
      → (find j k ≡ some v)
        × ((i : Bytes) → same k i ≡ false → find j i ≡ find js i)
        × (m'.sent ≡ m.sent)
  set_field-done k v js j m m' e =
      let (o, x) = or_throw-gives world lib (set js k v) m m' j e in
      (
        lib.find-set js j v k k o ∙ ap (λ b. if b then some v else find js k) (same_refl k),
        λ i n. lib.find-set js j v k i o ∙ ap (λ b. if b then some v else find js i) n,
        ap Machine.sent x,
      )

  pub set_texts-done :
      (k : Bytes) (ts : List Bytes) (js j : Json) (m m' : Machine sql.State)
      → Server.set_texts world lib k ts js m ≡ (m', done j)
      → find js k ≡ none
      → (find j k ≡ texts_field lib ts)
        × ((i : Bytes) → same k i ≡ false → find j i ≡ find js i)
        × (m'.sent ≡ m.sent)
  unfolding Server.set_texts
  set_texts-done k [] js j m m' e n =
      let x : js ≡ j = ground arith in
      (
        ap (λ t. find t k) (sym x) ∙ n,
        λ i _. ap (λ t. find t i) (sym x),
        ap (λ r. r.0.sent) (sym e),
      )
  set_texts-done k (t ∷ ts) js j m m' e n = set_field-done k (of_strings (t ∷ ts)) js j m m' e

  pub take_offline-done :
      (id : ℤ) (ms : List Bytes) (js j : Json) (m m' : Machine sql.State)
      → Server.take_offline world lib id js ms m ≡ (m', done j)
      → find js (codes "offlinemsg") ≡ none
      → (find j (codes "offlinemsg") ≡ offline_field lib ms)
        × ((i : Bytes) → same (codes "offlinemsg") i ≡ false → find j i ≡ find js i)
        × (m'.sent ≡ m.sent)
  unfolding Server.take_offline
  take_offline-done id [] js j m m' e n =
      let x : js ≡ j = ground arith in
      (
        ap (λ t. find t (codes "offlinemsg")) (sym x) ∙ n,
        λ i _. ap (λ t. find t i) (sym x),
        ap (λ r. r.0.sent) (sym e),
      )
  take_offline-done id (t ∷ ts) js j m m' e n =
      let v = of_strings (sort_offline_messages lib (t ∷ ts)) in
      let (n1, j1, e1, r1) = go_on-done (set_field world lib (codes "offlinemsg") v js m) _ e in
      let (n2, u, e2, r2) = go_on-done (in_world world (remove_messages lib sql id) n1) _ r1 in
      let (a, b, c) = set_field-done (codes "offlinemsg") v js j1 m n1 e1 in
      let x : j1 ≡ j = ground arith in
      (
        ap (λ t. find t (codes "offlinemsg")) (sym x) ∙ a,
        λ i h. ap (λ t. find t i) (sym x) ∙ b i h,
        sym (ap (λ r. r.0.sent) r2) ∙ sym (ap (λ r. r.0.sent) e2) ∙ c,
      )

  pub subscribe-sent :
      (id : ℤ) (m m' : Machine sql.State) (o : Option Bool)
      → subscribe world id m ≡ (m', done o)
      → m'.sent ≡ m.sent
  unfolding subscribe
  subscribe-sent id m m' o e = sym (ap (λ r. r.0.sent) e)

  pub in_world-sent :
      {A : Type 0} (p : Program sql.State A) (m m' : Machine sql.State) (a : A)
      → in_world world p m ≡ (m', done a)
      → m'.sent ≡ m.sent
  in_world-sent p m m' a e = sym (ap (λ r. r.0.sent) e)

  pub acknowledge-done :
      (m m' : Machine sql.State) (j : Json)
      → Server.acknowledge world lib (pos 0) m ≡ (m', done j)
      → (find j (codes "errno") ≡ some (of_int (pos 0)))
        × ((i : Bytes)
            → same (codes "msgid") i ≡ false
            → same (codes "errno") i ≡ false
            → find j i ≡ none)
        × (m'.sent ≡ m.sent)
  unfolding Server.acknowledge
  acknowledge-done m m' j e =
      let (n1, j1, e1, r1) =
        go_on-done (set_field world lib (codes "msgid") (of_int (pos 2)) lib.null m) _ e in
      let (a, b, c) = set_field-done (codes "msgid") (of_int (pos 2)) lib.null j1 m n1 e1 in
      let (a', b', c') = set_field-done (codes "errno") (of_int (pos 0)) j1 j n1 m' r1 in
      (a', λ i h h'. b' i h' ∙ b i h ∙ lib.find-null i, c' ∙ c)
