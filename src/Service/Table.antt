-- ===== src/Service/Table.antt =====
-- src/server/chatservice.cpp: `_userConnMap` as a table from users to connections.
use cluster_chatroom_project.Prelude.{
  ℕ, ◌≡◌, ◌≢◌, refl, ap, ◌∙◌, ◌⊎◌, inl, inr, ◌++◌, All, Option, some, none, List, [], ◌∷◌, if_rule,
  if◌then◌else◌, ◌==◌, arith,
}
use cluster_chatroom_project.Prelude.Int.{ℤ, negsuc, eqb_ℤ, eqb_ℤ_iff}
use cluster_chatroom_project.Service.{find_conn, insert_conn, erase_conn}
use cluster_chatroom_project.Service.Accounts.{take_conn}

-- No user is in the table twice.
abbrev pub IsTable : List (ℤ × ℕ) → Type 0
IsTable [] = Unit
IsTable ((i, c) ∷ rest) = (find_conn i rest ≡ none) × IsTable rest

abbrev pub or_else : Option ℕ → ℕ → ℕ
or_else none c = c
or_else (some d) c = d

insert_conn-find :
    (id j : ℤ) (c : ℕ) (l : List (ℤ × ℕ))
    → find_conn j (insert_conn id c l)
      ≡ (if eqb_ℤ id j then some (or_else (find_conn id l) c) else find_conn j l)
unfolding find_conn insert_conn
insert_conn-find id j c [] = ground arith
insert_conn-find id j c ((i, d) ∷ l) =
    ground (arith, insert_conn-find id j c l, eqb_ℤ_iff i id, eqb_ℤ_iff i j, eqb_ℤ_iff id j)

pub insert_conn-IsTable :
    (id : ℤ) (c : ℕ) (l : List (ℤ × ℕ)) → IsTable l → IsTable (insert_conn id c l)
unfolding insert_conn find_conn
insert_conn-IsTable id c [] t = (refl, tt)
insert_conn-IsTable id c ((i, d) ∷ l) t =
    if_rule IsTable (eqb_ℤ i id) (λ _. t)
      (λ n. (
        insert_conn-find id i c l ∙ ground (arith, t.0, eqb_ℤ_iff i id, eqb_ℤ_iff id i),
        insert_conn-IsTable id c l t.1,
      ))

erase_conn-find :
    (id j : ℤ) (l : List (ℤ × ℕ))
    → IsTable l
    → find_conn j (erase_conn id l) ≡ (if eqb_ℤ id j then none else find_conn j l)
unfolding find_conn erase_conn
erase_conn-find id j [] t = ground arith
erase_conn-find id j ((i, c) ∷ l) t =
    ground (arith, erase_conn-find id j l t.1, eqb_ℤ_iff i id, eqb_ℤ_iff i j, eqb_ℤ_iff id j, t.0)

pub erase_conn-IsTable : (id : ℤ) (l : List (ℤ × ℕ)) → IsTable l → IsTable (erase_conn id l)
unfolding erase_conn
erase_conn-IsTable id [] t = tt
erase_conn-IsTable id ((i, c) ∷ l) t =
    if_rule IsTable (eqb_ℤ i id) (λ _. t.1)
      (λ n. (erase_conn-find id i l t.1 ∙ ground (arith, t.0), erase_conn-IsTable id l t.1))

-- What the loop of `clientCloseException` gives for connection `c`: no entry has it, the user is -1
-- and all entries stay; or the first entry that has it is taken out.
abbrev pub Takes : ℕ → List (ℤ × ℕ) → ℤ × List (ℤ × ℕ) → Type 0
Takes c l (id, others) =
    ((id ≡ negsuc 0) × (others ≡ l) × All (λ (e : ℤ × ℕ). e.1 ≢ c) l)
    ⊎ ((before after : List (ℤ × ℕ)) × (l ≡ before ++ (id, c) ∷ after)
        × (others ≡ before ++ after)
        × All (λ (e : ℤ × ℕ). e.1 ≢ c) before)

Takes-later :
    (c d : ℕ) (i : ℤ) (l : List (ℤ × ℕ)) (r : ℤ × List (ℤ × ℕ))
    → d ≢ c
    → Takes c l r
    → Takes c ((i, d) ∷ l) (r.0, (i, d) ∷ r.1)
Takes-later c d i l r n (inl (e, o, a)) = inl (e, ap (λ k. (i, d) ∷ k) o, (n, a))
Takes-later c d i l r n (inr (before, after, e, o, a)) =
    inr ((i, d) ∷ before, after, ap (λ k. (i, d) ∷ k) e, ap (λ k. (i, d) ∷ k) o, (n, a))

-- When a connection closes, and no entry of the table has it, then no user is found and the table
-- stays; otherwise the first entry with that connection is taken out, its user is the one that is
-- found, and all other entries stay in their order, also later ones with that connection.
pub take_conn-Takes : (c : ℕ) (l : List (ℤ × ℕ)) → Takes c l (take_conn c l)
unfolding take_conn
take_conn-Takes c [] = inl (refl, refl, tt)
take_conn-Takes c ((i, d) ∷ l) =
    if_rule {A = ℤ × List (ℤ × ℕ)} (Takes c ((i, d) ∷ l)) (d == c)
      (λ e. let same : d ≡ c = ground arith in inr ([], l, ap (λ k. (i, k) ∷ l) same, refl, tt))
      (λ n. Takes-later c d i l (take_conn c l) (ground arith) (take_conn-Takes c l))

take_conn-find_none :
    (c : ℕ) (j : ℤ) (l : List (ℤ × ℕ)) → find_conn j l ≡ none → find_conn j (take_conn c l).1 ≡ none
unfolding take_conn find_conn
take_conn-find_none c j [] h = refl
take_conn-find_none c j ((i, d) ∷ l) h = ground (arith, take_conn-find_none c j l)

pub take_conn-IsTable : (c : ℕ) (l : List (ℤ × ℕ)) → IsTable l → IsTable (take_conn c l).1
unfolding take_conn
take_conn-IsTable c [] t = tt
take_conn-IsTable c ((i, d) ∷ l) t =
    if_rule {A = ℤ × List (ℤ × ℕ)} (λ r. IsTable r.1) (d == c) (λ _. t.1)
      (λ n. (take_conn-find_none c i l t.0, take_conn-IsTable c l t.1))
