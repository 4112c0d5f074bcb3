-- ===== src/Service/Evolves.antt =====
-- src/server/chatservice.cpp: what becomes of a node's state along the run of its handlers.
pub mod Calls
pub mod Messages
pub mod Accounts
pub mod Entering
pub mod Whole
use cluster_chatroom_project.Prelude.{
  ℕ, ◌≡◌, refl, sym, ap, ◌∙◌, ◌⊎◌, inl, inr, true, false, List, [], ◌∷◌, ◌++◌, append_assoc,
  append-nil, All, Bool, Bool-cases, if_rule, ◌==◌,
}
use cluster_chatroom_project.Prelude.Int.{ℤ, eqb_ℤ}
use cluster_chatroom_project.Service.{Machine, Sent, insert_conn, erase_conn}
use cluster_chatroom_project.Service.Accounts.{take_conn}
use cluster_chatroom_project.Service.Table.{
  IsTable, insert_conn-IsTable, erase_conn-IsTable, take_conn-IsTable,
}

abbrev pub IsIn : ℤ × ℕ → List (ℤ × ℕ) → Type 0
IsIn e [] = ⊥
IsIn e (x ∷ xs) = (e ≡ x) ⊎ IsIn e xs

-- Each entry was there before, or is one that `P` admits.
abbrev pub Comes : (ℤ → ℕ → Type 0) → List (ℤ × ℕ) → List (ℤ × ℕ) → Type 0
Comes P old new = All (λ e. IsIn e old ⊎ P e.0 e.1) new

-- Once Redis was given up, it stays so.
abbrev pub StaysLost : {W : Type 0} → Machine W → Machine W → Type 0
StaysLost m m' = (m.redis.redis_available ≡ true) ⊎ (m'.redis.redis_available ≡ false)

-- What was sent stays sent.
abbrev pub Grows : {W : Type 0} → Machine W → Machine W → Type 0
Grows m m' = (more : List Sent) × (m'.sent ≡ m.sent ++ more)

pub record Evolves {W : Type 0} (P : ℤ → ℕ → Type 0) (m m' : Machine W) : Type 0 where
  pub table : IsTable m.conns → IsTable m'.conns
  pub comes : Comes P m.conns m'.conns
  pub grows : Grows m m'
  pub lost : StaysLost m m'

module _ (P : ℤ → ℕ → Type 0) where
  Comes-cons : (x : ℤ × ℕ) (old new : List (ℤ × ℕ)) → Comes P old new → Comes P (x ∷ old) new
  Comes-cons x old [] h = tt
  Comes-cons x old (e ∷ new) (inl i, h) = (inl (inr i), Comes-cons x old new h)
  Comes-cons x old (e ∷ new) (inr p, h) = (inr p, Comes-cons x old new h)

  pub Comes-refl : (l : List (ℤ × ℕ)) → Comes P l l
  Comes-refl [] = tt
  Comes-refl (x ∷ l) = (inl (inl refl), Comes-cons x l l (Comes-refl l))

  Comes-IsIn :
      (e : ℤ × ℕ) (old new : List (ℤ × ℕ)) → Comes P old new → IsIn e new → IsIn e old ⊎ P e.0 e.1
  Comes-IsIn e old [] h i = elim i [ ]
  Comes-IsIn e old (x ∷ new) h (inl q) = rw q h.0
  Comes-IsIn e old (x ∷ new) h (inr i) = Comes-IsIn e old new h.1 i

  Comes-trans : (a b c : List (ℤ × ℕ)) → Comes P a b → Comes P b c → Comes P a c
  Comes-trans a b [] h k = tt
  Comes-trans a b (e ∷ c) h (inl i, k) = (Comes-IsIn e a b h i, Comes-trans a b c h k)
  Comes-trans a b (e ∷ c) h (inr p, k) = (inr p, Comes-trans a b c h k)

  pub insert_conn-Comes :
      (id : ℤ) (c : ℕ) (l : List (ℤ × ℕ)) → P id c → Comes P l (insert_conn id c l)
  unfolding insert_conn
  insert_conn-Comes id c [] p = (inr p, tt)
  insert_conn-Comes id c ((i, d) ∷ l) p =
      if_rule (Comes P ((i, d) ∷ l)) (eqb_ℤ i id) (λ _. Comes-refl ((i, d) ∷ l))
        (λ _.
          (inl (inl refl), Comes-cons (i, d) l (insert_conn id c l) (insert_conn-Comes id c l p)))

  pub erase_conn-Comes : (id : ℤ) (l : List (ℤ × ℕ)) → Comes P l (erase_conn id l)
  unfolding erase_conn
  erase_conn-Comes id [] = tt
  erase_conn-Comes id ((i, d) ∷ l) =
      if_rule (Comes P ((i, d) ∷ l)) (eqb_ℤ i id) (λ _. Comes-cons (i, d) l l (Comes-refl l))
        (λ _. (inl (inl refl), Comes-cons (i, d) l (erase_conn id l) (erase_conn-Comes id l)))

  pub take_conn-Comes : (c : ℕ) (l : List (ℤ × ℕ)) → Comes P l (take_conn c l).1
  unfolding take_conn
  take_conn-Comes c [] = tt
  take_conn-Comes c ((i, d) ∷ l) =
      if_rule {A = ℤ × List (ℤ × ℕ)} (λ r. Comes P ((i, d) ∷ l) r.1) (d == c)
        (λ _. Comes-cons (i, d) l l (Comes-refl l))
        (λ _. (inl (inl refl), Comes-cons (i, d) l (take_conn c l).1 (take_conn-Comes c l)))

  StaysLost-refl : {W : Type 0} (m : Machine W) → StaysLost m m
  StaysLost-refl m = Bool-cases m.redis.redis_available

  StaysLost-trans : {W : Type 0} (a b c : Machine W) → StaysLost a b → StaysLost b c → StaysLost a c
  StaysLost-trans a b c (inl e) k = inl e
  StaysLost-trans a b c (inr e) (inl k) = cc
  StaysLost-trans a b c (inr e) (inr k) = inr k

  Grows-trans : {W : Type 0} (a b c : Machine W) → Grows a b → Grows b c → Grows a c
  Grows-trans a b c (x, e) (y, f) = (x ++ y, f ∙ ap (λ s. s ++ y) e ∙ append_assoc a.sent x y)

  module _ {W : Type 0} where
    pub Evolves-refl : (m : Machine W) → Evolves P m m
    Evolves-refl m = record {
      table = λ t. t;
      comes = Comes-refl m.conns;
      grows = ([], sym (append-nil m.sent));
      lost = StaysLost-refl m;
    }

    pub Evolves-trans : (a b c : Machine W) → Evolves P a b → Evolves P b c → Evolves P a c
    Evolves-trans a b c h k = record {
      table = λ t. k.table (h.table t);
      comes = Comes-trans a.conns b.conns c.conns h.comes k.comes;
      grows = Grows-trans a b c h.grows k.grows;
      lost = StaysLost-trans a b c h.lost k.lost;
    }

-- Fewer entries are admitted.
Comes-widen :
    (P Q : ℤ → ℕ → Type 0) (h : (j : ℤ) (c : ℕ) → P j c → Q j c) (old new : List (ℤ × ℕ))
    → Comes P old new
    → Comes Q old new
Comes-widen P Q h old [] k = tt
Comes-widen P Q h old (e ∷ new) (inl i, k) = (inl i, Comes-widen P Q h old new k)
Comes-widen P Q h old (e ∷ new) (inr p, k) = (inr (h e.0 e.1 p), Comes-widen P Q h old new k)

pub Evolves-widen :
    {W : Type 0} (P Q : ℤ → ℕ → Type 0) (h : (j : ℤ) (c : ℕ) → P j c → Q j c) (m m' : Machine W)
    → Evolves P m m'
    → Evolves Q m m'
Evolves-widen P Q h m m' e = record {
  table = e.table;
  comes = Comes-widen P Q h m.conns m'.conns e.comes;
  grows = e.grows;
  lost = e.lost;
}
