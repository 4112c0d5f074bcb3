-- ===== src/Conversation/Talks.antt =====
-- include/conversation.hpp: what its names are for. A talk is a private chat, whose users have no
-- order, or a group's.
use mathlib.Core.Quot
use mathlib.Core.Quot.{Quot, Quot-set}
use native.Mathlib.Nat.{ℕ_set}
use cluster_chatroom_project.Prelude.{◌≡◌, sym, ap, ◌∙◌, inl, inr, Bytes}
use cluster_chatroom_project.Prelude.Int.{ℤ}
use cluster_chatroom_project.Conversation.{p2p, group}
use cluster_chatroom_project.Conversation.Names.{
  p2p_comm, p2p_injective, group_injective, p2p-ne-group,
}

-- Two users, and the same two.
abbrev pub Swapped : ℤ × ℤ → ℤ × ℤ → Type 0
Swapped x y = (x.0 ≡ y.1) × (x.1 ≡ y.0)

abbrev pub Users : Type 0
Users = Quot Swapped

pub data Talk : Type 0 where
  private : Users → Talk
  within : ℤ → Talk

pub Bytes_set : IsSet Bytes
Bytes_set = hlevel (ℕ_set)

-- `conv::p2p` does not see the order of the users.
abbrev pub users_name : Users → Bytes
users_name =
    Quot.lift Bytes_set (λ x. p2p x.0 x.1)
      (λ x y h. p2p_comm x.0 x.1 ∙ ap (λ a. p2p a x.0) h.1 ∙ ap (λ b. p2p y.0 b) h.0)

abbrev pub name : Talk → Bytes
name (private users) = users_name users
name (within groupid) = group groupid

same_users : (x y : ℤ × ℤ) → p2p x.0 x.1 ≡ p2p y.0 y.1 → ◌≡◌ {A = Users} (Quot.mk x) (Quot.mk y)
same_users x y e = elim (p2p_injective x.0 x.1 y.0 y.1 e) [
  | inl (h, k) ↦ ap Quot.mk (cc)
  | inr (h, k) ↦ Quot.sound (h, k)
]

users_name_injective : (p q : Users) → users_name p ≡ users_name q → p ≡ q
users_name_injective = Quot.ind (hlevel (Quot-set)) λ x. Quot.ind (hlevel (Quot-set)) (same_users x)

users_name-ne-group : (p : Users) (g : ℤ) → ¬ (users_name p ≡ group g)
users_name-ne-group = Quot.ind (hlevel) λ x g. p2p-ne-group x.0 x.1 g

-- A talk is a private chat of two users without an order, as a quotient of the pairs, or a group's.
-- Both directions of a private chat have one name, by which names are a function of talks, and
-- talks with the same name are the same talk: private chats of the same two users, or chats of one
-- group.
pub name_injective : (s t : Talk) → name s ≡ name t → s ≡ t
name_injective (private p) (private q) e = ap private (users_name_injective p q e)
name_injective (private p) (within g) e = absurd (users_name-ne-group p g e)
name_injective (within g) (private p) e = absurd (users_name-ne-group p g (sym e))
name_injective (within g) (within h) e = ap within (group_injective g h e)
