-- ===== src/Conversation/Names.antt =====
-- include/conversation.hpp: the names of conversations compared.
use cluster_chatroom_project.Prelude.{ℕ, ◌≡◌, ◌≢◌, refl, ◌⊎◌, ◌∷◌, Bytes, arith}
use cluster_chatroom_project.Prelude.Int.{ℤ, pos, negsuc, min, max}
use cluster_chatroom_project.Conversation.Decimal.{
  to_string, to_string_injective, to_string-Lacks, IsForeign, cut_unique,
}
use cluster_chatroom_project.Conversation.{p2p, group}

min_comm : (a b : ℤ) → min a b ≡ min b a
min_comm (pos n) (pos m) = ground arith
min_comm (pos n) (negsuc m) = ground arith
min_comm (negsuc n) (pos m) = ground arith
min_comm (negsuc n) (negsuc m) = ground arith

max_comm : (a b : ℤ) → max a b ≡ max b a
max_comm (pos n) (pos m) = ground arith
max_comm (pos n) (negsuc m) = ground arith
max_comm (negsuc n) (pos m) = ground arith
max_comm (negsuc n) (negsuc m) = ground arith

min-max :
    (a b c d : ℤ)
    → min a b ≡ min c d
    → max a b ≡ max c d
    → ((a ≡ c) × (b ≡ d)) ⊎ ((a ≡ d) × (b ≡ c))
min-max a b c d e h = ground arith

head_eq : (x y : ℕ) (xs ys : Bytes) → ◌≡◌ {A = Bytes} (x ∷ xs) (y ∷ ys) → x ≡ y
head_eq x y xs ys e = cc

-- Both directions of a private chat are one conversation.
pub p2p_comm : (a b : ℤ) → p2p a b ≡ p2p b a
unfolding p2p
p2p_comm a b = rw (min_comm a b, max_comm a b) refl

underscore : IsForeign b'_'
underscore = (omega arith, omega arith)

-- Private chats whose conversation has the same name have the same two users.
pub p2p_injective : (a b c d : ℤ) → p2p a b ≡ p2p c d → ((a ≡ c) × (b ≡ d)) ⊎ ((a ≡ d) × (b ≡ c))
unfolding p2p
p2p_injective a b c d e =
    let q =
      cut_unique b'_' (to_string (min a b)) (to_string (min c d)) _ _
        (to_string-Lacks b'_' (min a b) underscore) (to_string-Lacks b'_' (min c d) underscore)
        (cc) in
    min-max a b c d (to_string_injective _ _ q.0) (to_string_injective _ _ q.1)

-- Groups whose conversation has the same name are one group.
pub group_injective : (g h : ℤ) → group g ≡ group h → g ≡ h
unfolding group
group_injective g h e = to_string_injective g h (cc)

-- No group's conversation has the name of a private chat.
pub p2p-ne-group : (a b g : ℤ) → p2p a b ≢ group g
unfolding p2p group
p2p-ne-group a b g e = absurd (omega (arith, head_eq _ _ _ _ e))
