-- ===== src/Effect.antt =====
-- Code that acts on a state and may throw. What was done to the state before stays done.
pub mod Keeps
use cluster_chatroom_project.Prelude.{◌≡◌, refl, List, [], ◌∷◌}

-- A json::exception, or another std::exception.
pub data Thrown : Type 0 where
  json_exception other_exception : Thrown

pub data Result (A : Type 0) : Type 0 where
  done : A → Result A
  thrown : Thrown → Result A

abbrev pub Program : Type 0 → Type 0 → Type 0
Program S A = S → S × Result A

module _ {S : Type 0} where
  abbrev pub give : {A : Type 0} → A → Program S A
  give a s = (s, done a)

  abbrev pub throws : {A : Type 0} → Thrown → Program S A
  throws e s = (s, thrown e)

  -- What becomes of a call's result.
  abbrev pub go_on : {A B : Type 0} → Result A → (A → Program S B) → Program S B
  go_on (done a) k s = k a s
  go_on (thrown e) k s = (s, thrown e)

  infixl 5 ◌>>=◌ ◌>>◌
  abbrev pub ◌>>=◌ : {A B : Type 0} → Program S A → (A → Program S B) → Program S B
  (m >>= k) s = let r = m s in go_on r.1 k r.0

  abbrev pub ◌>>◌ : {A B : Type 0} → Program S A → Program S B → Program S B
  m >> k = m >>= λ _. k

  -- A loop that pushes back what its body gives.
  unfoldable pub each : {A B : Type 0} → (A → Program S B) → List A → Program S (List B)
  each f [] = give []
  each f (x ∷ xs) = do y ← f x; ys ← each f xs; give (y ∷ ys)

  -- A call that is followed by another, where both return.
  pub go_on-done :
      {A B : Type 0} (r : S × Result A) (k : A → Program S B) {s' : S} {b : B}
      → go_on r.1 k r.0 ≡ (s', done b)
      → (s : S) × (a : A) × (r ≡ (s, done a)) × (k a s ≡ (s', done b))
  go_on-done (s, done a) k e = (s, a, refl, e)
  go_on-done (s, thrown x) k e = cc
