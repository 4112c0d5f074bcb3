-- ===== src/Effect/Keeps.antt =====
-- Programs along whose run a reflexive and transitive relation holds, also where they throw.
use cluster_chatroom_project.Prelude.{◌≡◌, refl, Bool, true, false, if◌then◌else◌, List, [], ◌∷◌}
use cluster_chatroom_project.Effect.{Program, Result, done, thrown, give, go_on, ◌>>=◌, each}

module _ {S : Type 0} (R : S → S → Type 0) (same : (a : S) → R a a)
    (trans : (a b c : S) → R a b → R b c → R a c) where
  pub record Keeps {A : Type 0} (p : Program S A) : Type 0 where
    pub along : (s : S) → R s (p s).0

  -- What follows a call may use that the call has returned.
  pub go_on-R :
      {A B : Type 0} (r : S × Result A) (k : A → Program S B) (s : S)
      → R s r.0
      → ((n : S) (a : A) → r ≡ (n, done a) → R n (k a n).0)
      → R s (go_on r.1 k r.0).0
  go_on-R (n, done a) k s h t = trans s n (k a n).0 h (t n a refl)
  go_on-R (n, thrown e) k s h t = h

  pub give-Keeps : {A : Type 0} (a : A) → Keeps (give a)
  give-Keeps a = record { along = same }

  pub bind-Keeps :
      {A B : Type 0} {p : Program S A} {k : A → Program S B}
      → Keeps p
      → ((a : A) → Keeps (k a))
      → Keeps (p >>= k)
  bind-Keeps {p = p} {k = k} h t = record {
    along = λ s. go_on-R (p s) k s (h.along s) (λ n a e. (t a).along n);
  }

  pub if-Keeps :
      {A : Type 0} (b : Bool) {p q : Program S A} → Keeps p → Keeps q → Keeps (if b then p else q)
  if-Keeps true h t = h
  if-Keeps false h t = t

  pub each-Keeps :
      {A B : Type 0} {f : A → Program S B} (xs : List A)
      → ((x : A) → Keeps (f x))
      → Keeps (each f xs)
  unfolding each
  each-Keeps [] h = give-Keeps []
  each-Keeps (x ∷ xs) h =
      bind-Keeps (h x) (λ y. bind-Keeps (each-Keeps xs h) (λ ys. give-Keeps (y ∷ ys)))
