-- ===== src/Client/Sending.antt =====
-- src/client/main.cpp, `sendFrame`: what is written of a frame.
use cluster_chatroom_project.Prelude.{
  ℕ, zero, suc, ◌≡◌, refl, ap, ◌∙◌, ◌↔◌, true, some, List, [], ◌∷◌, ◌++◌, append_assoc, Bytes, take,
  drop,
}
use cluster_chatroom_project.Prelude.Int.{ℤ, pos, negsuc}
use cluster_chatroom_project.Client.{send_loop}

take-drop : (n : ℕ) (xs : Bytes) → take n xs ++ drop n xs ≡ xs
take-drop zero xs = refl
take-drop (suc n) [] = refl
take-drop (suc n) (x ∷ xs) = ap (◌∷◌ x) (take-drop n xs)

-- Whatever the calls of send give: what `sendFrame` has written is a beginning of the frame, and it
-- returns true just if nothing of the frame is left.
pub send_loop-append :
    (frame : Bytes) (results : List ℤ)
    → let (written, r) = send_loop frame results in
      (rest : Bytes) × (written ++ rest ≡ frame) × ((r ≡ some true) ↔ (rest ≡ []))
unfolding send_loop
send_loop-append [] results = ([], refl, (λ _. refl, λ _. refl))
send_loop-append (b ∷ bs) [] = (b ∷ bs, refl, (λ e. cc, λ e. cc))
send_loop-append (b ∷ bs) (negsuc n ∷ results) = (b ∷ bs, refl, (λ e. cc, λ e. cc))
send_loop-append (b ∷ bs) (pos zero ∷ results) = (b ∷ bs, refl, (λ e. cc, λ e. cc))
send_loop-append (b ∷ bs) (pos (suc n) ∷ results) =
    let (rest, e, w) = send_loop-append (drop n bs) results in
    let r = send_loop (drop n bs) results in
    (
      rest,
      ap (◌∷◌ b) (append_assoc (take n bs) r.0 rest ∙ ap (λ x. take n bs ++ x) e ∙ take-drop n bs),
      w,
    )
