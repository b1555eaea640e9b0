-- ===== src/Vncast/Send/Chunks.antt =====
-- `send_all` sends the buffer whole and in order, however the socket takes it.
use rmcast.Base.{
  ℕ, zero, suc, ◌≤◌, ◌≡◌, refl, sym, ap, List, [], ◌∷◌, ◌++◌, append_assoc, append-nil, take, drop,
  length, arith, ◌∙◌, subst,
}
use rmcast.Vncast.Send.{Answer, wrote, interrupted, failed, Sending, sent, threw, waiting, send_all}

-- The number of answers that took something.
unfoldable pub progress : List Answer → ℕ
progress [] = 0
progress (wrote zero ∷ answers) = progress answers
progress (wrote (suc n) ∷ answers) = suc (progress answers)
progress (interrupted ∷ answers) = progress answers
progress (failed ∷ answers) = progress answers

-- No answer is an error.
unfoldable pub IsClean : List Answer → Type 0
IsClean [] = Unit
IsClean (wrote n ∷ answers) = IsClean answers
IsClean (interrupted ∷ answers) = IsClean answers
IsClean (failed ∷ answers) = ⊥

-- The bytes that went out are a prefix of the buffer, all of it if `send_all` returned.
abbrev IsPrefixOf : List ℕ → List ℕ → Type 0
IsPrefixOf out all = (rest : List ℕ) × (out ++ rest ≡ all)

abbrev pub SentWell : List ℕ → Sending → Type 0
SentWell all (sent out) = out ≡ all
SentWell all (threw out) = IsPrefixOf out all
SentWell all (waiting out) = IsPrefixOf out all

take-drop : (n : ℕ) (xs : List ℕ) → take n xs ++ drop n xs ≡ xs
take-drop zero xs = refl
take-drop (suc n) [] = refl
take-drop (suc n) (x ∷ xs) = ap (λ ys. x ∷ ys) (take-drop n xs)

moved : (n : ℕ) (buf out : List ℕ) → (out ++ take n buf) ++ drop n buf ≡ out ++ buf
moved n buf out =
    append_assoc out (take n buf) (drop n buf) ∙ ap (λ ys. out ++ ys) (take-drop n buf)

-- Whatever the socket answers, the bytes that `send_all` has sent after `out` are the buffer's, in
-- order and from its start; if it returns, they are the whole buffer.
pub send_all-SentWell :
    (answers : List Answer) (buf out : List ℕ) → SentWell (out ++ buf) (send_all answers buf out)
unfolding send_all
send_all-SentWell [] [] out = sym (append-nil out)
send_all-SentWell (a ∷ answers) [] out = sym (append-nil out)
send_all-SentWell [] (b ∷ buf) out = (b ∷ buf, refl)
send_all-SentWell (wrote n ∷ answers) (b ∷ buf) out =
    subst (λ all. SentWell all (send_all answers (drop n (b ∷ buf)) (out ++ take n (b ∷ buf))))
      (moved n (b ∷ buf) out)
      (send_all-SentWell answers (drop n (b ∷ buf)) (out ++ take n (b ∷ buf)))
send_all-SentWell (interrupted ∷ answers) (b ∷ buf) out = send_all-SentWell answers (b ∷ buf) out
send_all-SentWell (failed ∷ answers) (b ∷ buf) out = (b ∷ buf, refl)

length-drop_le : (n : ℕ) (xs : List ℕ) → length (drop n xs) ≤ length xs
length-drop_le zero xs = omega arith
length-drop_le (suc n) [] = omega arith
length-drop_le (suc n) (x ∷ xs) = omega (arith, length-drop_le n xs)

-- Without errors, as many answers that take something as the buffer has bytes are enough:
-- `send_all` returns, and the whole buffer has gone out after `out`.
pub send_all_total :
    (answers : List Answer) (buf out : List ℕ)
    → IsClean answers
    → length buf ≤ progress answers
    → send_all answers buf out ≡ sent (out ++ buf)
unfolding send_all progress IsClean
send_all_total [] [] out clean enough = ap sent (sym (append-nil out))
send_all_total (a ∷ answers) [] out clean enough = ap sent (sym (append-nil out))
send_all_total [] (b ∷ buf) out clean enough = absurd (omega arith)
send_all_total (wrote zero ∷ answers) (b ∷ buf) out clean enough =
    send_all_total answers (b ∷ buf) (out ++ []) clean enough ∙ ap sent (moved 0 (b ∷ buf) out)
send_all_total (wrote (suc n) ∷ answers) (b ∷ buf) out clean enough =
    send_all_total answers (drop n buf) (out ++ take (suc n) (b ∷ buf)) clean
      (omega (arith, length-drop_le n buf))
    ∙ ap sent (moved (suc n) (b ∷ buf) out)
send_all_total (interrupted ∷ answers) (b ∷ buf) out clean enough =
    send_all_total answers (b ∷ buf) out clean enough
send_all_total (failed ∷ answers) (b ∷ buf) out clean enough = absurd clean
