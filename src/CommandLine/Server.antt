-- ===== src/CommandLine/Server.antt =====
-- The address of the server, when it is guessed from the SSH connection.
use rmcast.Base.{
  ℕ, suc, ◌-◌, ◌≡◌, refl, sym, ap, ◌∙◌, inl, inr, [], ◌∷◌, ◌++◌, Bool, true, false, if◌then◌else◌,
  ◌==◌, take, length, Bool-cases, some, arith,
}
use rmcast.CommandLine.{Text, find_space, has_prefix, ipv4_prefix, client_ip, server_of}

-- A text without a space.
unfoldable pub is_word : Text → Bool
is_word [] = true
is_word (c ∷ cs) = if c == 32 then false else is_word cs

differ : {b : Bool} → b ≡ true → b ≡ false → ⊥
differ e f = cc

find_space_lem : (ip rest : Text) → is_word ip ≡ true → find_space (ip ++ 32 ∷ rest) ≡ length ip
unfolding find_space is_word
find_space_lem [] rest e = refl
find_space_lem (c ∷ cs) rest e = elim (Bool-cases (c == 32)) [
  | inl f ↦ absurd (differ refl (sym (rw f at e)))
  | inr f ↦ rw f (ap (λ n. suc n) (find_space_lem cs rest (rw f at e)))
]

take-append : (xs ys : Text) → take (length xs) (xs ++ ys) ≡ xs
take-append [] ys = refl
take-append (x ∷ xs) ys = ap (λ zs. x ∷ zs) (take-append xs ys)

-- Without an operand, the server is the first word of SSH_CONNECTION, be it written as it is or with
-- the prefix of an IPv4 address that is mapped to IPv6, which is dropped.
pub server_of_connection :
    (ip rest : Text)
    → is_word ip ≡ true
    → has_prefix ipv4_prefix (ip ++ 32 ∷ rest) ≡ false
    → (server_of [] (some (ip ++ 32 ∷ rest)) ≡ some ip)
      × (server_of [] (some (ipv4_prefix ++ ip ++ 32 ∷ rest)) ≡ some ip)
unfolding server_of client_ip has_prefix find_space
server_of_connection ip rest word plain =
    let found = find_space_lem ip rest word in
    (
      rw (client_ip, plain, found)
          (ap (λ n. some (take n (ip ++ 32 ∷ rest))) (whole (length ip))
            ∙ ap (λ x. some x) (take-append ip (32 ∷ rest))),
      ap (λ n. some (take n (ip ++ 32 ∷ rest)))
            (ap (λ n. suc (suc (suc (suc (suc (suc (suc n)))))) - 7) found ∙ shorter (length ip))
          ∙ ap (λ x. some x) (take-append ip (32 ∷ rest)),
    )
  where
    shorter : (n : ℕ) → suc (suc (suc (suc (suc (suc (suc n)))))) - 7 ≡ n
    shorter n = omega arith

    whole : (n : ℕ) → n - 0 ≡ n
    whole n = omega arith
