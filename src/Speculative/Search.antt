-- ===== src/Speculative/Search.antt =====
-- The inner loop of the prompt lookup (prompt_lookup_draft.cpp) against earlier occurrences of the
-- last tokens.
use jetsonfabric.Base.{
  ℕ_discrete, ◌≡◌, refl, inl, inr, ◌≤◌, ◌<◌, ℕ, zero, suc, ◌+◌, ◌-◌, Bool, true, false, not, ◌||◌,
  some, List, [], ◌∷◌, length, take, drop, ltb, arith, Bool-cases, length-drop,
}
use jetsonfabric.Speculative.{equal, proposal, search_candidate}

-- The last `n` tokens of the history occur at `c` too, and the two do not overlap.
pub record Repeats (history : List ℕ) (n c : ℕ) : Type 0 where
  pub apart : c + n + n ≤ length history
  pub same : take n (drop c history) ≡ take n (drop (length history - n) history)

equal-take : (n : ℕ) (a b : List ℕ) → equal n a b ≡ true → take n a ≡ take n b
unfolding equal
equal-take zero a b h = refl
equal-take (suc n) [] b h = absurd (ground arith)
equal-take (suc n) (x ∷ a) [] h = absurd (ground arith)
equal-take (suc n) (x ∷ a) (y ∷ b) h =
    let e : x ≡ y = ground arith in let r = equal-take n a b (ground arith) in cc

equal_of_take :
    (n : ℕ) (a b : List ℕ) → n ≤ length a → n ≤ length b → take n a ≡ take n b → equal n a b ≡ true
unfolding equal
equal_of_take zero a b la lb h = refl
equal_of_take (suc n) [] b la lb h = absurd (omega arith)
equal_of_take (suc n) (x ∷ a) [] la lb h = absurd (omega arith)
equal_of_take (suc n) (x ∷ a) (y ∷ b) la lb h =
    let e : x ≡ y = cc in
    let r : take n a ≡ take n b = cc in
    ground (arith, equal_of_take n a b (omega arith) (omega arith) r)

abbrev skips : List ℕ → ℕ → ℕ → Bool
skips history n c =
    ltb (length history - n) (c + n)
    || not (equal n (drop c history) (drop (length history - n) history))

Repeats-skips : (history : List ℕ) (n c : ℕ) → Repeats history n c → skips history n c ≡ false
Repeats-skips history n c r =
    let there =
      equal_of_take n (drop c history) (drop (length history - n) history)
        (omega (arith, r.apart, length-drop c history))
        (omega (arith, r.apart, length-drop (length history - n) history)) r.same in
    ground (arith, r.apart)

pub search_candidate-Repeats :
    (history : List ℕ) (max_tokens n c : ℕ) (p : List ℕ)
    → n ≤ length history
    → search_candidate history max_tokens n c ≡ some p
    → (d : ℕ) × (d < c) × Repeats history n d × (p ≡ proposal history max_tokens (d + n))
unfolding search_candidate
search_candidate-Repeats history max_tokens n zero p l h = absurd (ground arith)
search_candidate-Repeats history max_tokens n (suc c) p l h =
    elim (Bool-cases (skips history n c)) [
      | inl skip ↦
          let (d, before, r, e) =
            search_candidate-Repeats history max_tokens n c p l (ground arith) in
          (d, omega arith, r, e)
      | inr hit ↦ (
        c,
        omega arith,
        record { apart = ground arith; same = equal-take n _ _ (ground arith) },
        ground arith,
      )
    ]

pub search_candidate_finds :
    (history : List ℕ) (max_tokens n c d : ℕ)
    → d < c
    → Repeats history n d
    → (p : List ℕ) × (search_candidate history max_tokens n c ≡ some p)
unfolding search_candidate
search_candidate_finds history max_tokens n zero d l r = absurd (omega arith)
search_candidate_finds history max_tokens n (suc c) d l r = elim (Bool-cases (skips history n c)) [
  | inr hit ↦ (proposal history max_tokens (c + n), ground arith)
  | inl skip ↦ elim (ℕ_discrete d c) [
    | yes e ↦ absurd (ground (arith, Repeats-skips history n c (rw e at r)))
    | no ne ↦
        let (p, found) = search_candidate_finds history max_tokens n c d (omega (arith, ne)) r in
        (p, ground arith)
  ]
]
