-- ===== src/Speculative/Lookup.antt =====
-- What a draft of the prompt lookup (prompt_lookup_draft.cpp) is, and when there is one.
use jetsonfabric.Base.{
  ◌≡◌, ◌≢◌, sym, ap, ◌∙◌, ◌⊎◌, inl, inr, ◌≤◌, ◌<◌, ℕ, zero, suc, ◌+◌, ◌-◌, min, false, ◌||◌, some,
  List, [], length, drop, ltb, leb, ◌==◌, arith, Bool-cases, Option-cases, length-take, length-drop,
  ℕ_discrete,
}
use jetsonfabric.Speculative.{
  PromptLookupDraft, make_prompt_lookup, proposal, search_candidate, search_ngram, propose,
}
use jetsonfabric.Speculative.Search.{Repeats, search_candidate-Repeats, search_candidate_finds}

-- A draft: what followed an earlier occurrence of the last n tokens, as many as are asked for.
pub record IsDraft (d : PromptLookupDraft) (history : List ℕ) (max_tokens : ℕ) (p : List ℕ)
    : Type 0 where
  pub ngram : ℕ
  pub candidate : ℕ
  pub least : d.min_ngram ≤ ngram
  pub most : ngram ≤ d.max_ngram
  pub repeats : Repeats history ngram candidate
  pub taken : p ≡ proposal history max_tokens (candidate + ngram)
  pub bounded : length p ≤ max_tokens

search_ngram-Repeats :
    (history : List ℕ) (max_tokens low more : ℕ)
    → low + more ≤ length history
    → (search_ngram history max_tokens low more ≡ [])
      ⊎ ((n : ℕ) × (c : ℕ) × (low ≤ n)
          × (n ≤ low + more)
          × Repeats history n c
          × (search_ngram history max_tokens low more ≡ proposal history max_tokens (c + n)))
unfolding search_ngram
search_ngram-Repeats history max_tokens low zero l =
    elim (Option-cases (search_candidate history max_tokens low (length history - low))) [
      | inl none_there ↦ inl (ground arith)
      | inr (p, found) ↦
          let (c, before, r, e) =
            search_candidate-Repeats history max_tokens low _ p (omega arith) found in
          inr (low, c, omega arith, omega arith, r, ground arith)
    ]
search_ngram-Repeats history max_tokens low (suc more) l =
    elim (Option-cases
      (search_candidate history max_tokens (low + suc more) (length history - (low + suc more)))) [
        | inl none_there ↦ elim (search_ngram-Repeats history max_tokens low more (omega arith)) [
          | inl empty_there ↦ inl (ground arith)
          | inr (n, c, least, most, r, e) ↦ inr (n, c, least, omega arith, r, ground arith)
        ]
        | inr (p, found) ↦
            let (c, before, r, e) =
              search_candidate-Repeats history max_tokens (low + suc more) _ p (omega arith)
                found in
            inr (low + suc more, c, omega arith, omega arith, r, ground arith)
      ]

length-proposal :
    (history : List ℕ) (max_tokens start : ℕ)
    → length (proposal history max_tokens start) ≤ max_tokens
unfolding proposal
length-proposal history max_tokens start =
    omega (arith, length-take (min max_tokens (length history - start)) (drop start history))

proposal-ne-nil :
    (history : List ℕ) (max_tokens n c : ℕ)
    → 0 < n
    → 0 < max_tokens
    → Repeats history n c
    → proposal history max_tokens (c + n) ≢ []
unfolding proposal
proposal-ne-nil history max_tokens n c positive some_asked r e = absurd (
    omega (
      arith,
      r.apart,
      ap length e,
      length-drop (c + n) history,
      length-take (min max_tokens (length history - (c + n))) (drop (c + n) history),
    ))

module _ (history : List ℕ) (max_tokens n : ℕ) (positive : 0 < n) (some_asked : 0 < max_tokens)
    (l : n ≤ length history) where
  found-ne-nil :
      (p : List ℕ) → search_candidate history max_tokens n (length history - n) ≡ some p → p ≢ []
  found-ne-nil p found e =
      let (c, before, r, same) = search_candidate-Repeats history max_tokens n _ p l found in
      proposal-ne-nil history max_tokens n c positive some_asked r (sym same ∙ e)

  repeat_found :
      (c : ℕ)
      → Repeats history n c
      → (p : List ℕ) × (search_candidate history max_tokens n (length history - n) ≡ some p)
  repeat_found c r = search_candidate_finds history max_tokens n _ c (omega (arith, r.apart)) r

search_ngram_finds :
    (history : List ℕ) (max_tokens low more n c : ℕ)
    → 0 < low
    → low ≤ n
    → n ≤ low + more
    → 0 < max_tokens
    → low + more ≤ length history
    → Repeats history n c
    → search_ngram history max_tokens low more ≢ []
unfolding search_ngram
search_ngram_finds history max_tokens low zero n c positive least most asked l r e =
    let same : n ≡ low = omega arith in
    let (p, found) =
      repeat_found history max_tokens low positive asked (omega arith) c (rw same at r) in
    found-ne-nil history max_tokens low positive asked (omega arith) p found (ground arith)
search_ngram_finds history max_tokens low (suc more) n c positive least most asked l r e =
    elim (Option-cases
      (search_candidate history max_tokens (low + suc more) (length history - (low + suc more)))) [
        | inr (p, found) ↦
            found-ne-nil history max_tokens (low + suc more) (omega arith) asked (omega arith) p
              found (ground arith)
        | inl none_there ↦ elim (ℕ_discrete n (low + suc more)) [
          | yes same ↦
              let (p, found) =
                repeat_found history max_tokens (low + suc more) (omega arith) asked (omega arith) c
                  (rw same at r) in
              absurd (ground arith)
          | no other ↦
              search_ngram_finds history max_tokens low more n c positive least
                (omega (arith, other)) asked (omega arith) r (ground arith)
        ]
      ]

module _ (max_ngram min_ngram : ℕ) (d : PromptLookupDraft)
    (made : make_prompt_lookup max_ngram min_ngram ≡ some d) (history : List ℕ)
    (max_tokens : ℕ) where
  made_bounds : (0 < d.min_ngram) × (d.min_ngram ≤ d.max_ngram)
  unfolding make_prompt_lookup
  made_bounds =
      let checked : (min_ngram == 0 || ltb max_ngram min_ngram) ≡ false = ground arith in
      let same : d ≡ record { max_ngram = max_ngram; min_ngram = min_ngram } = ground arith in
      (rw same (ground arith), rw same (ground arith))

  -- The largest n-gram that is tried.
  abbrev largest : ℕ
  largest = min d.max_ngram (length history - 1)

  propose_cases :
      (propose d history max_tokens ≡ [])
      ⊎ ((propose d history max_tokens
            ≡ search_ngram history max_tokens d.min_ngram (largest - d.min_ngram))
          × (d.min_ngram ≤ largest))
  unfolding propose
  propose_cases = elim (Bool-cases (max_tokens == 0 || leb (length history) d.min_ngram)) [
    | inl stop ↦ inl (ground arith)
    | inr go ↦ elim (Bool-cases (ltb largest d.min_ngram)) [
      | inl stop ↦ inl (ground arith)
      | inr start ↦ inr (ground arith, ground arith)
    ]
  ]

  -- What a draft strategy that was made proposes is empty or a draft: what followed an earlier
  -- occurrence of the last n tokens, for an n within its bounds, that does not overlap them; it has
  -- as many tokens as are asked for, or all that followed.
  pub propose-IsDraft :
      (propose d history max_tokens ≡ [])
      ⊎ IsDraft d history max_tokens (propose d history max_tokens)
  propose-IsDraft = elim propose_cases [
    | inl nothing ↦ inl nothing
    | inr (e, room) ↦
        elim (search_ngram-Repeats history max_tokens d.min_ngram (largest - d.min_ngram)
          (omega arith)) [
            | inl nothing ↦ inl (e ∙ nothing)
            | inr (n, c, least, most, r, f) ↦ inr (record {
              ngram = n;
              candidate = c;
              least = least;
              most = omega arith;
              repeats = r;
              taken = e ∙ f;
              bounded =
                  omega (arith, ap length (e ∙ f), length-proposal history max_tokens (c + n));
            })
          ]
  ]

  -- There is a draft whenever tokens are asked for and the last n tokens occurred before, for an n
  -- within the bounds.
  pub propose_finds :
      (n c : ℕ)
      → d.min_ngram ≤ n
      → n ≤ d.max_ngram
      → 0 < max_tokens
      → Repeats history n c
      → propose d history max_tokens ≢ []
  unfolding propose
  propose_finds n c least most asked r e =
      let (positive, ordered) = made_bounds in
      search_ngram_finds history max_tokens d.min_ngram (largest - d.min_ngram) n c positive least
        (omega (arith, r.apart)) asked (omega (arith, r.apart)) r (ground (arith, r.apart))

  -- A proposal keeps to the number of tokens that is asked for.
  pub length-propose : length (propose d history max_tokens) ≤ max_tokens
  length-propose = elim propose-IsDraft [
    | inl nothing ↦ omega (arith, ap length nothing)
    | inr draft ↦ draft.bounded
  ]
