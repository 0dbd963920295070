-- ===== src/Speculative.antt =====
-- runtime/speculative: prompt_lookup_draft.cpp, which drafts the tokens that followed an earlier
-- occurrence of the last tokens, and the factory by name. A size is at most that of the history, so
-- no sum of two wraps around.
pub mod Search
pub mod Lookup
use jetsonfabric.Base.{
  ◌≡◌, ℕ, zero, suc, ◌+◌, ◌-◌, min, Bool, true, false, not, ◌&&◌, ◌||◌, Option, none, some, String,
  List, [], ◌∷◌, length, take, drop, test, string_discrete, ltb, leb, ◌==◌, if◌then◌else◌,
}

pub record PromptLookupDraft : Type 0 where
  pub max_ngram : ℕ
  pub min_ngram : ℕ

-- The constructor; `none` is the std::invalid_argument.
unfoldable pub make_prompt_lookup : ℕ → ℕ → Option PromptLookupDraft
make_prompt_lookup max_ngram min_ngram =
    if min_ngram == 0 || ltb max_ngram min_ngram
    then none
    else some (record { max_ngram = max_ngram; min_ngram = min_ngram })

-- std::equal over `n` elements of each list, which the caller knows to be there.
unfoldable pub equal : ℕ → List ℕ → List ℕ → Bool
equal zero a b = true
equal (suc n) [] b = false
equal (suc n) (x ∷ a) [] = false
equal (suc n) (x ∷ a) (y ∷ b) = x == y && equal n a b

unfoldable pub proposal : List ℕ → ℕ → ℕ → List ℕ
proposal history max_tokens proposal_start =
    take (min max_tokens (length history - proposal_start)) (drop proposal_start history)

-- The inner loop, from `candidate - 1` down to 0; `none` is its end without a return.
unfoldable pub search_candidate : List ℕ → ℕ → ℕ → ℕ → Option (List ℕ)
unfolding equal proposal
search_candidate history max_tokens ngram zero = none
search_candidate history max_tokens ngram (suc candidate) =
    let suffix_start = length history - ngram in
    let rest = search_candidate history max_tokens ngram candidate in
    if ltb suffix_start (candidate + ngram)
      || not (equal ngram (drop candidate history) (drop suffix_start history))
    then rest
    else some (proposal history max_tokens (candidate + ngram))

-- The outer loop, at the n-gram length `min_ngram + more`.
unfoldable pub search_ngram : List ℕ → ℕ → ℕ → ℕ → List ℕ
unfolding search_candidate
search_ngram history max_tokens min_ngram zero =
    elim (search_candidate history max_tokens min_ngram (length history - min_ngram)) [
      | some p ↦ p
      | none ↦ []
    ]
search_ngram history max_tokens min_ngram (suc more) =
    let rest = search_ngram history max_tokens min_ngram more in
    elim (search_candidate history max_tokens (min_ngram + suc more)
      (length history - (min_ngram + suc more))) [ some p ↦ p | none ↦ rest ]

unfoldable pub propose : PromptLookupDraft → List ℕ → ℕ → List ℕ
unfolding search_ngram
propose d history max_tokens =
    let largest_ngram = min d.max_ngram (length history - 1) in
    if max_tokens == 0 || leb (length history) d.min_ngram
    then []
    else if ltb largest_ngram d.min_ngram
    then []
    else search_ngram history max_tokens d.min_ngram (largest_ngram - d.min_ngram)

pub data DraftStrategy : Type 0 where
  no_strategy : DraftStrategy
  prompt_lookup : PromptLookupDraft → DraftStrategy

-- The default constructor has n-grams of four tokens down to two.
unfoldable pub create_draft_strategy : String → Option DraftStrategy
create_draft_strategy name =
    if test (string_discrete name "none")
    then some no_strategy
    else if test (string_discrete name "prompt_lookup")
    then some (prompt_lookup (record { max_ngram = 4; min_ngram = 2 }))
    else none
