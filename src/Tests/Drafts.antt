-- ===== src/Tests/Drafts.antt =====
-- The prompt lookup on a history that repeats its last two tokens.
use jetsonfabric.Base.{◌≡◌, ◌≢◌, refl, ◌⊎◌, some, ℕ, List, [], ◌∷◌, arith}
use jetsonfabric.Speculative.{PromptLookupDraft, make_prompt_lookup, propose}
use jetsonfabric.Speculative.Search.{Repeats}
use jetsonfabric.Speculative.Lookup.{IsDraft, propose-IsDraft, propose_finds}

abbrev lookup : PromptLookupDraft
lookup = record { max_ngram = 4; min_ngram = 2 }

abbrev history : List ℕ
history = 9 ∷ 1 ∷ 2 ∷ 3 ∷ 4 ∷ 1 ∷ 2 ∷ []

lookup_made : make_prompt_lookup 4 2 ≡ some lookup
unfolding make_prompt_lookup
lookup_made = refl

drafts_next : propose lookup history 2 ≡ 3 ∷ 4 ∷ []
unfolding propose
drafts_next = refl

history_Repeats : Repeats history 2 1
history_Repeats = record { apart = omega arith; same = refl }

propose-IsDraft_example :
    (propose lookup history 2 ≡ []) ⊎ IsDraft lookup history 2 (propose lookup history 2)
propose-IsDraft_example = propose-IsDraft 4 2 lookup lookup_made history 2

propose_finds_example : propose lookup history 2 ≢ []
propose_finds_example =
    propose_finds 4 2 lookup lookup_made history 2 2 1 (omega arith) (omega arith) (omega arith)
      history_Repeats
