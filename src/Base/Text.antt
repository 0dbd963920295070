-- ===== src/Base/Text.antt =====
-- Decisions on texts. A std::string that the program only compares, stores and prints is a native
-- text; one that it walks byte by byte is a list of numbers.
use Prim.Native.Char.{code}
use Prim.Native.Nat.{ℕ, zero, suc, ◌+◌, ◌/◌, ◌%◌}
use Prim.Native.String.{String, ◌++◌, compare}
use jetsonfabric.Base.Int.{ℤ, pos, negsuc}
use jetsonfabric.Base.Tests.{ltb, ◌==◌, if◌then◌else◌}
use mathlib.Core.Bool.{Bool, true, false, false≢true}
use mathlib.Core.List.{List, [], ◌∷◌}
use mathlib.Core.Logic.{◌↔◌}
use mathlib.Core.Path.{◌≡◌, refl}
use text.Mathlib.Text.{◌==◌ as str_eq, is_lt}
use text.Mathlib.TextEquality.{eq_iff}

abbrev pub Bytes : Type 0
Bytes = List ℕ

-- The code points of a text: its bytes, if it is ASCII.
abbrev pub codes : String → Bytes
codes String.[] = []
codes (String.◌∷◌ c s) = code c ∷ codes s

abbrev dec_of_test {ℓ} : {P : Type ℓ} (b : Bool) → ((b ≡ true) ↔ P) → Dec P
dec_of_test true h = yes (h.0 refl)
dec_of_test false h = no (λ p. absurd (false≢true (h.1 p)))

-- operator== of std::string.
unfoldable pub string_discrete : Discrete String
string_discrete s t = dec_of_test (str_eq s t) (eq_iff s t)

-- operator< of std::string.
abbrev pub ltb_string : String → String → Bool
ltb_string s t = is_lt (compare s t)

digit : ℕ → String
digit d =
    if d == 0
    then "0"
    else if d == 1
    then "1"
    else if d == 2
    then "2"
    else if d == 3
    then "3"
    else if d == 4
    then "4"
    else if d == 5
    then "5"
    else if d == 6
    then "6"
    else if d == 7
    then "7"
    else if d == 8
    then "8"
    else "9"

-- The fuel is above the number, which a round divides by ten.
decimal : ℕ → ℕ → String → String
unfolding digit
decimal zero n out = out
decimal (suc fuel) n out =
    let rest = decimal fuel (n / 10) (digit (n % 10) ++ out) in
    if ltb n 10 then digit n ++ out else rest

-- std::to_string, and operator<< of std::ostream, at an integer.
unfoldable pub to_string : ℤ → String
unfolding decimal
to_string (pos n) = decimal (n + 1) n ""
to_string (negsuc n) = "-" ++ decimal (n + 2) (n + 1) ""

to_string_tests : (to_string (pos 1024) ≡ "1024") × (to_string (negsuc 9) ≡ "-10")
unfolding to_string
to_string_tests = (refl, refl)
