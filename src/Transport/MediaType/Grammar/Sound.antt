-- ===== src/Transport/MediaType/Grammar/Sound.antt =====
-- What the steps of the parser of runtime/transport/media_type.cpp read, in terms of the grammar.
use mathlib.Core.Path.{subst}
use jetsonfabric.Base.{
  ◌≡◌, refl, ap, sym, ◌∙◌, ◌≢◌, ℕ, zero, suc, true, false, Bool, Bytes, List, [], ◌∷◌, ◌++◌, map,
  Option, some, none, ◌==◌, ==_iff, Bool-cases, inl, inr, arith, if◌then◌else◌, length, ◌+◌,
  append-nil,
}
use jetsonfabric.Transport.MediaType.{
  ◌>>=◌, is_token_character, is_whitespace, is_control, is_refused_escape, skip_whitespace,
  read_token, require_token, consume, is_empty_text, read_quoted, read_parameter_value,
  read_parameter, read_parameters, parse_media_type, to_lower,
}
use jetsonfabric.Transport.MediaType.Grammar.{
  All, IsToken, IsSpace, QuotedByte, plain, escaped, IsQuotable, Value, token, quoted, IsValue,
  Parameter, IsParameter, AreParameters, put_value, put_quoted, put_definition, put_parameters,
  Denotes,
}

some-inj {ℓ} : {A : Type ℓ} {a b : A} → some a ≡ some b → a ≡ b
some-inj e = cc

none-ne-some {ℓ} : {A : Type ℓ} {a : A} → none ≢ some a
none-ne-some e = cc

passes {ℓ κ} :
    {A : Type ℓ} {B : Type κ} (step : Option A) (rest : A → Option B) {result : B}
    → (step >>= rest) ≡ some result
    → (value : A) × (step ≡ some value) × (rest value ≡ some result)
passes none rest done = absurd (none-ne-some done)
passes (some value) rest done = (value, refl, done)

empty_nil : (s : Bytes) → is_empty_text s ≡ true → s ≡ []
empty_nil [] h = refl
empty_nil (c ∷ s) h = cc

skipped : (s : Bytes) → (w : Bytes) × IsSpace w × (s ≡ w ++ skip_whitespace s)
unfolding skip_whitespace
skipped [] = ([], tt, refl)
skipped (c ∷ s) = elim (Bool-cases (is_whitespace c)) [
  | inl e ↦ let (w, space, same) = skipped s in (c ∷ w, (e, space), rw e (ap (λ x. c ∷ x) same))
  | inr e ↦ ([], tt, rw e refl)
]

abbrev Reads : Bytes → Bytes × Bytes → Type 0
Reads s r = (t : Bytes) × All is_token_character t × (r.0 ≡ map to_lower t) × (s ≡ t ++ r.1)

read : (s : Bytes) → Reads s (read_token s)
unfolding read_token
read [] = ([], tt, refl, refl)
read (c ∷ s) = elim (Bool-cases (is_token_character c)) [
  | inl e ↦
      let (t, all, lower, same) = read s in
      rw e (c ∷ t, (e, all), ap (λ x. to_lower c ∷ x) lower, ap (λ x. c ∷ x) same)
  | inr e ↦ rw e ([], tt, refl, refl)
]

abbrev ReadsToken : Bytes → Bytes × Bytes → Type 0
ReadsToken s r = (t : Bytes) × IsToken t × (r.0 ≡ map to_lower t) × (s ≡ t ++ r.1)

not_empty :
    (s : Bytes) (r : Bytes × Bytes) {result : Bytes × Bytes}
    → Reads s r
    → (if is_empty_text r.0 then none else some r) ≡ some result
    → ReadsToken s result
not_empty s r ([], all, lower, same) h = absurd (none-ne-some (rw lower at h))
not_empty s r (c ∷ t, all, lower, same) h =
    let filled : is_empty_text r.0 ≡ false = rw lower refl in
    subst (ReadsToken s) (some-inj (rw filled at h)) (c ∷ t, all, lower, same)

token_read :
    (s : Bytes) {result : Bytes × Bytes} → require_token s ≡ some result → ReadsToken s result
unfolding require_token
token_read s h = not_empty s (read_token s) (read s) h

consumed : (c : ℕ) (s : Bytes) {rest : Bytes} → consume c s ≡ some rest → s ≡ c ∷ rest
unfolding consume
consumed c [] h = absurd (none-ne-some h)
consumed c (b ∷ s) h = ground (arith, ==_iff b c)

abbrev ReadsQuoted : Bool → Bytes → Bytes → Type 0
ReadsQuoted false s rest = (q : List QuotedByte) × IsQuotable q × (s ≡ put_quoted q rest)
ReadsQuoted true s rest =
    (c : ℕ) × (is_refused_escape c ≡ false)
    × (q : List QuotedByte) × IsQuotable q
    × (s ≡ c ∷ put_quoted q rest)

string_read :
    (after : Bool) (s : Bytes) {rest : Bytes}
    → read_quoted after s ≡ some rest
    → ReadsQuoted after s rest
unfolding read_quoted
string_read after [] h = absurd (none-ne-some h)
string_read true (c ∷ s) h = elim (Bool-cases (is_refused_escape c)) [
  | inl e ↦ absurd (none-ne-some (rw e at h))
  | inr e ↦
      let (q, quotable, same) = string_read false s (rw e at h) in
      (c, e, q, quotable, ap (λ x. c ∷ x) same)
]
string_read false (c ∷ s) h = elim (Bool-cases (c == b'"')) [
  | inl e ↦
      ([], tt, ap (λ x. x ∷ s) ((==_iff c b'"').0 e) ∙ ap (λ x. b'"' ∷ x) (some-inj (rw e at h)))
  | inr not_quote ↦ elim (Bool-cases (c == b'\\')) [
    | inl e ↦
        let (d, allowed, q, quotable, same) = string_read true s (rw (not_quote, e) at h) in
        (
          escaped d ∷ q,
          (allowed, quotable),
          ap (λ x. x ∷ s) ((==_iff c b'\\').0 e) ∙ ap (λ x. b'\\' ∷ x) same,
        )
    | inr not_escape ↦ elim (Bool-cases (is_control c)) [
      | inl e ↦ absurd (none-ne-some (rw (not_quote, not_escape, e) at h))
      | inr e ↦
          let (q, quotable, same) = string_read false s (rw (not_quote, not_escape, e) at h) in
          (
            plain c ∷ q,
            (
              (λ x. ground (arith, ==_iff c b'"')),
              (λ x. ground (arith, ==_iff c b'\\')),
              e,
              quotable,
            ),
            ap (λ x. c ∷ x) same,
          )
    ]
  ]
]

value_read :
    (s : Bytes) {rest : Bytes}
    → read_parameter_value s ≡ some rest
    → (v : Value) × IsValue v × (s ≡ put_value v rest)
unfolding read_parameter_value
value_read [] h = absurd (none-ne-some h)
value_read (c ∷ s) h = elim (Bool-cases (c == b'"')) [
  | inl e ↦
      let (q, quotable, same) = string_read false s (rw e at h) in
      (quoted q, quotable, ap (λ x. x ∷ s) ((==_iff c b'"').0 e) ∙ ap (λ x. b'"' ∷ x) same)
  | inr e ↦
      let (r, ran, later) = passes (require_token (c ∷ s)) (λ r. some r.1) (rw e at h) in
      let (t, is_token, lower, same) = token_read (c ∷ s) ran in
      (token t, is_token, same ∙ ap (λ x. t ++ x) (some-inj later))
]

-- The whitespace before the semicolon has been skipped.
parameter_read :
    (w s : Bytes) {rest : Bytes}
    → IsSpace w
    → read_parameter s ≡ some rest
    → (p : Parameter) × IsParameter p × (w ++ s ≡ p.before ++ b';' ∷ put_definition p rest)
unfolding read_parameter
parameter_read w s space h =
    let (a, at_semicolon, h1) = passes (consume b';' s) _ h in
    let (b, at_name, h2) = passes (require_token (skip_whitespace a)) _ h1 in
    let (c, at_equals, h3) = passes (consume b'=' (skip_whitespace b.1)) _ h2 in
    let (w1, space1, same1) = skipped a in
    let (name, is_name, lower, named) = token_read (skip_whitespace a) at_name in
    let (w2, space2, same2) = skipped b.1 in
    let (w3, space3, same3) = skipped c in
    let (v, is_value, valued) = value_read (skip_whitespace c) h3 in
    (
      record {
        before = w;
        before_name = w1;
        name = name;
        behind_name = w2;
        before_value = w3;
        value = v;
      },
      record {
        before_space = space;
        before_name_space = space1;
        name_token = is_name;
        behind_name_space = space2;
        before_value_space = space3;
        value_well_formed = is_value;
      },
      ap (λ x. w ++ x)
          (consumed b';' s at_semicolon
            ∙ ap (λ x. b';' ∷ x)
                (same1
                  ∙ ap (λ x. w1 ++ x)
                      (named
                        ∙ ap (λ x. name ++ x)
                            (same2
                              ∙ ap (λ x. w2 ++ x)
                                  (consumed b'=' (skip_whitespace b.1) at_equals
                                    ∙ ap (λ x. b'=' ∷ x) (same3 ∙ ap (λ x. w3 ++ x) valued)))))),
    )

parameters_read :
    (fuel : ℕ) (s : Bytes)
    → read_parameters fuel s ≡ some tt
    → (ps : List Parameter) × (behind : Bytes) × AreParameters ps
      × IsSpace behind
      × (s ≡ put_parameters ps behind)
unfolding read_parameters
parameters_read zero s h = absurd (none-ne-some h)
parameters_read (suc fuel) s h =
    let (w, space, same) = skipped s in
    elim (Bool-cases (is_empty_text (skip_whitespace s))) [
      | inl e ↦ ([], w, tt, space, same ∙ ap (λ x. w ++ x) (empty_nil _ e) ∙ append-nil w)
      | inr e ↦
          let (rest, ran, later) =
            passes (read_parameter (skip_whitespace s)) (read_parameters fuel) (rw e at h) in
          let (p, is_parameter, put) = parameter_read w (skip_whitespace s) space ran in
          let (ps, behind, all, space_behind, same_rest) = parameters_read fuel rest later in
          (
            p ∷ ps,
            behind,
            (is_parameter, all),
            space_behind,
            same ∙ put ∙ ap (λ x. p.before ++ b';' ∷ put_definition p x) same_rest,
          )
    ]

pub parse_media_type-Denotes :
    (value : Bytes) {name : Bytes} → parse_media_type value ≡ some name → Denotes value name
unfolding parse_media_type
parse_media_type-Denotes value h =
    let (a, at_kind, h1) = passes (require_token (skip_whitespace value)) _ h in
    let (b, at_slash, h2) = passes (consume b'/' a.1) _ h1 in
    let (c, at_subtype, h3) = passes (require_token b) _ h2 in
    let (_, ran, last) = passes (read_parameters (length c.1 + 1) c.1) _ h3 in
    let (w, space, same) = skipped value in
    let (kind, is_kind, lower_kind, kinded) = token_read (skip_whitespace value) at_kind in
    let (sub, is_sub, lower_sub, subbed) = token_read b at_subtype in
    let (ps, behind, all, space_behind, same_rest) = parameters_read (length c.1 + 1) c.1 ran in
    (
      record { before = w; kind = kind; subtype = sub; parameters = ps; behind = behind },
      record {
        before_space = space;
        kind_token = is_kind;
        subtype_token = is_sub;
        parameters_well_formed = all;
        behind_space = space_behind;
      },
      same
          ∙ ap (λ x. w ++ x)
              (kinded
                ∙ ap (λ x. kind ++ x)
                    (consumed b'/' a.1 at_slash
                      ∙ ap (λ x. b'/' ∷ x) (subbed ∙ ap (λ x. sub ++ x) same_rest))),
      rw (lower_kind, lower_sub) at (sym (some-inj last)),
    )
