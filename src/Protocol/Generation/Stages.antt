-- ===== src/Protocol/Generation/Stages.antt =====
-- The stages of a generation that is accepted: a pipeline over all layers, on distinct nodes.
use mathlib.Core.Path.{subst}
use jetsonfabric.Base.{
  zero, [], [], ltb, ◌+◌, ◌==◌, some, ◌≤◌, ◌∷◌, get_elem?, length, ◌<◌, ◌≢◌, suc, ◌≡◌, refl, ℕ, ℤ,
  pos, ltb_ℤ, leb_ℤ, ℤ-discrete, Bool, true, false, not, ◌&&◌, ◌||◌, ◌⊎◌, inl, inr, String, List,
  test, string_discrete, arith,
}
use jetsonfabric.Protocol.Generation.{GenerationStage}
use jetsonfabric.Protocol.Generation.Decode.{
  validate_stages, check_placements, is_http, contains, check_placement,
}
use jetsonfabric.Protocol.Json.{ok, reject_if, passes}

-- A stage that knows its place, is reached over http and has layers.
pub record IsPlaced (size index : ℕ) (s : GenerationStage) : Type 0 where
  pub at : s.stage_index ≡ pos index
  pub of : s.stage_count ≡ pos size
  pub api : is_http s.api_url ≡ true
  pub runtime : (s.runtime_url ≡ "") ⊎ (is_http s.runtime_url ≡ true)
  pub layers : ltb_ℤ s.layer_start s.layer_end ≡ true

pub not_rejected : (c : Bool) (m : String) → reject_if c m ≡ ok tt → c ≡ false
not_rejected true m h = cc
not_rejected false m h = refl

pub holds {ℓ} : {P : Type ℓ} (d : Dec P) → test d ≡ true → P
holds (yes p) h = p
holds (no n) h = cc

-- What one round of the loop has checked.
record IsChecked (size index : ℕ) (node_ids : List String) (start : ℤ) (s : GenerationStage)
    : Type 0 where
  placed : IsPlaced size index s
  fresh : contains node_ids s.node_id ≡ false
  joined : s.layer_start ≡ start

both : (a b : Bool) → (not a || not b) ≡ false → (a ≡ true) × (b ≡ true)
both a b h = ground arith

runtime_url_ok :
    (url : String)
    → (not (test (string_discrete url "")) && not (is_http url)) ≡ false
    → (url ≡ "") ⊎ (is_http url ≡ true)
runtime_url_ok url =
    elim (string_discrete url "")
      as (λ d. (not (test d) && not (is_http url)) ≡ false → (url ≡ "") ⊎ (is_http url ≡ true)) [
        | yes e ↦ λ h. inl e
        | no _ ↦ λ h. inr (ground arith)
      ]

layers_ok :
    (a b c : ℤ) → (not (test (ℤ-discrete a c)) || leb_ℤ b a) ≡ false → (a ≡ c) × (ltb_ℤ a b ≡ true)
layers_ok a b c h = (holds (ℤ-discrete a c) (ground arith), ground arith)

stage-IsChecked :
    (size index : ℕ) (node_ids : List String) (start : ℤ) (s : GenerationStage)
    → check_placement size index node_ids start s ≡ ok tt
    → IsChecked size index node_ids start s
unfolding check_placement
stage-IsChecked size index node_ids start s h =
    let (_, e1, h1) =
      passes
        (reject_if
          (not (test (ℤ-discrete s.stage_index (pos index)))
            || not (test (ℤ-discrete s.stage_count (pos size))))
          _)
        _ h in
    let (_, e2, h2) = passes (reject_if (contains node_ids s.node_id) _) _ h1 in
    let (_, e3, h3) = passes (reject_if (not (is_http s.api_url)) _) _ h2 in
    let (_, e4, h4) =
      passes
        (reject_if (not (test (string_discrete s.runtime_url "")) && not (is_http s.runtime_url)) _)
        _ h3 in
    let (index_ok, count_ok) = both _ _ (not_rejected _ _ e1) in
    let (start_ok, some_layers) = layers_ok s.layer_start s.layer_end start (not_rejected _ _ h4) in
    let api_ok = not_rejected _ _ e3 in
    record {
      placed = record {
        at = holds (ℤ-discrete s.stage_index (pos index)) index_ok;
        of = holds (ℤ-discrete s.stage_count (pos size)) count_ok;
        api = ground arith;
        runtime = runtime_url_ok s.runtime_url (not_rejected _ _ e4);
        layers = some_layers;
      };
      fresh = not_rejected _ _ e2;
      joined = start_ok;
    }

refused {ℓ} : {P : Type ℓ} (d : Dec P) → P → test d ≡ true
refused (yes p) q = refl
refused (no n) q = absurd (n q)

older :
    (n : String) (ids : List String) (id : String)
    → contains (n ∷ ids) id ≡ false
    → contains ids id ≡ false
unfolding contains
older n ids id h = ground arith

newest : (n : String) (ids : List String) (id : String) → contains (n ∷ ids) id ≡ false → n ≢ id
unfolding contains
newest n ids id h e = let t = refused (string_discrete n id) e in ground arith

module _ (size : ℕ) where
  rest-IsChecked :
      (index : ℕ) (node_ids : List String) (start : ℤ) (s : GenerationStage)
      (stages : List GenerationStage)
      → check_placements size index node_ids start (s ∷ stages) ≡ ok tt
      → IsChecked size index node_ids start s
        × (check_placements size (suc index) (s.node_id ∷ node_ids) s.layer_end stages ≡ ok tt)
  unfolding check_placements
  rest-IsChecked index node_ids start s stages h =
      let (_, e, r) = passes (check_placement size index node_ids start s) _ h in
      (stage-IsChecked size index node_ids start s e, r)

  each-IsPlaced :
      (index : ℕ) (node_ids : List String) (start : ℤ) (stages : List GenerationStage)
      → check_placements size index node_ids start stages ≡ ok tt
      → (i : ℕ) (s : GenerationStage) → get_elem? stages i ≡ some s
      → IsPlaced size (index + i) s × (contains node_ids s.node_id ≡ false)
  each-IsPlaced index node_ids start [] h i s e = absurd (cc)
  each-IsPlaced index node_ids start (t ∷ stages) h zero s e =
      let (c, _) = rest-IsChecked index node_ids start t stages h in
      let same : t ≡ s = cc in
      let here : index + 0 ≡ index = omega arith in
      rw here (
        subst (λ x. IsPlaced size index x × (contains node_ids x.node_id ≡ false)) same
          (c.placed, c.fresh))
  each-IsPlaced index node_ids start (t ∷ stages) h (suc i) s e =
      let (_, r) = rest-IsChecked index node_ids start t stages h in
      let (p, f) = each-IsPlaced (suc index) (t.node_id ∷ node_ids) t.layer_end stages r i s e in
      let there : suc index + i ≡ index + suc i = omega arith in
      (subst (λ k. IsPlaced size k s) there p, older t.node_id node_ids s.node_id f)

  nodes_differ :
      (index : ℕ) (node_ids : List String) (start : ℤ) (stages : List GenerationStage)
      → check_placements size index node_ids start stages ≡ ok tt
      → (i j : ℕ) (s t : GenerationStage) → i < j
      → get_elem? stages i ≡ some s
      → get_elem? stages j ≡ some t
      → s.node_id ≢ t.node_id
  nodes_differ index node_ids start [] h i j s t l e f = absurd (cc)
  nodes_differ index node_ids start (u ∷ stages) h i zero s t l e f = absurd (omega arith)
  nodes_differ index node_ids start (u ∷ stages) h zero (suc j) s t l e f =
      let (_, r) = rest-IsChecked index node_ids start u stages h in
      let (_, fresh) =
        each-IsPlaced (suc index) (u.node_id ∷ node_ids) u.layer_end stages r j t f in
      let same : u ≡ s = cc in
      subst (λ x. x.node_id ≢ t.node_id) same (newest u.node_id node_ids t.node_id fresh)
  nodes_differ index node_ids start (u ∷ stages) h (suc i) (suc j) s t l e f =
      let (_, r) = rest-IsChecked index node_ids start u stages h in
      nodes_differ (suc index) (u.node_id ∷ node_ids) u.layer_end stages r i j s t (omega arith) e f

  -- The layers of a stage start where those of the stage before it end, the first at `start`.
  first_joined :
      (index : ℕ) (node_ids : List String) (start : ℤ) (stages : List GenerationStage)
      → check_placements size index node_ids start stages ≡ ok tt
      → (s : GenerationStage) → get_elem? stages 0 ≡ some s
      → s.layer_start ≡ start
  first_joined index node_ids start [] h s e = absurd (cc)
  first_joined index node_ids start (t ∷ stages) h s e =
      let (c, _) = rest-IsChecked index node_ids start t stages h in
      let same : t ≡ s = cc in subst (λ x. x.layer_start ≡ start) same c.joined

  each_joined :
      (index : ℕ) (node_ids : List String) (start : ℤ) (stages : List GenerationStage)
      → check_placements size index node_ids start stages ≡ ok tt
      → (i : ℕ) (s t : GenerationStage) → get_elem? stages i ≡ some s
      → get_elem? stages (suc i) ≡ some t
      → t.layer_start ≡ s.layer_end
  each_joined index node_ids start [] h i s t e f = absurd (cc)
  each_joined index node_ids start (u ∷ stages) h zero s t e f =
      let (_, r) = rest-IsChecked index node_ids start u stages h in
      let same : u ≡ s = cc in
      subst (λ x. t.layer_start ≡ x.layer_end) same
        (first_joined (suc index) (u.node_id ∷ node_ids) u.layer_end stages r t f)
  each_joined index node_ids start (u ∷ stages) h (suc i) s t e f =
      let (_, r) = rest-IsChecked index node_ids start u stages h in
      each_joined (suc index) (u.node_id ∷ node_ids) u.layer_end stages r i s t e f

-- Between 1 and 64 stages, each in its place, on nodes of their own, over layers from 0 without a gap.
pub record IsPipeline (stages : List GenerationStage) : Type 0 where
  pub some_stage : 1 ≤ length stages
  pub few : length stages ≤ 64
  pub placed :
      (i : ℕ) (s : GenerationStage) → get_elem? stages i ≡ some s → IsPlaced (length stages) i s
  pub distinct :
      (i j : ℕ) (s t : GenerationStage)
      → i < j
      → get_elem? stages i ≡ some s
      → get_elem? stages j ≡ some t
      → s.node_id ≢ t.node_id
  pub from_zero : (s : GenerationStage) → get_elem? stages 0 ≡ some s → s.layer_start ≡ pos 0
  pub joined :
      (i : ℕ) (s t : GenerationStage)
      → get_elem? stages i ≡ some s
      → get_elem? stages (suc i) ≡ some t
      → t.layer_start ≡ s.layer_end

pub validate_stages-IsPipeline :
    (stages : List GenerationStage) → validate_stages stages ≡ ok tt → IsPipeline stages
unfolding validate_stages
validate_stages-IsPipeline stages h =
    let (_, e, r) = passes (reject_if ((length stages == 0) || ltb 64 (length stages)) _) _ h in
    let n = length stages in
    let allowed = not_rejected _ _ e in
    record {
      some_stage = ground arith;
      few = ground arith;
      placed = λ i s g.
          let here : 0 + i ≡ i = omega arith in
          subst (λ k. IsPlaced n k s) here (each-IsPlaced n 0 [] (pos 0) stages r i s g).0;
      distinct = nodes_differ n 0 [] (pos 0) stages r;
      from_zero = first_joined n 0 [] (pos 0) stages r;
      joined = each_joined n 0 [] (pos 0) stages r;
    }
