-- ===== src/Inference/Flow.antt =====
-- The tables of stage.cpp for what a stage takes and gives, along a pipeline.
use jetsonfabric.Base.{
  ℤ, pos, negsuc, ◌+ℤ◌, ◌-ℤ◌, ℤ-discrete, ◌≡◌, true, some, arith, if◌then◌else◌,
}
use jetsonfabric.Inference.{
  Phase, decode, PayloadKind, StagePosition, is_first, is_last, is_allowed_input, expected_output,
  kind_discrete, phase_discrete,
}

-- The position that the output of a stage goes to: the next stage, or the first one after the last.
abbrev pub next_position : StagePosition → StagePosition
next_position p = record p { index = if is_last p then pos 0 else p.index +ℤ pos 1 }

-- The next pass of a pipeline is a decode.
abbrev pub next_phase : Phase → StagePosition → Phase
next_phase phase p = if is_last p then decode else phase

next_allowed :
    (phase : Phase) (a b : ℤ) (k : PayloadKind)
    → expected_output phase (record { index = a; count = b }) ≡ some k
    → is_allowed_input
        (next_phase phase (record { index = a; count = b }))
        (next_position (record { index = a; count = b }))
        k
      ≡ true
unfolding expected_output is_allowed_input is_first is_last kind_discrete phase_discrete ℤ-discrete
    ◌-ℤ◌ ◌+ℤ◌
next_allowed phase (negsuc a) b k h = absurd (ground arith)
next_allowed phase (pos a) (negsuc b) k h = absurd (ground arith)
next_allowed phase (pos a) (pos b) k h = ground arith

-- What a stage is expected to give is allowed as input where it goes: at the next stage in the same
-- phase, and from the last stage at the first one in the decode phase.
pub expected_output_allowed :
    (phase : Phase) (p : StagePosition) (k : PayloadKind)
    → expected_output phase p ≡ some k
    → is_allowed_input (next_phase phase p) (next_position p) k ≡ true
expected_output_allowed phase p k h = next_allowed phase p.index p.count k h
