-- ===== src/Pipeline/Assignment.antt =====
-- runtime/pipeline_parallel/stage_assignment.hpp and stage_assignment.cpp: the share of the layers
-- that one runtime executes. An error is its message; "" means that there is none.
use jetsonfabric.Base.{
  ℤ, pos, leb_ℤ, ltb_ℤ, ℤ-discrete, ◌-ℤ◌, String, ◌<>◌, to_string, Bool, ◌&&◌, ◌||◌, test,
  if◌then◌else◌,
}

pub record StageAssignment : Type 0 where
  pub stage_index : ℤ
  pub stage_count : ℤ
  pub layer_start : ℤ
  pub layer_end : ℤ

unfoldable pub is_first_stage : StageAssignment → Bool
is_first_stage a = ltb_ℤ (pos 0) a.stage_count && test (ℤ-discrete a.stage_index (pos 0))

unfoldable pub is_last_stage : StageAssignment → Bool
is_last_stage a =
    ltb_ℤ (pos 0) a.stage_count && test (ℤ-discrete a.stage_index (a.stage_count -ℤ pos 1))

unfoldable pub validate_stage_assignment : StageAssignment → String
validate_stage_assignment a =
    if ltb_ℤ a.stage_count (pos 1)
    then "stage_count must be at least 1"
    else if ltb_ℤ a.stage_index (pos 0) || leb_ℤ a.stage_count a.stage_index
    then "stage_index "
      <> to_string a.stage_index
      <> " is outside stage_count "
      <> to_string a.stage_count
    else if leb_ℤ a.layer_end a.layer_start
    then "layer_end must be greater than layer_start"
    else ""
