-- ===== src/Protocol/Control.antt =====
-- runtime/protocol/stage_control.hpp: the operations of a stage message.
use jetsonfabric.Base.{
  Bool, ℤ, pos, leb_ℤ, ℤ-discrete, not, ◌&&◌, String, ◌<>◌, test, string_discrete,
}
use jetsonfabric.Protocol.Json.{Checked, ◌>>◌, reject_if}

abbrev is_text : String → String → Bool
is_text s t = test (string_discrete s t)

unfoldable pub validate_stage_operation_name : String → Checked (Unit {0})
validate_stage_operation_name operation =
    reject_if
      (not (is_text operation "execute")
        && not (is_text operation "close_session")
        && not (is_text operation "rollback_session"))
      ("invalid stage operation: " <> operation)

unfoldable pub validate_stage_operation : String → ℤ → Checked (Unit {0})
unfolding validate_stage_operation_name
validate_stage_operation operation rollback_tokens = do
  validate_stage_operation_name operation
  reject_if (is_text operation "rollback_session" && leb_ℤ rollback_tokens (pos 0))
      "rollback_session requires positive rollback_tokens"
  reject_if
      (not (is_text operation "rollback_session")
        && not (test (ℤ-discrete rollback_tokens (pos 0))))
      "rollback_tokens is only valid for rollback_session"
