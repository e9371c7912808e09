-- ===== src/Protocol/Validate/Defs.antt =====
-- protocol/src/lib.rs: `validate_event`, as the sequence of its checks.
use komms_cli.Base.{◌>>◌}
use komms_cli.Protocol.Event.{ParsedKommsEvent}
use komms_cli.Protocol.Validate.Guards.{
  Check, check_envelope, check_fields, check_v1_if, check_sealed_sender, check_group,
}
use komms_cli.Protocol.Validate.ByType.{check_type}

module _ {Value : Type 0} where
  unfoldable pub validate_event : ParsedKommsEvent Value → Check
  validate_event ev = do
    check_envelope ev
    check_fields ev
    check_v1_if ev
    check_sealed_sender ev
    check_group ev
    check_type ev.t ev
