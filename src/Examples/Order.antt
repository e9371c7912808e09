-- ===== src/Examples/Order.antt =====
-- The CBOR map of the message, with its first two entries in the other order.
use komms_cli.Base.{List, [], ◌∷◌, some, ok, ◌≡◌, refl, to_be_bytes, to_le_bytes, from_be_bytes}
use mathlib.Core.List.{Permᴰ}
use komms_cli.Protocol.EventType.{as_u8}
use komms_cli.Protocol.Encode.{
  event_value, event_fields, keyed, pushed, v0_slots, v1_slots, v1_1_slots, role_slots,
}
use komms_cli.Protocol.Parse.Stages.{parse_cbor_map}
use komms_cli.Protocol.Parse.Order.{parse_cbor_map-Perm}
use komms_cli.Protocol.RoundTrip.Fields.{parse_cbor_map-event_value}
use komms_cli.Canonical.Grammar.{head, arg_code, arg_bytes}
use komms_cli.Canonical.Walk.{read_u8, read_argument, read_be, shortest}
use komms_cli.Examples.Cbor.{codec, CborValue, read, write, read_value, read_major, read_pairs}
use komms_cli.Examples.Payload.{message, message-IsEncodable, read-message}

abbrev swap_front : List (CborValue × CborValue) → List (CborValue × CborValue)
swap_front (a ∷ b ∷ es) = b ∷ a ∷ es
swap_front es = es

swap_front-Perm : (es : List (CborValue × CborValue)) → Permᴰ es (swap_front es)
swap_front-Perm [] = Permᴰ.nil
swap_front-Perm (a ∷ []) = Permᴰ.cons refl Permᴰ.nil
swap_front-Perm (a ∷ b ∷ es) = Permᴰ.swap refl refl

abbrev entries : List (CborValue × CborValue)
entries = keyed codec (event_fields codec message)

abbrev moved : CborValue
moved = codec.dict (swap_front entries)

read-moved : read (write moved) ≡ ok moved
unfolding read read_value read_major read_pairs write event_fields pushed v0_slots v1_slots
    v1_1_slots role_slots as_u8 head arg_code arg_bytes read_u8 read_argument read_be shortest
    to_be_bytes to_le_bytes from_be_bytes
read-moved = refl

is_map : codec.as_map (event_value codec message) ≡ some entries
unfolding event_value
is_map = codec.as_map-dict entries

parse_cbor_map-Perm_example : parse_cbor_map codec (write moved) ≡ ok message
parse_cbor_map-Perm_example =
    parse_cbor_map-Perm codec (write (event_value codec message)) (write moved)
      (event_value codec message) moved entries (swap_front entries) message read-message read-moved
      is_map (codec.as_map-dict (swap_front entries)) (swap_front-Perm entries)
      (parse_cbor_map-event_value codec message message-IsEncodable
        (write (event_value codec message)) read-message)
