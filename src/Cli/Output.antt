-- ===== src/Cli/Output.antt =====
-- src/output.rs: an event and a `ref` as JSON.
use komms_cli.Base.{
  ℕ, suc, List, [], ◌∷◌, String, Bool, true, false, Option, none, some, ok, err, if◌then◌else◌,
  ◌==◌, length, is_utf8, ascii,
}
use komms_cli.Hex.{FasterHex}
use komms_cli.Protocol.EventType.{EventType, as_u8}
use komms_cli.Protocol.Event.{ParsedKommsEvent}
use komms_cli.Protocol.Validate.Guards.{Check, validate_ref}

-- The `serde_json` crate: the values that `json!` builds, assignment to a key of an object, and the texts.
pub record SerdeJson : Type 1 where
  pub Json : Type 0
  pub null : Json
  pub number : ℕ → Json
  pub boolean : Bool → Json
  pub string : List ℕ → Json
  pub array : List Json → Json
  pub object : List (String × Json) → Json
  -- `j[key] = value`
  pub set : Json → String → Json → Json
  pub to_string : Json → Option (List ℕ)
  pub to_string_pretty : Json → Option (List ℕ)

abbrev pub is_ok : Check → Bool
is_ok (ok u) = true
is_ok (err e) = false

-- An `Option` in `json!`.
abbrev pub json_opt : (S : SerdeJson) {A : Type 0} → (A → S.Json) → Option A → S.Json
json_opt S f none = S.null
json_opt S f (some a) = f a

-- `debug_t` is the derived `Debug` of `EventType`.
module _ (S : SerdeJson) (H : FasterHex) (debug_t : EventType → List ℕ) where
  open S use {Json, number, boolean, string, object}
  open H use {hex_string}

  unfoldable pub hex32 : List ℕ → Json
  hex32 b = string (hex_string b)

  unfoldable pub hex_opt : Option (List ℕ) → Json
  hex_opt b = json_opt S hex32 b

  unfoldable pub hex_vec : Option (List ℕ) → Json
  hex_vec b = json_opt S (λ v. string (hex_string v)) b

  unfoldable pub ref_json : List ℕ → Json
  ref_json [] = object (("error", string (ascii "empty ref")) ∷ [])
  ref_json (b ∷ body) =
      if b == 0x01
      then object (
          ("ref_type", string (ascii "cid"))
          ∷ ("ref_type_byte", number 1)
          ∷ ("cid", string (if is_utf8 body then body else ascii "<invalid utf-8>"))
          ∷ [])
      else if b == 0x02
      then (if suc (length body) == 33
          then object (
              ("ref_type", string (ascii "content_hash"))
              ∷ ("ref_type_byte", number 2)
              ∷ ("sha256", hex32 body)
              ∷ [])
          else object (
              ("ref_type", string (ascii "content_hash"))
              ∷ ("error", string (ascii "expected 33 bytes"))
              ∷ []))
      else object (("ref_type", string (ascii "unknown")) ∷ ("ref_type_byte", number b) ∷ [])

  unfoldable pub event_to_json : {Value : Type 0} → ParsedKommsEvent Value → Json
  event_to_json ev = object (
      ("v", number ev.v)
      ∷ ("t", number (as_u8 ev.t))
      ∷ ("event_type", string (debug_t ev.t))
      ∷ ("sid", hex_opt ev.sid)
      ∷ ("cid", hex_opt ev.cid)
      ∷ ("did", hex_opt ev.did)
      ∷ ("pid", hex_opt ev.pid)
      ∷ ("mid", hex_opt ev.mid)
      ∷ ("ref", hex_vec ev.ref_bytes)
      ∷ ("ref_decoded", json_opt S ref_json ev.ref_bytes)
      ∷ ("ref_valid", json_opt S (λ r. boolean (is_ok (validate_ref r))) ev.ref_bytes)
      ∷ ("enc", boolean ev.enc)
      ∷ ("ts", json_opt S number ev.ts)
      ∷ ("n", json_opt S number ev.n)
      ∷ ("sig", json_opt S (λ s. string (hex_string s)) ev.sig)
      ∷ [])
