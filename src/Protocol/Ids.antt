-- ===== src/Protocol/Ids.antt =====
-- protocol/src/encode.rs: the builders of `ref`, and the identifiers.
use komms_cli.Base.{
  ℕ, List, [], ◌∷◌, ◌++◌, true, Result, ok, err, ◌≡◌, refl, sym, length, lex_le, lex_le_total,
  lex_le_antisym, is_utf8, if◌then◌else◌, ◌==◌, ascii, arith, Bool-cases, inl, inr,
}
use komms_cli.Protocol.Validate.Guards.{validate_ref}

pub data RefBuildError : Type 0 where
  empty_cid : RefBuildError

-- `cid` is the UTF-8 bytes of the string.
unfoldable pub ref_from_cid_str : List ℕ → Result RefBuildError (List ℕ)
ref_from_cid_str cid = if length cid == 0 then err empty_cid else ok (0x01 ∷ cid)

unfoldable pub ref_from_content_hash : List ℕ → List ℕ
ref_from_content_hash hash = 0x02 ∷ hash

-- The identifiers that are a transaction id.
unfoldable pub server_id : List ℕ → List ℕ
server_id creation_txid = creation_txid

unfoldable pub channel_id : List ℕ → List ℕ
channel_id creation_txid = creation_txid

unfoldable pub message_id : List ℕ → List ℕ
message_id creation_txid = creation_txid

-- What is given to `update` part by part.
unfoldable pub concat : List (List ℕ) → List ℕ
concat [] = []
concat (p ∷ ps) = p ++ concat ps

-- `sha256` is SHA-256 of the bytes that were given to `update`.
module _ (sha256 : List ℕ → List ℕ) where
  unfoldable pub sha256_domain : List ℕ → List (List ℕ) → List ℕ
  sha256_domain domain parts = sha256 (domain ++ concat parts)

  unfoldable pub participant_id : List ℕ → List ℕ
  participant_id creator_address_bytes =
      sha256_domain (ascii "KOMMS_PARTICIPANT_V0") (creator_address_bytes ∷ [])

  unfoldable pub dm_thread_id : List ℕ → List ℕ → List ℕ
  dm_thread_id addr_a addr_b =
      if lex_le addr_a addr_b
      then sha256_domain (ascii "KOMMS_DM_V0") (addr_a ∷ addr_b ∷ [])
      else sha256_domain (ascii "KOMMS_DM_V0") (addr_b ∷ addr_a ∷ [])

  -- Both ends of a conversation compute the same thread: the identifier does not depend on the order of the
  -- two addresses.
  pub dm_thread_id_comm : (a b : List ℕ) → dm_thread_id a b ≡ dm_thread_id b a
  unfolding dm_thread_id
  dm_thread_id_comm a b = elim (Bool-cases (lex_le a b)) [
    | inl h ↦ elim (Bool-cases (lex_le b a)) [
      | inl k ↦ same (lex_le_antisym a b h k)
      | inr k ↦ rw (h, k) refl
    ]
    | inr h ↦ rw (h, lex_le_total a b h) refl
  ]
    where
      same : a ≡ b → dm_thread_id a b ≡ dm_thread_id b a
      same e = cc e

from_cid :
    (cid ref_bytes : List ℕ)
    → is_utf8 cid ≡ true
    → ref_from_cid_str cid ≡ ok ref_bytes
    → validate_ref ref_bytes ≡ ok tt
unfolding ref_from_cid_str validate_ref
from_cid [] ref_bytes utf8 built = ground arith
from_cid (c ∷ cs) ref_bytes utf8 built =
    let e : 0x01 ∷ c ∷ cs ≡ ref_bytes = ground arith in rw (sym e, utf8) (ground arith)

-- Every reference that the builders return passes `validate_ref`: one from a CID, whose bytes are UTF-8, and
-- one from a 32-byte content hash.
pub validate_ref-builders :
    (cid ref_bytes hash : List ℕ)
    → is_utf8 cid ≡ true
    → ref_from_cid_str cid ≡ ok ref_bytes
    → length hash ≡ 32
    → (validate_ref ref_bytes ≡ ok tt) × (validate_ref (ref_from_content_hash hash) ≡ ok tt)
unfolding ref_from_cid_str ref_from_content_hash validate_ref
validate_ref-builders cid ref_bytes hash utf8 built size =
    (from_cid cid ref_bytes utf8 built, ground arith)
