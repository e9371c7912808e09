-- ===== src/Crypto/Kdf.antt =====
-- crypto/src/kdf.rs: HKDF domains and the typed derivations.
use komms_cli.Base.{
  ℕ, ◌≡◌, ap, List, [], ◌∷◌, ◌++◌, length, drop, arith, to_be_bytes, from_be-to_be, IsU64, ascii,
  append-injective,
}

pub data KdfDomain : Type 0 where
  channel_dek match_tag_key member_tag_key member_sealed_key : KdfDomain

unfoldable pub as_bytes : KdfDomain → List ℕ
as_bytes channel_dek = ascii "komms/v1.1/channel-dek"
as_bytes match_tag_key = ascii "komms/v1.1/match-tag-key"
as_bytes member_tag_key = ascii "komms/v1.1/member-tag-key"
as_bytes member_sealed_key = ascii "komms/v1.1/member-sealed-key"

-- The `info` of `hkdf_32`.
unfoldable pub info : KdfDomain → List ℕ → List ℕ
info domain binding = as_bytes domain ++ (0x00 ∷ binding)

unfoldable pub channel_binding : List ℕ → List ℕ → ℕ → List ℕ
channel_binding server_id channel_id key_epoch =
    server_id ++ (channel_id ++ to_be_bytes 8 key_epoch)

unfoldable pub server_binding : List ℕ → ℕ → List ℕ
server_binding server_id key_epoch = server_id ++ to_be_bytes 8 key_epoch

-- `hkdf` is HKDF-SHA-256 without salt, to 32 bytes: key material and info.
module _ (hkdf : List ℕ → List ℕ → List ℕ) where
  unfoldable pub hkdf_32 : List ℕ → KdfDomain → List ℕ → List ℕ
  hkdf_32 mvk domain binding = hkdf mvk (info domain binding)

  unfoldable pub derive_channel_dek : List ℕ → List ℕ → List ℕ → ℕ → List ℕ
  unfolding hkdf_32
  derive_channel_dek mvk server_id channel_id key_epoch =
      hkdf_32 mvk channel_dek (channel_binding server_id channel_id key_epoch)

  unfoldable pub derive_match_tag_key : List ℕ → List ℕ → ℕ → List ℕ
  unfolding hkdf_32
  derive_match_tag_key mvk server_id key_epoch =
      hkdf_32 mvk match_tag_key (server_binding server_id key_epoch)

  unfoldable pub derive_member_tag_key : List ℕ → List ℕ → ℕ → List ℕ
  unfolding hkdf_32
  derive_member_tag_key mvk server_id key_epoch =
      hkdf_32 mvk member_tag_key (server_binding server_id key_epoch)

  unfoldable pub derive_member_sealed_key : List ℕ → List ℕ → ℕ → List ℕ
  unfolding hkdf_32
  derive_member_sealed_key mvk server_id key_epoch =
      hkdf_32 mvk member_sealed_key (server_binding server_id key_epoch)

-- A call of one of the four derivations, below a fixed master viewing key.
pub data Derivation : Type 0 where
  channel : List ℕ → List ℕ → ℕ → Derivation
  match_tag member_tag member_sealed : List ℕ → ℕ → Derivation

abbrev pub IsIds : Derivation → Type 0
IsIds (channel sid cid epoch) = (length sid ≡ 32) × (length cid ≡ 32) × IsU64 epoch
IsIds (match_tag sid epoch) = (length sid ≡ 32) × IsU64 epoch
IsIds (member_tag sid epoch) = (length sid ≡ 32) × IsU64 epoch
IsIds (member_sealed sid epoch) = (length sid ≡ 32) × IsU64 epoch

-- The derivation, run on the code's functions.
unfoldable pub derive : (List ℕ → List ℕ → List ℕ) → List ℕ → Derivation → List ℕ
unfolding derive_channel_dek derive_match_tag_key derive_member_tag_key derive_member_sealed_key
derive hkdf mvk (channel sid cid epoch) = derive_channel_dek hkdf mvk sid cid epoch
derive hkdf mvk (match_tag sid epoch) = derive_match_tag_key hkdf mvk sid epoch
derive hkdf mvk (member_tag sid epoch) = derive_member_tag_key hkdf mvk sid epoch
derive hkdf mvk (member_sealed sid epoch) = derive_member_sealed_key hkdf mvk sid epoch

-- The info that reaches HKDF, read off by an HKDF that returns it.
abbrev pub info_of : Derivation → List ℕ
info_of d = derive (λ mvk i. i) [] d

abbrev nth : ℕ → List ℕ → ℕ
nth k xs = first (drop k xs)
  where
    first : List ℕ → ℕ
    first [] = 0
    first (x ∷ r) = x

epoch-injective : (a b : ℕ) → IsU64 a → IsU64 b → to_be_bytes 8 a ≡ to_be_bytes 8 b → a ≡ b
epoch-injective a b ha hb e = cc (from_be-to_be 8 a ha, from_be-to_be 8 b hb)

server_binding-injective :
    (sid sid' : List ℕ) (n n' : ℕ)
    → length sid ≡ 32
    → length sid' ≡ 32
    → IsU64 n
    → IsU64 n'
    → server_binding sid n ≡ server_binding sid' n'
    → (sid ≡ sid') × (n ≡ n')
unfolding server_binding
server_binding-injective sid sid' n n' h h' u u' e =
    let (p, q) = append-injective sid _ sid' _ (omega arith) e in (p, epoch-injective n n' u u' q)

channel_binding-injective :
    (sid sid' cid cid' : List ℕ) (n n' : ℕ)
    → (length sid ≡ 32) × (length cid ≡ 32) × IsU64 n
    → (length sid' ≡ 32) × (length cid' ≡ 32) × IsU64 n'
    → channel_binding sid cid n ≡ channel_binding sid' cid' n'
    → (sid ≡ sid') × (cid ≡ cid') × (n ≡ n')
unfolding channel_binding
channel_binding-injective sid sid' cid cid' n n' (h, k, u) (h', k', u') e =
    let (p, r) = append-injective sid _ sid' _ (omega arith) e in
    let (q, s) = append-injective cid _ cid' _ (omega arith) r in
    (p, q, epoch-injective n n' u u' s)

-- Two derivations hand HKDF the same info only if they are the same function, of the same server, channel
-- and epoch.
pub info_of-injective : (a b : Derivation) → IsIds a → IsIds b → info_of a ≡ info_of b → a ≡ b
unfolding derive info as_bytes
info_of-injective (channel s c n) (channel s' c' n') h h' e =
    let (p, q, r) = channel_binding-injective s s' c c' n n' h h' (ap (drop 23) e) in
    λ i. channel (p i) (q i) (r i)
info_of-injective (match_tag s n) (match_tag s' n') h h' e =
    let (p, q) = server_binding-injective s s' n n' h.0 h'.0 h.1 h'.1 (ap (drop 25) e) in
    λ i. match_tag (p i) (q i)
info_of-injective (member_tag s n) (member_tag s' n') h h' e =
    let (p, q) = server_binding-injective s s' n n' h.0 h'.0 h.1 h'.1 (ap (drop 26) e) in
    λ i. member_tag (p i) (q i)
info_of-injective (member_sealed s n) (member_sealed s' n') h h' e =
    let (p, q) = server_binding-injective s s' n n' h.0 h'.0 h.1 h'.1 (ap (drop 29) e) in
    λ i. member_sealed (p i) (q i)
info_of-injective (channel s c n) (match_tag s' n') h h' e = absurd (omega (arith, ap (nth 11) e))
info_of-injective (channel s c n) (member_tag s' n') h h' e = absurd (omega (arith, ap (nth 11) e))
info_of-injective (channel s c n) (member_sealed s' n') h h' e =
    absurd (omega (arith, ap (nth 11) e))
info_of-injective (match_tag s n) (channel s' c' n') h h' e = absurd (omega (arith, ap (nth 11) e))
info_of-injective (match_tag s n) (member_tag s' n') h h' e = absurd (omega (arith, ap (nth 12) e))
info_of-injective (match_tag s n) (member_sealed s' n') h h' e =
    absurd (omega (arith, ap (nth 12) e))
info_of-injective (member_tag s n) (channel s' c' n') h h' e = absurd (omega (arith, ap (nth 11) e))
info_of-injective (member_tag s n) (match_tag s' n') h h' e = absurd (omega (arith, ap (nth 12) e))
info_of-injective (member_tag s n) (member_sealed s' n') h h' e =
    absurd (omega (arith, ap (nth 18) e))
info_of-injective (member_sealed s n) (channel s' c' n') h h' e =
    absurd (omega (arith, ap (nth 11) e))
info_of-injective (member_sealed s n) (match_tag s' n') h h' e =
    absurd (omega (arith, ap (nth 12) e))
info_of-injective (member_sealed s n) (member_tag s' n') h h' e =
    absurd (omega (arith, ap (nth 18) e))
