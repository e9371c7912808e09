-- ===== src/Crypto/Tags.antt =====
-- crypto/src/tags.rs: the truncated HMAC tags.
use komms_cli.Base.{ℕ, ◌≡◌, List, ◌++◌, length, take, length-take, arith, to_be_bytes, ascii}

abbrev pub tag_len : ℕ
tag_len = 16

abbrev pub match_tag_domain : List ℕ
match_tag_domain = ascii "komms/v1.1/match-tag"

abbrev pub member_tag_domain : List ℕ
member_tag_domain = ascii "komms/v1.1/member-tag"

-- `hmac` is HMAC-SHA-256: key and message, to a 32-byte digest. The three `update` calls append.
module _ (hmac : List ℕ → List ℕ → List ℕ) where
  unfoldable pub compute_match_tag : List ℕ → List ℕ → ℕ → List ℕ
  compute_match_tag match_tag_key channel_id key_epoch =
      take tag_len
        (hmac match_tag_key (match_tag_domain ++ (channel_id ++ to_be_bytes 8 key_epoch)))

  unfoldable pub compute_member_tag : List ℕ → List ℕ → ℕ → List ℕ
  compute_member_tag member_tag_key member_pubkey key_epoch =
      take tag_len
        (hmac member_tag_key (member_tag_domain ++ (member_pubkey ++ to_be_bytes 8 key_epoch)))

  -- Both tags are 16 bytes, if the digest is 32.
  pub length-compute_tag :
      ((key msg : List ℕ) → length (hmac key msg) ≡ 32)
      → (key id : List ℕ) (epoch : ℕ)
      → (length (compute_match_tag key id epoch) ≡ 16)
        × (length (compute_member_tag key id epoch) ≡ 16)
  unfolding compute_match_tag compute_member_tag
  length-compute_tag digest key id epoch = (
    length-take 16 _ (omega (arith, digest key (match_tag_domain ++ (id ++ to_be_bytes 8 epoch)))),
    length-take 16 _ (omega (arith, digest key (member_tag_domain ++ (id ++ to_be_bytes 8 epoch)))),
  )
