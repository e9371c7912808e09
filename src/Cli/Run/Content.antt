-- ===== src/Cli/Run/Content.antt =====
-- src/lib.rs: `verify-content` of a file, and the `ref` that `post --content-hash` makes of its digest.
use komms_cli.Base.{
  ℕ, List, [], ◌∷◌, Bool, true, none, some, ok, ◌≡◌, ◌↔◌, refl, subst, ◌<◌, length, All, IsByte,
  arith,
}
use komms_cli.Protocol.Ids.{ref_from_content_hash}
use komms_cli.Cli.Hexutil.{parse_hex_bytes, parse_hex_bytes-hex_string, parse_hex32-hex_string}
use komms_cli.Cli.Commands.{Commands}
use komms_cli.Cli.Id.{matches_ref, matches_ref_iff, verify_content}
use komms_cli.Cli.Post.Commands.{Text}
use komms_cli.Cli.Post.Args.{ref_from_opts, first_ref, z}
use komms_cli.Cli.Run.{World, Json, print_json, run, field}

ref_size : (digest : List ℕ) → 0 < length (ref_from_content_hash digest)
unfolding ref_from_content_hash
ref_size digest = omega arith

ref_bytes : (digest : List ℕ) → All IsByte digest → All IsByte (ref_from_content_hash digest)
unfolding ref_from_content_hash
ref_bytes digest h = (omega arith, h)

module _ (W : World) where
  abbrev pub verdict : List ℕ → Text → Bool → Json W
  verdict held ref_hex matches = W.serde.object (
      ("file_sha256", field W (W.sha256 held))
      ∷ ("ref_hex", W.serde.string ref_hex)
      ∷ ("matches_ref_content_hash", W.serde.boolean matches)
      ∷ [])

module _ (W : World) (file : Text) (pretty : Bool) (held : List ℕ)
    (in_file : W.read_file file ≡ some held) (size : length (W.sha256 held) ≡ 32)
    (digest_bytes : All IsByte (W.sha256 held)) where
  run-verdict :
      (ref_hex : Text) (r : List ℕ)
      → parse_hex_bytes W.hex ref_hex ≡ ok r
      → run W (Commands.verify_content file ref_hex pretty)
        ≡ print_json W (verdict W held ref_hex (matches_ref (W.sha256 held) r)) pretty
  unfolding run verify_content
  run-verdict ref_hex r e = rw (in_file, e) refl

  -- Of a file that is read, with a `ref` that is read as hex, `verify-content` prints the digest of what the file
  -- holds and whether the `ref` is the one that `ref_from_content_hash` builds from it. The digest is 32 bytes.
  pub run-verify_content :
      (ref_hex : Text) (r : List ℕ)
      → parse_hex_bytes W.hex ref_hex ≡ ok r
      → (matches : Bool) × (run W (Commands.verify_content file ref_hex pretty)
          ≡ print_json W (verdict W held ref_hex matches) pretty)
        × ((matches ≡ true) ↔ (r ≡ ref_from_content_hash (W.sha256 held)))
  run-verify_content ref_hex r e = (
    matches_ref (W.sha256 held) r,
    run-verdict ref_hex r e,
    matches_ref_iff (W.sha256 held) r size,
  )

  content_hash-ref_from_opts :
      ref_from_opts W.hex none none (some (W.hex.hex_string (W.sha256 held)))
      ≡ ok (some (ref_from_content_hash (W.sha256 held)))
  unfolding ref_from_opts first_ref z
  content_hash-ref_from_opts =
      rw (parse_hex32-hex_string W.hex (W.sha256 held) size digest_bytes) refl

  -- The `ref` that `post` makes of the hex of a file's digest, given as the content hash, is one for which
  -- `verify-content` of the file prints a match. The file is read, and its digest is 32 bytes.
  pub run-verify_content-posted :
      (ref_from_opts W.hex none none (some (W.hex.hex_string (W.sha256 held)))
        ≡ ok (some (ref_from_content_hash (W.sha256 held))))
      × (run W (
            Commands.verify_content file
              (W.hex.hex_string (ref_from_content_hash (W.sha256 held)))
              pretty)
          ≡ print_json W
              (verdict W held (W.hex.hex_string (ref_from_content_hash (W.sha256 held))) true)
              pretty)
  run-verify_content-posted =
      let r = ref_from_content_hash (W.sha256 held) in
      let read : parse_hex_bytes W.hex (W.hex.hex_string r) ≡ ok r =
        (parse_hex_bytes-hex_string W.hex r (ref_size (W.sha256 held))
          (ref_bytes (W.sha256 held) digest_bytes)).0 in
      let matching = (matches_ref_iff (W.sha256 held) r size).1 refl in
      (
        content_hash-ref_from_opts,
        subst
            (λ b.
              run W (Commands.verify_content file (W.hex.hex_string r) pretty)
              ≡ print_json W (verdict W held (W.hex.hex_string r) b) pretty)
            matching (run-verdict (W.hex.hex_string r) r read),
      )
