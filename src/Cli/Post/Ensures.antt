-- ===== src/Cli/Post/Ensures.antt =====
-- src/lib.rs: what the readers of the arguments return.
use komms_cli.Base.{
  Ensures, Ensures->>=, Ensures-any, ℕ, List, Option, none, some, Result, ok, err, ◌>>=◌, ◌≡◌, refl,
  map_err, is_some, length, true,
}
use komms_cli.Hex.{FasterHex}
use komms_cli.Protocol.RoundTrip.WellTyped.{Holds}
use komms_cli.Cli.Hexutil.{parse_hex32, parse_hex64_sig, length-parse_hex32, length-parse_hex64_sig}
use komms_cli.Cli.Post.Commands.{Text, OptMeta}
use komms_cli.Cli.Post.Args.{CliError, hex, each_opt, z, meta_sig}

pub is_some-each_opt :
    {A : Type 0} (f : Text → Result CliError A) (o : Option Text)
    → Ensures (λ r. is_some r ≡ is_some o) (each_opt f o)
unfolding each_opt
is_some-each_opt f none = refl
is_some-each_opt f (some s) =
    Ensures->>= (λ a. Unit {0}) (λ r. is_some r ≡ true) (f s) _ (Ensures-any (f s)) (λ a u. refl)

abbrev pub Sized : ℕ → Option (List ℕ) → Type 0
Sized n = Holds (λ b. length b ≡ n)

module _ (H : FasterHex) where
  pub Ensures-z : (s : Text) → Ensures (λ b. length b ≡ 32) (z H s)
  unfolding z
  Ensures-z s = given (parse_hex32 H s) refl
    where
      given :
          (r : Result _ (List ℕ))
          → parse_hex32 H s ≡ r
          → Ensures (λ b. length b ≡ 32) (map_err hex r)
      given (ok b) e = length-parse_hex32 H s b e
      given (err why) e = tt

  pub Ensures-sig : (s : Text) → Ensures (λ b. length b ≡ 64) (map_err hex (parse_hex64_sig H s))
  Ensures-sig s = given (parse_hex64_sig H s) refl
    where
      given :
          (r : Result _ (List ℕ))
          → parse_hex64_sig H s ≡ r
          → Ensures (λ b. length b ≡ 64) (map_err hex r)
      given (ok b) e = length-parse_hex64_sig H s b e
      given (err why) e = tt

  pub Ensures-each_opt :
      (P : List ℕ → Type 0) (f : Text → Result CliError (List ℕ))
      → ((s : Text) → Ensures P (f s))
      → (o : Option Text) → Ensures (Holds P) (each_opt f o)
  unfolding each_opt
  Ensures-each_opt P f h none = tt
  Ensures-each_opt P f h (some s) = Ensures->>= P (Holds P) (f s) _ (h s) (λ a p. p)

  pub Ensures-each_z : (o : Option Text) → Ensures (Sized 32) (each_opt (z H) o)
  Ensures-each_z o = Ensures-each_opt (λ b. length b ≡ 32) (z H) Ensures-z o

  pub Ensures-meta_sig : (m : OptMeta) → Ensures (Sized 64) (meta_sig H m)
  unfolding meta_sig
  Ensures-meta_sig m = Ensures-each_opt (λ b. length b ≡ 64) _ Ensures-sig m.sig_hex

  -- The same, each as the first step of a chain.
  module _ {κ μ} {B : Type κ} (Q : B → Type μ) where
    pub after_z :
        (s : Text) (next : List ℕ → Result CliError B)
        → ((b : List ℕ) → length b ≡ 32 → Ensures Q (next b))
        → Ensures Q (z H s >>= next)
    after_z s next k = Ensures->>= (λ b. length b ≡ 32) Q (z H s) next (Ensures-z s) k

    pub after_each_z :
        (o : Option Text) (next : Option (List ℕ) → Result CliError B)
        → ((b : Option (List ℕ)) → Sized 32 b → Ensures Q (next b))
        → Ensures Q (each_opt (z H) o >>= next)
    after_each_z o next k = Ensures->>= (Sized 32) Q (each_opt (z H) o) next (Ensures-each_z o) k

    pub after_meta_sig :
        (m : OptMeta) (next : Option (List ℕ) → Result CliError B)
        → ((b : Option (List ℕ)) → Sized 64 b → Ensures Q (next b))
        → Ensures Q (meta_sig H m >>= next)
    after_meta_sig m next k = Ensures->>= (Sized 64) Q (meta_sig H m) next (Ensures-meta_sig m) k
