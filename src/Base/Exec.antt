-- ===== src/Base/Exec.antt =====
-- Effects: what a call returns beside the world that it leaves.
pub mod Rules
use overlay_s.Base.Strings.{Bytes}
use overlay_s.Base.Tests.{Bool, false, true, ℕ}

-- The typed errors of the AWS SDK that the program tells apart; `other_api` is every other one.
pub data ApiKind : Type 0 where
  sdk_no_such_key sdk_no_such_bucket sdk_not_found : ApiKind
  bucket_already_owned_by_you bucket_already_exists : ApiKind
  other_api : ApiKind

-- handlers.go, s3Error
pub record S3Error : Type 0 where
  pub status : ℕ
  pub code : Bytes
  pub message : Bytes

-- Go's error values. `wrapped e` is any error that is not `e` and has it in its chain.
pub data Error : Type 0 where
  err_not_found : Error
  err_upload_not_found : Error
  err_invalid_part : Error
  err_payload_hash_mismatch : Error
  unexpected_eof : Error
  s3_error : S3Error → Error
  api_error : ApiKind → Bytes → Bytes → Error
  message_error : Bytes → Error
  wrapped : Error → Error

-- A call that does not return to its caller is `no_return`: a loop that has made all the rounds that it
-- was given, or a panic, which nothing in the program recovers from. Behind a panic net/http drops the
-- connection, without an answer of the program.
pub data Outcome {ℓ} (A : Type ℓ) : Type ℓ where
  ok : A → Outcome A
  err : Error → Outcome A
  no_return : Outcome A

abbrev pub Exec {ℓ} : Type 0 → Type ℓ → Type ℓ
Exec W A = W → Outcome A × W

module _ {ℓ} {W : Type 0} {A : Type ℓ} where
  abbrev pub pure : A → Exec W A
  pure a w = (ok a, w)

  abbrev pub raise : Error → Exec W A
  raise e w = (err e, w)

module _ {ℓ κ} {W : Type 0} {A : Type ℓ} {B : Type κ} where
  abbrev pub continue : Outcome A → (A → Exec W B) → Exec W B
  continue (ok a) f w = f a w
  continue (err e) f w = (err e, w)
  continue no_return f w = (no_return, w)

  infixl 10 ◌>>=◌
  -- `if err != nil { return err }` behind a call
  abbrev pub ◌>>=◌ : Exec W A → (A → Exec W B) → Exec W B
  ◌>>=◌ m f w = continue (m w).0 f (m w).1

  -- A call whose error is handled by the code behind it.
  abbrev pub handle : Outcome A → (A → Exec W B) → (Error → Exec W B) → Exec W B
  handle (ok a) f g w = f a w
  handle (err e) f g w = g e w
  handle no_return f g w = (no_return, w)

  abbrev pub try_call : Exec W A → (A → Exec W B) → (Error → Exec W B) → Exec W B
  try_call m f g w = handle (m w).0 f g (m w).1

-- err == ErrNotFound
unfoldable pub eq_not_found : Error → Bool
eq_not_found err_not_found = true
eq_not_found _ = false

-- errors.Is(err, ErrNotFound)
unfoldable pub is_not_found : Error → Bool
is_not_found err_not_found = true
is_not_found (wrapped e) = is_not_found e
is_not_found _ = false
