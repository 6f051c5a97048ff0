-- ===== src/Executor/Signing.antt =====
-- agent/src/signer/types.ts and the signing of agent/src/executor/rh-executor.ts. The parser and the
-- recovery of an address are viem's, the hash is keccak256, and the regular expression is a test of
-- texts: all four are parameters. An answer of a call is its value, or the class of its error.
use Prim.Native.String.{String}
use text.Mathlib.Text.{◌==◌ as str_eq}
use mathlib.Core.Option.{get_or}
use deltadesk.Prelude.{
  ℕ, ◌≡◌, refl, ◌⊎◌, inl, inr, ◌==◌, Bool, true, false, ◌&&◌, Option, none, some, if◌then◌else◌,
}
use deltadesk.Executor.DeskStatus.{ExecErrorCode, signer_unavailable, signer_mismatch}

pub data Answer {ℓ} (A : Type ℓ) : Type ℓ where
  thrown : ExecErrorCode → Answer A
  given : A → Answer A

-- To split on an answer and keep the equation.
pub Answer-cases {ℓ} :
    {A : Type ℓ} (r : Answer A)
    → ((code : ExecErrorCode) × (r ≡ thrown code)) ⊎ ((a : A) × (r ≡ given a))
Answer-cases (thrown code) = inl (code, refl)
Answer-cases (given a) = inr (a, refl)

pub record UnsignedTx : Type 0 where
  pub chain_id : ℕ
  pub to : String
  pub data_text : String
  pub value : ℕ
  pub nonce : ℕ
  pub gas : ℕ
  pub max_fee_per_gas : ℕ
  pub max_priority_fee_per_gas : ℕ

-- What the parser reads in the bytes; a field may be missing.
pub record ParsedTx : Type 0 where
  pub is_eip1559 : Bool
  pub chain_id : Option ℕ
  pub to : Option String
  pub data_text : Option String
  pub value : Option ℕ
  pub nonce : Option ℕ
  pub gas : Option ℕ
  pub max_fee_per_gas : Option ℕ
  pub max_priority_fee_per_gas : Option ℕ
  pub access_list_length : ℕ
  pub has_signature : Bool

pub record Codec : Type 0 where
  pub lower : String → String
  pub is_typed : String → Bool
  pub parse : String → Option ParsedTx
  pub recover : String → Option String
  pub hash_of : String → String

abbrev pub is_some_of {ℓ} : {A : Type ℓ} → (A → Bool) → Option A → Bool
is_some_of test none = false
is_some_of test (some a) = test a

unfoldable pub is_unavailable : ExecErrorCode → Bool
is_unavailable signer_unavailable = true
is_unavailable _ = false

-- The bytes that the signer gives, after one retry when it is unavailable.
unfoldable pub sign_with_retry : (ℕ → Answer String) → Answer String
unfolding is_unavailable
sign_with_retry sign = elim (sign 0) as (λ _. Answer String) [
  | given raw ↦ given raw
  | thrown code ↦ if is_unavailable code then sign 1 else thrown code
]

module _ (C : Codec) where
  abbrev same_address : String → String → Bool
  same_address a b = str_eq (C.lower a) (C.lower b)

  -- Every field that was parsed is the field of the request.
  unfoldable pub fields_match : ParsedTx → UnsignedTx → Bool
  fields_match p tx =
      p.is_eip1559
      && is_some_of (λ c. c == tx.chain_id) p.chain_id
      && is_some_of (λ t. same_address t tx.to) p.to
      && same_address (get_or p.data_text "0x") tx.data_text
      && get_or p.value 0 == tx.value
      && get_or p.nonce 0 == tx.nonce
      && get_or p.gas 0 == tx.gas
      && get_or p.max_fee_per_gas 0 == tx.max_fee_per_gas
      && get_or p.max_priority_fee_per_gas 0 == tx.max_priority_fee_per_gas
      && p.access_list_length == 0
      && p.has_signature

  unfoldable pub verify_recovered : String → String → Option String → Answer String
  verify_recovered raw signer none = thrown signer_mismatch
  verify_recovered raw signer (some a) =
      if same_address a signer then given (C.hash_of raw) else thrown signer_mismatch

  unfoldable pub verify_parsed : String → UnsignedTx → String → Option ParsedTx → Answer String
  unfolding fields_match verify_recovered
  verify_parsed raw tx signer none = thrown signer_mismatch
  verify_parsed raw tx signer (some p) =
      if fields_match p tx
      then verify_recovered raw signer (C.recover raw)
      else thrown signer_mismatch

  -- The hash of the bytes.
  unfoldable pub verify_signed_tx : String → UnsignedTx → String → Answer String
  unfolding verify_parsed
  verify_signed_tx raw tx signer =
      if C.is_typed raw then verify_parsed raw tx signer (C.parse raw) else thrown signer_mismatch
