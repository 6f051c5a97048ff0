-- ===== src/Executor/Nonce.antt =====
-- agent/src/executor/nonce.ts: the next nonce of a signer. The database is a state that `next`
-- returns; the chain's pending count is an argument; `lower` is `String.toLowerCase`. A stored nonce
-- is an integer, as a reset at a pending count of 0 stores -1.
use Prim.Native.String.{String}
use text.Mathlib.Text.{◌==◌ as str_eq}
use text.Mathlib.TextPositions.{eq_refl}
use deltadesk.Prelude.{
  ◌≡◌, ◌⊎◌, inl, inr, Bool, true, false, Option, none, some, List, any, if◌then◌else◌, arith,
  Bool-cases,
}
use deltadesk.Prelude.Int.{ℤ, pos, ◌+ℤ◌, ◌-ℤ◌, leb_ℤ, ◌≤ℤ◌, ◌<ℤ◌, int_laws}
use deltadesk.Prelude.Result.{Result, ok, err, unknown_attempt}

-- An attempt that is signed, broadcast or unknown.
pub record Attempt : Type 0 where
  pub from_address : String
  pub tx_hash : String

pub record NonceDb : Type 0 where
  pub last_nonce : String → Option ℤ
  pub unresolved : List Attempt

sub_add : (p : ℤ) → (p -ℤ pos 1) +ℤ pos 1 ≡ p
unfolding ◌+ℤ◌ ◌-ℤ◌
sub_add p = grind int_laws

module _ (lower : String → String) where
  -- The rows are kept under the signer's address in lower case.
  unfoldable pub reset_nonce : NonceDb → String → ℤ → NonceDb
  reset_nonce db signer n = record db {
    last_nonce = λ a. if str_eq a (lower signer) then some n else db.last_nonce a;
  }

  unfoldable pub has_open : NonceDb → String → Bool
  has_open db signer = any (λ a. str_eq (lower a.from_address) (lower signer)) db.unresolved

  abbrev pub db_next : NonceDb → String → ℤ
  db_next db signer = elim (db.last_nonce (lower signer)) [ none ↦ pos 0 | some n ↦ n +ℤ pos 1 ]

  unfoldable pub next : NonceDb → String → ℤ → Result ℤ × NonceDb
  unfolding reset_nonce has_open
  next db signer pending =
      if leb_ℤ (db_next db signer) pending
      then (ok pending, db)
      else if has_open db signer
      then (err unknown_attempt, db)
      else (ok pending, reset_nonce db signer (pending -ℤ pos 1))

  db_next-reset_nonce :
      (db : NonceDb) (signer : String) (p : ℤ)
      → db_next (reset_nonce db signer (p -ℤ pos 1)) signer ≡ p
  unfolding reset_nonce
  db_next-reset_nonce db signer p = rw (eq_refl (lower signer), db_next) (sub_add p)

  -- `next` gives the chain's pending count, or it fails because the database is ahead of the chain
  -- and the signer has an open attempt; it changes the database just when it is ahead and no attempt
  -- is open, and then to one that is not ahead.
  pub next_cases :
      (db : NonceDb) (signer : String) (pending : ℤ)
      → ((next db signer pending ≡ (ok pending, db)) × (db_next db signer ≤ℤ pending))
        ⊎ ((next db signer pending ≡ (err unknown_attempt, db))
            × (pending <ℤ db_next db signer)
            × (has_open db signer ≡ true))
        ⊎ ((next db signer pending ≡ (ok pending, reset_nonce db signer (pending -ℤ pos 1)))
            × (pending <ℤ db_next db signer)
            × (has_open db signer ≡ false)
            × (db_next (reset_nonce db signer (pending -ℤ pos 1)) signer ≡ pending))
  unfolding next
  next_cases db signer pending = elim (Bool-cases (leb_ℤ (db_next db signer) pending)) [
    | inl h ↦ inl (ground arith, ground arith)
    | inr h ↦ elim (Bool-cases (has_open db signer)) [
      | inl o ↦ inr (inl (ground arith, ground arith, o))
      | inr o ↦ inr (inr (ground arith, ground arith, o, db_next-reset_nonce db signer pending))
    ]
  ]
