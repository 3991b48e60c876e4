-- ===== src/Wallet.antt =====
-- The receive-only wallet (crates/gp-wallet/src/lib.rs) over the Grin wallet library. The library's
-- database and the node behind it are one opaque state; its calls are parameters. Error texts are cut
-- down to their kind.
pub mod Proof
pub mod Message
pub mod Open
pub mod Guards
use goblin_pay.Prelude.{
  ℕ, String, Bool, true, false, Option, none, some, List, [], ◌∷◌, if◌then◌else◌, trim, Text,
}
use goblin_pay.Wallet.Proof.{ReceiverProof, encode_hex, Verifier, verify_receiver_proof}

-- `SlateState` of the library
pub data SlateState : Type 0 where
  unknown standard1 standard2 standard3 invoice1 invoice2 invoice3 : SlateState

-- `WalletError`
pub data WalletError : Type 0 where
  config_error wallet_failed slatepack_error : WalletError

pub data Fallible (A : Type 0) : Type 0 where
  fine : A → Fallible A
  failed : WalletError → Fallible A

abbrev pub eq_state : SlateState → SlateState → Bool
eq_state unknown unknown = true
eq_state standard1 standard1 = true
eq_state standard2 standard2 = true
eq_state standard3 standard3 = true
eq_state invoice1 invoice1 = true
eq_state invoice2 invoice2 = true
eq_state invoice3 invoice3 = true
eq_state _ _ = false

-- The proof part of a slate: ed25519 bytes.
pub record ProofInfo : Type 0 where
  pub sender_address : Text
  pub receiver_address : Text
  pub receiver_signature : Option Text

pub record Slate : Type 0 where
  pub id : String
  pub amount : ℕ
  pub state : SlateState
  pub payment_proof : Option ProofInfo

-- A slate in one of the wire versions.
pub record VersionedSlate : Type 0 where
  pub version : ℕ
  pub content : Slate

pub record Received : Type 0 where
  pub slate_id : String
  pub amount : ℕ
  pub s2_armor : Text
  pub kernel_excess : Text
  pub proof : Option Text

pub record Issued : Type 0 where
  pub slate_id : String
  pub i1_armor : Text

pub record Finalized : Type 0 where
  pub slate_id : String
  pub amount : ℕ
  pub kernel_excess : Text

-- What the library is asked: it reads and changes its state `W`, and may fail. `tx_log` are the kernel
-- excesses of the transactions of a slate, `post` the node's answer.
pub record Library (W : Type 0) : Type 0 where
  pub read_slatepack : W → Text → Fallible Slate
  pub receive_tx : W → Slate → Fallible Slate × W
  pub issue_invoice_tx : W → ℕ → Fallible Slate × W
  pub finalize_tx : W → Slate → Fallible Slate × W
  pub finalize_and_post : W → Slate → Fallible Slate × W
  pub post_tx : W → Slate → Fallible (Unit {0}) × W
  pub cancel_tx : W → String → Fallible (Unit {0}) × W
  pub tx_log : W → String → Fallible (List (Option Text))
  pub armor : W → Slate → Fallible Text
  pub into_version : Slate → ℕ → Fallible VersionedSlate
  pub is_uuid : String → Bool
  pub verify : Verifier
  pub proof_json : ReceiverProof → Fallible Text

-- A call of the wallet.
abbrev pub Call : Type 0 → Type 0 → Type 0
Call W A = W → Fallible A × W

abbrev pub then_call : {W A B : Type 0} → Fallible A → (A → Call W B) → Call W B
then_call (fine a) f w = f a w
then_call (failed e) f w = (failed e, w)

infixl 5 ◌>>=◌
unfoldable pub ◌>>=◌ : {W A B : Type 0} → Call W A → (A → Call W B) → Call W B
◌>>=◌ m f w = then_call (m w).0 f (m w).1

-- A value, an error, and a reading of the state.
unfoldable pub give : {W A : Type 0} → A → Call W A
give a w = (fine a, w)

unfoldable pub fail : {W A : Type 0} → WalletError → Call W A
fail e w = (failed e, w)

unfoldable pub reading : {W A : Type 0} → (W → Fallible A) → Call W A
reading f w = (f w, w)

-- `map_err` to a slatepack error
abbrev pub as_slatepack : {A : Type 0} → Fallible A → Fallible A
as_slatepack (fine a) = fine a
as_slatepack (failed e) = failed slatepack_error

abbrev pub first_some : List (Option Text) → Option Text
first_some [] = none
first_some (none ∷ os) = first_some os
first_some (some t ∷ os) = some t

abbrev pub recorded : Option Text → Fallible Text
recorded none = failed wallet_failed
recorded (some excess) = fine (encode_hex excess)

abbrev pub excess_of : Fallible (List (Option Text)) → Fallible Text
excess_of (fine log) = recorded (first_some log)
excess_of (failed e) = failed e

-- `if slate.state != expected { return Err(…) }`
unfoldable pub expect_state : {W : Type 0} → SlateState → WalletError → Slate → Call W (Unit {0})
unfolding give fail
expect_state expected e slate = if eq_state slate.state expected then give tt else fail e

module _ {W : Type 0} (lib : Library W) where
  unfoldable pub slate_of : Text → Call W Slate
  unfolding reading
  slate_of armor = reading (λ w. as_slatepack (lib.read_slatepack w (trim armor)))

  unfoldable pub slatepack_kind : Text → Call W (String × SlateState)
  unfolding slate_of ◌>>=◌ give
  slatepack_kind armor = slate_of armor >>= λ slate. give (slate.id, slate.state)

  unfoldable pub slate_kernel_excess : String → Call W Text
  unfolding reading
  slate_kernel_excess id = reading (λ w. excess_of (lib.tx_log w id))

  abbrev pub proof_of : ProofInfo → ℕ → Text → Text → ReceiverProof
  proof_of info amount kernel_excess sig = record {
    amount = amount;
    kernel_excess = kernel_excess;
    sender_address = encode_hex info.sender_address;
    recipient_address = encode_hex info.receiver_address;
    recipient_sig = encode_hex sig;
  }

  abbrev pub json_or : Fallible Text → Fallible (Option Text)
  json_or (fine t) = fine (some t)
  json_or (failed e) = failed wallet_failed

  abbrev pub verified_json : ReceiverProof → Fallible (Option Text)
  verified_json p =
      if verify_receiver_proof lib.verify p
      then json_or (lib.proof_json p)
      else failed wallet_failed

  abbrev pub proof_from : Option ProofInfo → ℕ → Text → Fallible (Option Text)
  proof_from none amount kernel_excess = fine none
  proof_from (some info) amount kernel_excess = elim info.receiver_signature [
    | none ↦ fine none
    | some sig ↦ verified_json (proof_of info amount kernel_excess sig)
  ]

  unfoldable pub build_proof : Slate → ℕ → Text → Call W (Option Text)
  unfolding verify_receiver_proof reading
  build_proof s2 amount kernel_excess =
      reading (λ w. proof_from s2.payment_proof amount kernel_excess)

  unfoldable pub receive_slatepack : Text → Call W Received
  unfolding ◌>>=◌ give reading slate_of expect_state slate_kernel_excess build_proof
  receive_slatepack s1_armor = do
    slate ← slate_of s1_armor
    _ ← expect_state standard1 slatepack_error slate
    let amount = slate.amount
    s2 ← λ w. lib.receive_tx w slate
    kernel_excess ← slate_kernel_excess slate.id
    proof ← build_proof s2 amount kernel_excess
    s2_armor ← reading (λ w. lib.armor w s2)
    give (record {
      slate_id = s2.id;
      amount = amount;
      s2_armor = s2_armor;
      kernel_excess = kernel_excess;
      proof = proof;
    })

  unfoldable pub receive_slate : VersionedSlate → Call W (VersionedSlate × Received)
  unfolding ◌>>=◌ give reading expect_state slate_kernel_excess build_proof
  receive_slate in_slate = do
    let version = in_slate.version
    let slate = in_slate.content
    _ ← expect_state standard1 slatepack_error slate
    let amount = slate.amount
    s2 ← λ w. lib.receive_tx w slate
    kernel_excess ← slate_kernel_excess slate.id
    proof ← build_proof s2 amount kernel_excess
    s2_armor ← reading (λ w. lib.armor w s2)
    let received : Received = record {
      slate_id = s2.id;
      amount = amount;
      s2_armor = s2_armor;
      kernel_excess = kernel_excess;
      proof = proof;
    }
    out ← reading (λ w. lib.into_version s2 version)
    give (out, received)

  unfoldable pub issue_invoice : ℕ → Call W Issued
  unfolding ◌>>=◌ give reading expect_state
  issue_invoice amount = do
    i1 ← λ w. lib.issue_invoice_tx w amount
    _ ← expect_state invoice1 wallet_failed i1
    i1_armor ← reading (λ w. lib.armor w i1)
    give (record { slate_id = i1.id; i1_armor = i1_armor })

  unfoldable pub finalize_invoice_slatepack : Text → Call W Finalized
  unfolding ◌>>=◌ give slate_of expect_state slate_kernel_excess
  finalize_invoice_slatepack i2_armor = do
    i2 ← slate_of i2_armor
    _ ← expect_state invoice2 slatepack_error i2
    final_slate ← λ w. lib.finalize_tx w i2
    _ ← λ w. lib.post_tx w final_slate
    kernel_excess ← slate_kernel_excess final_slate.id
    give (record { slate_id = i2.id; amount = i2.amount; kernel_excess = kernel_excess })

  unfoldable pub finalize_slate : VersionedSlate → Call W (VersionedSlate × Finalized)
  unfolding ◌>>=◌ give reading slate_kernel_excess
  finalize_slate in_slate = do
    let slate = in_slate.content
    final_slate ← λ w. lib.finalize_and_post w slate
    kernel_excess ← slate_kernel_excess final_slate.id
    out ← reading (λ w. lib.into_version final_slate in_slate.version)
    give (out, record { slate_id = slate.id; amount = slate.amount; kernel_excess = kernel_excess })

  unfoldable pub cancel : String → Call W (Unit {0})
  unfolding fail
  cancel slate_id w =
      if lib.is_uuid slate_id then lib.cancel_tx w slate_id else fail wallet_failed w
