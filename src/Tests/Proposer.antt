-- ===== src/Tests/Proposer.antt =====
-- The theorems on what a leader takes from the mempool, builds and sends at concrete inputs.
use augecoin.Base.{
  ◌≤◌, ◌≡◌, ◌⊎◌, refl, true, false, some, [], ◌∷◌, ◌++◌, Bytes, bytes_eq, length, replicate, ok,
  arith, to_be_bytes,
}
use augecoin.Crypto.{Crypto}
use augecoin.Core.Account.{AccountState}
use augecoin.Core.Operation.{Operation}
use augecoin.Core.Block.{OperationBlock}
use augecoin.Core.Block.Hash.{compute_operations_merkle_root}
use augecoin.Core.Block.Codec.{block_to_bytes}
use augecoin.Core.Block.Select.{block_serialized_size}
use augecoin.Core.Mempool.{Mempool, new}
use augecoin.Core.Mempool.Methods.{precheck_for_block, admitted, set_admin_pubkey}
use augecoin.Core.Mempool.Checks.{validate_signatures}
use augecoin.Core.Mempool.Evict.{names_sender}
use augecoin.Consensus.Validator.{active_validators}
use augecoin.Consensus.Validator.Codec.{set_to_bytes, set_from_bytes-to_bytes}
use augecoin.Node.Execution.State.{Storage}
use augecoin.Node.Execution.Signatures.{verify_operation_signatures}
use augecoin.Node.Admission.{
  gift, stored_accounts, AdminIs, validate_signatures-verify, unsigned_gift_stays,
}
use augecoin.Node.Proposer.{
  Leader, header_for, sealed, reconstruct_from_proposal, build_light_proposal, build_block,
}
use augecoin.Node.Proposer.Rebuild.{Collide, proposed, reconstruct-build, rebuilt_unique}
use augecoin.Node.Proposer.Built.{build_block-fits}
use augecoin.Tests.Data.{
  toy, account_in, empty_storage, two_validators, some_sig, signed_op, full_header,
}
use augecoin.Tests.Consensus.{two-FitsSet}
use augecoin.Tests.Wire.{signed_op-FitsOperation}
use augecoin.Tests.Mempool.{pool_config, accounts_of, pay_op, key_1, with_pay, accounts}

abbrev stored_set : Bytes
stored_set = set_to_bytes two_validators ++ []

abbrev storage : Storage
storage = record empty_storage {
  get_account = λ n. ok (accounts_of n);
  get_validator_set_bytes = ok (some stored_set);
}

abbrev admin_key : Bytes
admin_key = replicate 32 5

abbrev pool : Mempool
pool = set_admin_pubkey (new pool_config) admin_key

knows_admin : AdminIs toy storage admin_key
knows_admin = record {
  raw = stored_set;
  set = two_validators;
  stored = refl;
  decoded = set_from_bytes-to_bytes toy two_validators [] two-FitsSet refl;
  same = refl;
}

pool_key : pool.admin_pubkey ≡ some admin_key
unfolding set_admin_pubkey
pool_key = refl

taken : validate_signatures (stored_accounts toy storage) toy pool pay_op ≡ ok tt
unfolding validate_signatures bytes_eq
taken = refl

validate_signatures-verify_example : verify_operation_signatures toy storage pay_op ≡ true
validate_signatures-verify_example =
    validate_signatures-verify toy storage pool pay_op admin_key pool_key knows_admin tt taken

abbrev free_gift : Operation
free_gift = gift 3 7 (replicate 32 8) 1 (key_1 ∷ [])

unsigned : bytes_eq (replicate 32 3) key_1 ≡ false
unfolding bytes_eq
unsigned = refl

unsigned_gift_stays_example :
    (precheck_for_block toy (stored_accounts toy storage) pool free_gift ≡ ok tt)
    × (verify_operation_signatures toy storage free_gift ≡ false)
    × (names_sender 3 0 free_gift ≡ false)
unsigned_gift_stays_example =
    unsigned_gift_stays toy storage pool 3 7 (replicate 32 8) key_1 [] 1 3
      (account_in AccountState.reserved 3 0 0) refl refl unsigned

-- A hash of which no two inputs collide.
abbrev plain : Crypto
plain = record toy { blake3_512 = λ bytes. bytes }

abbrev leader_block : OperationBlock
leader_block = record {
  header = record full_header {
    operations_hash = compute_operations_merkle_root plain (signed_op ∷ []);
  };
  operations = signed_op ∷ [];
  leader_signature = some_sig;
  quorum_signatures = some_sig ∷ [];
  block_hash = [];
}

reconstruct-build_example :
    reconstruct_from_proposal plain (build_light_proposal plain leader_block) (signed_op ∷ [])
    ≡ ok (proposed plain leader_block)
reconstruct-build_example = reconstruct-build plain leader_block refl

rebuilt_unique_example :
    ((signed_op ∷ [] ≡ leader_block.operations)
      × (proposed plain leader_block ≡ proposed plain leader_block))
    ⊎ Collide plain (signed_op ∷ []) leader_block.operations
rebuilt_unique_example =
    rebuilt_unique plain leader_block (proposed plain leader_block) (signed_op ∷ [])
      (signed_op-FitsOperation, tt) (signed_op-FitsOperation, tt) reconstruct-build_example

abbrev leader : Leader
leader = record { validator_id = 0; public_key = replicate 32 0; sign = λ m. some_sig }

abbrev prev : Bytes
prev = replicate 64 4

abbrev built : OperationBlock
built = sealed toy leader (header_for toy leader 100 7 prev prev) (pay_op ∷ [])

builds : (build_block toy leader two_validators accounts 1000 100 7 prev prev with_pay).0 ≡ ok built
unfolding build_block sealed header_for bytes_eq admitted set_admin_pubkey new block_serialized_size
    to_be_bytes
builds = refl

no_more : 2 ≤ length (active_validators two_validators)
unfolding active_validators
no_more = omega arith

build_block-fits_example :
    (length (block_to_bytes (record built { quorum_signatures = some_sig ∷ some_sig ∷ [] })) ≤ 1000)
    × (built.header.operations_hash ≡ compute_operations_merkle_root toy built.operations)
build_block-fits_example =
    build_block-fits toy (λ x. refl) leader two_validators accounts 1000 100 7 prev prev with_pay
      built (some_sig ∷ some_sig ∷ []) (λ x. refl) (refl, (refl, tt)) no_more builds
