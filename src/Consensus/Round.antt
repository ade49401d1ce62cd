-- ===== src/Consensus/Round.antt =====
-- crates/augecoin-consensus/src/round.rs: the phases of one round. A method that refuses returns
-- the error; the state is then as it was.
pub mod Phases
use augecoin.Base.{
  ℕ, ◌+◌, Bool, true, false, Option, none, some, List, [], ◌∷◌, ◌++◌, leb, ◌==◌, if◌then◌else◌,
  Bytes, length, Result, ok, err, wrapping_add,
}
use augecoin.Consensus.Validator.{ValidatorSet, active_validators}
use augecoin.Consensus.Quorum.{quorum_threshold}

pub data RoundPhase : Type 0 where
  propose verify sign commit : RoundPhase

-- `Block` stands for the proposed block, which the round only stores.
pub record RoundState (Block : Type 0) : Type 0 where
  pub height : ℕ
  pub phase : RoundPhase
  pub leader_id : ℕ
  pub proposed_block : Option Block
  pub collected_signatures : List Bytes
  pub timeout_seconds : ℕ
  pub phase_entered_at : ℕ

pub data RoundError : Type 0 where
  invalid_transition : RoundPhase → RoundPhase → RoundError

module _ {Block : Type 0} where
  unfoldable pub new_round : ℕ → ℕ → ℕ → ℕ → RoundState Block
  new_round height leader_id timeout_seconds now = record {
    height = height;
    phase = RoundPhase.propose;
    leader_id = leader_id;
    proposed_block = none;
    collected_signatures = [];
    timeout_seconds = timeout_seconds;
    phase_entered_at = now;
  }

  -- Behind the test of the phase.
  abbrev pub in_propose :
      Block → RoundPhase → RoundState Block → Result RoundError (RoundState Block)
  in_propose block RoundPhase.propose s =
      ok (record s { proposed_block = some block; phase = RoundPhase.verify })
  in_propose block phase s = err (invalid_transition phase RoundPhase.verify)

  unfoldable pub propose_block : Block → RoundState Block → Result RoundError (RoundState Block)
  propose_block block s = in_propose block s.phase s

  abbrev pub in_verify : Bool → RoundPhase → RoundState Block → Result RoundError (RoundState Block)
  in_verify is_valid RoundPhase.verify s =
      ok (if is_valid then record s { phase = RoundPhase.sign } else s)
  in_verify is_valid phase s = err (invalid_transition phase RoundPhase.sign)

  unfoldable pub verify_and_advance : Bool → RoundState Block → Result RoundError (RoundState Block)
  verify_and_advance is_valid s = in_verify is_valid s.phase s

  unfoldable pub add_signature : Bytes → RoundState Block → RoundState Block
  add_signature signature s = record s {
    collected_signatures = s.collected_signatures ++ signature ∷ [];
  }

  -- whether the round is committed, and the state
  abbrev pub in_sign :
      ValidatorSet → RoundPhase → RoundState Block → Result RoundError (Bool × RoundState Block)
  in_sign vs RoundPhase.sign s = ok (
      if length (active_validators vs) == 0
      then (false, s)
      else if leb (quorum_threshold (length (active_validators vs))) (length s.collected_signatures)
      then (true, record s { phase = RoundPhase.commit })
      else (false, s))
  in_sign vs phase s = err (invalid_transition phase RoundPhase.commit)

  unfoldable pub try_commit :
      ValidatorSet → RoundState Block → Result RoundError (Bool × RoundState Block)
  try_commit vs s = in_sign vs s.phase s

  unfoldable pub check_timeout : RoundState Block → ℕ → Bool
  unfolding wrapping_add
  check_timeout s now = leb (wrapping_add s.phase_entered_at s.timeout_seconds) now

  unfoldable pub view_change : ℕ → ℕ → RoundState Block → RoundState Block
  view_change next_leader_id now s = record s {
    leader_id = next_leader_id;
    phase = RoundPhase.propose;
    proposed_block = none;
    collected_signatures = [];
    phase_entered_at = now;
  }
