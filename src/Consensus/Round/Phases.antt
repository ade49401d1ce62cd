-- ===== src/Consensus/Round/Phases.antt =====
-- Runs of a round as a step relation, and what holds in every state that a run reaches.
use augecoin.Base.{
  ℕ, ◌≤◌, ◌≡◌, refl, Bool, true, false, ◌≢◌, inl, inr, none, [], ◌∷◌, leb, ◌==◌, Bytes, length, ok,
  arith, length-append, OnOk, OnOk-use, subst, Bool-cases,
}
use augecoin.Consensus.Validator.{ValidatorSet, active_validators}
use augecoin.Consensus.Quorum.{quorum_threshold}
use augecoin.Consensus.Round.{
  RoundPhase, RoundState, new_round, propose_block, verify_and_advance, add_signature, try_commit,
  view_change, in_propose, in_verify, in_sign,
}

module _ {Block : Type 0} (vs : ValidatorSet) where
  -- One call of a method that does not refuse, under a fixed validator set.
  pub data Step : RoundState Block → RoundState Block → Type 0 where
    proposed : {s t : RoundState Block} (b : Block) → propose_block b s ≡ ok t → Step s t
    verified : {s t : RoundState Block} (v : Bool) → verify_and_advance v s ≡ ok t → Step s t
    signed : {s t : RoundState Block} (sig : Bytes) → add_signature sig s ≡ t → Step s t
    tried : {s t : RoundState Block} (done : Bool) → try_commit vs s ≡ ok (done, t) → Step s t
    changed : {s t : RoundState Block} (leader now : ℕ) → view_change leader now s ≡ t → Step s t

  pub data Reach (s : RoundState Block) : RoundState Block → Type 0 where
    here : Reach s s
    next : {t u : RoundState Block} → Reach s t → Step t u → Reach s u

  -- A block is held from the verification on, and a committed round has a quorum of signatures.
  abbrev PhaseHolds : RoundPhase → RoundState Block → Type 0
  PhaseHolds RoundPhase.propose s = s.proposed_block ≡ none
  PhaseHolds RoundPhase.verify s = s.proposed_block ≢ none
  PhaseHolds RoundPhase.sign s = s.proposed_block ≢ none
  PhaseHolds RoundPhase.commit s =
      (s.proposed_block ≢ none)
      × (1 ≤ length (active_validators vs))
      × (quorum_threshold (length (active_validators vs)) ≤ length s.collected_signatures)

  abbrev pub IsSound : RoundState Block → Type 0
  IsSound s = PhaseHolds s.phase s

  propose-IsSound :
      (b : Block) (p : RoundPhase) (s : RoundState Block) → OnOk IsSound (in_propose b p s)
  propose-IsSound b RoundPhase.propose s = λ e. cc
  propose-IsSound b _ s = tt

  verify-IsSound :
      (v : Bool) (p : RoundPhase) (s : RoundState Block)
      → PhaseHolds p s
      → IsSound s
      → OnOk IsSound (in_verify v p s)
  verify-IsSound true RoundPhase.verify s h k = h
  verify-IsSound false RoundPhase.verify s h k = k
  verify-IsSound v RoundPhase.propose s h k = tt
  verify-IsSound v _ s h k = tt

  add_signature-IsSound :
      (sig : Bytes) (p : RoundPhase) (s : RoundState Block)
      → PhaseHolds p s
      → PhaseHolds p (add_signature sig s)
  unfolding add_signature
  add_signature-IsSound sig RoundPhase.propose s h = h
  add_signature-IsSound sig RoundPhase.verify s h = h
  add_signature-IsSound sig RoundPhase.sign s h = h
  add_signature-IsSound sig RoundPhase.commit s (held, some_active, quorum) =
      (held, some_active, omega (arith, length-append s.collected_signatures (sig ∷ [])))

  commit-IsSound :
      (p : RoundPhase) (s : RoundState Block)
      → PhaseHolds p s
      → IsSound s
      → OnOk (λ r. IsSound r.1) (in_sign vs p s)
  commit-IsSound RoundPhase.sign s h k = elim (Bool-cases (length (active_validators vs) == 0)) [
    | inl nobody ↦ rw nobody k
    | inr somebody ↦
        elim (Bool-cases (
          leb (quorum_threshold (length (active_validators vs))) (length s.collected_signatures))) [
            | inl enough ↦ rw (somebody, enough) (h, ground arith, ground arith)
            | inr few ↦ rw (somebody, few) k
          ]
  ]
  commit-IsSound RoundPhase.propose s h k = tt
  commit-IsSound _ s h k = tt

  Step-IsSound : {s t : RoundState Block} → Step s t → IsSound s → IsSound t
  unfolding propose_block verify_and_advance add_signature try_commit view_change
  Step-IsSound {s} (proposed b e) h = OnOk-use IsSound _ (propose-IsSound b s.phase s) e
  Step-IsSound {s} (verified v e) h = OnOk-use IsSound _ (verify-IsSound v s.phase s h h) e
  Step-IsSound {s} (signed sig e) h = subst IsSound e (add_signature-IsSound sig s.phase s h)
  Step-IsSound {s} (tried done e) h = OnOk-use (λ r. IsSound r.1) _ (commit-IsSound s.phase s h h) e
  Step-IsSound {s} (changed leader now e) h = subst IsSound e refl

  -- In every state that a new round reaches, in whatever order the methods are called: a block is
  -- held in the phases behind `Propose`, none in `Propose`, and a committed round has an active
  -- validator and as many signatures as the threshold asks.
  pub Reach-IsSound :
      (height leader timeout now : ℕ) {t : RoundState Block}
      → Reach (new_round height leader timeout now) t
      → IsSound t
  unfolding new_round
  Reach-IsSound height leader timeout now here = refl
  Reach-IsSound height leader timeout now (next r st) =
      Step-IsSound st (Reach-IsSound height leader timeout now r)
