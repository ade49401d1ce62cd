-- ===== src/Core/Codec/Framed.antt =====
-- crates/augecoin-core/src/block.rs and proposal.rs: lists of operations, each behind its length in
-- bytes. The two files differ in their errors: `eof` where a number ends too early, `exceeds` where
-- the bytes of an operation do, `too_many` for a count, `invalid` for an operation.
use augecoin.Base.{
  ℕ, ◌≤◌, ◌<◌, ◌≡◌, refl, subst, false, List, [], ◌++◌, Bytes, length, arith, All, ltb,
  if◌then◌else◌, ok, true, err, u32_mod,
}
use mathlib.Core.List.{append-nil}
use augecoin.Core.Operation.{Operation}
use augecoin.Core.Codec.Write.{write_u32, write_each, operation_to_bytes}
use augecoin.Core.Codec.Reader.{Reader, ◌>>=◌, pure, fail, read_times, read_fixed, read_u32}
use augecoin.Core.Codec.Reads.{
  Reads, Refuses, bind-Reads, end-Reads, times-Reads, fixed-Reads, u32-Reads,
}
use augecoin.Core.Codec.Read.{OperationError}
use augecoin.Core.Codec.Payload.{operation_from_bytes}
use augecoin.Core.Codec.RoundTrip.{FitsOperation, operation_from_bytes-to_bytes}

unfoldable pub write_framed : Operation → Bytes
unfolding write_u32 operation_to_bytes
write_framed op = write_u32 (length (operation_to_bytes op)) ++ operation_to_bytes op

unfoldable pub write_operations : List Operation → Bytes
unfolding write_u32 write_each write_framed
write_operations ops = write_u32 (length ops) ++ write_each write_framed ops

-- The operation fits the wire form, and its length a word.
abbrev pub FitsFramed : Operation → Type 0
FitsFramed op = FitsOperation op × (length (operation_to_bytes op) < u32_mod)

module _ {E : Type 0} (eof exceeds too_many : E) (invalid : OperationError → E) where
  -- a count that is tested against a maximum
  unfoldable pub read_count : ℕ → Reader E ℕ
  unfolding ◌>>=◌ pure fail read_u32
  read_count max = do n ← read_u32 eof; if ltb max n then fail too_many else pure n

  -- The bytes of one operation, which are read by themselves: what they have behind it is skipped.
  unfoldable pub parse_operation : Bytes → Reader E Operation
  unfolding operation_from_bytes pure fail
  parse_operation bytes = elim (operation_from_bytes bytes) [
    | err e ↦ fail (invalid e)
    | ok op ↦ pure op
  ]

  unfoldable pub read_framed : Reader E Operation
  unfolding ◌>>=◌ parse_operation read_u32 read_fixed
  read_framed = do len ← read_u32 eof; bytes ← read_fixed exceeds len; parse_operation bytes

  unfoldable pub read_operations : ℕ → Reader E (List Operation)
  unfolding ◌>>=◌ read_count read_times read_framed
  read_operations max = do n ← read_count max; read_times n read_framed

  pub count-Reads : (max n : ℕ) → n ≤ max → max < u32_mod → Reads (read_count max) (write_u32 n) n
  unfolding read_count
  count-Reads max n h small = end-Reads _ (u32-Reads eof n (omega (arith, small))) (rw within refl)
    where
      within : ltb max n ≡ false
      within = ground (arith, h)

  pub count-Refuses :
      (max n : ℕ) → max < n → n < u32_mod → Refuses (read_count max) (write_u32 n) too_many
  unfolding read_count ◌>>=◌ fail
  count-Refuses max n h small = record {
    fails = λ rest. rw (read_count, ◌>>=◌, (u32-Reads eof n small).apply rest, over) refl;
  }
    where
      over : ltb max n ≡ true
      over = ground (arith, h)

  framed-Reads : (op : Operation) → FitsFramed op → Reads read_framed (write_framed op) op
  unfolding read_framed write_framed
  framed-Reads op (fits, short) =
      bind-Reads _ (u32-Reads eof (length (operation_to_bytes op)) short) (
        end-Reads _
          (fixed-Reads exceeds (length (operation_to_bytes op)) (operation_to_bytes op) refl)
          (rw (parse_operation, parsed) refl))
    where
      parsed : operation_from_bytes (operation_to_bytes op) ≡ ok op
      parsed =
          subst (λ bytes. operation_from_bytes bytes ≡ ok op) (append-nil (operation_to_bytes op))
            (operation_from_bytes-to_bytes op [] fits)

  pub operations-Reads :
      (max : ℕ) (ops : List Operation)
      → max < u32_mod
      → length ops ≤ max
      → All FitsFramed ops
      → Reads (read_operations max) (write_operations ops) ops
  unfolding read_operations write_operations
  operations-Reads max ops small short fits =
      bind-Reads _ (count-Reads max (length ops) short small)
        (times-Reads read_framed write_framed FitsFramed framed-Reads ops fits)
