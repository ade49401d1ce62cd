-- ===== src/Core/Codec/Reads.antt =====
-- A reader that gives back what a writer wrote, and the rules by which a chain of reads does.
use augecoin.Base.{
  ℕ, ◌<◌, ◌≡◌, refl, subst, List, [], ◌∷◌, ◌++◌, Bytes, length, ok, err, All, to_be_bytes,
  from_be_bytes, take_exact-append_of_length, length-to_be_bytes, u16_round_trip, u32_round_trip,
  u64_round_trip, u16_mod, u32_mod, u64_mod,
}
use mathlib.Core.List.{append_assoc, append-nil}
use augecoin.Core.Codec.Reader.{
  Reader, ◌>>=◌, pure, read_times, read_fixed, read_u8, read_u16, read_u32, read_u64,
  read_bytes_with_len,
}
use augecoin.Core.Codec.Write.{write_u64, write_u32, write_u16, write_bytes_with_len, write_each}

-- Whatever follows `written`, the reader gives `a` and leaves what follows.
pub record Reads {E A : Type 0} (read : Reader E A) (written : Bytes) (a : A) : Type 0 where
  pub apply : (rest : Bytes) → read (written ++ rest) ≡ ok (a, rest)

-- Whatever follows `written`, the reader fails with `e`.
pub record Refuses {E A : Type 0} (read : Reader E A) (written : Bytes) (e : E) : Type 0 where
  pub fails : (rest : Bytes) → read (written ++ rest) ≡ err e

-- A later read of a chain fails.
pub bind-Refuses :
    {E A B : Type 0} {m : Reader E A} (f : A → Reader E B) {w v : Bytes} {a : A} {e : E}
    → Reads m w a
    → Refuses (f a) v e
    → Refuses (m >>= f) (w ++ v) e
unfolding ◌>>=◌
bind-Refuses {m} f {w} {v} first then_ = record {
  fails = λ rest. rw (append_assoc w v rest, ◌>>=◌, first.apply (v ++ rest)) (then_.fails rest);
}

-- The first read of a chain fails.
pub first-Refuses :
    {E A B : Type 0} {m : Reader E A} (f : A → Reader E B) {w : Bytes} (v : Bytes) {e : E}
    → Refuses m w e
    → Refuses (m >>= f) (w ++ v) e
unfolding ◌>>=◌
first-Refuses {m} f {w} v first = record {
  fails = λ rest. rw (append_assoc w v rest, ◌>>=◌, first.fails (v ++ rest)) refl;
}

-- Nothing follows.
pub Reads_alone :
    {E A : Type 0} {read : Reader E A} {written : Bytes} {a : A}
    → Reads read written a
    → read written ≡ ok (a, [])
Reads_alone {read} {written} {a} r =
    subst (λ w. read w ≡ ok (a, [])) (append-nil written) (r.apply [])

pub pure-Reads : {E A : Type 0} (a : A) → Reads {E = E} (pure a) [] a
unfolding pure
pure-Reads a = record { apply = λ rest. refl }

pub bind-Reads :
    {E A B : Type 0} {m : Reader E A} (f : A → Reader E B) {w v : Bytes} {a : A} {b : B}
    → Reads m w a
    → Reads (f a) v b
    → Reads (m >>= f) (w ++ v) b
unfolding ◌>>=◌
bind-Reads {m} f {w} {v} first then_ = record {
  apply = λ rest. rw (append_assoc w v rest, ◌>>=◌, first.apply (v ++ rest)) (then_.apply rest);
}

-- The last read of a chain, and what is made of it.
pub end-Reads :
    {E A B : Type 0} {m : Reader E A} (f : A → Reader E B) {w : Bytes} {a : A} {b : B}
    → Reads m w a
    → f a ≡ pure b
    → Reads (m >>= f) w b
unfolding ◌>>=◌ pure
end-Reads f {w} first e = record { apply = λ rest. rw (◌>>=◌, first.apply rest, e) refl }

pub last-Reads :
    {E A B : Type 0} {m : Reader E A} (g : A → B) {w : Bytes} {a : A}
    → Reads m w a
    → Reads (m >>= λ x. pure (g x)) w (g a)
last-Reads g first = end-Reads _ first refl

-- A step that reads nothing.
pub silent-Reads :
    {E A B : Type 0} (m : Reader E A) (f : A → Reader E B) (a : A) {v : Bytes} {b : B}
    → m ≡ pure a
    → Reads (f a) v b
    → Reads (m >>= f) v b
unfolding ◌>>=◌ pure
silent-Reads m f a e behind = record { apply = λ rest. rw (◌>>=◌, e) (behind.apply rest) }

pub times-Reads :
    {E A : Type 0} (read : Reader E A) (write : A → Bytes) (P : A → Type 0)
    → ((a : A) → P a → Reads read (write a) a)
    → (xs : List A) → All P xs
    → Reads (read_times (length xs) read) (write_each write xs) xs
unfolding read_times write_each
times-Reads read write P each [] h = pure-Reads []
times-Reads read write P each (x ∷ xs) (h, hs) =
    bind-Reads _ (each x h) (last-Reads (λ ys. x ∷ ys) (times-Reads read write P each xs hs))

module _ {E : Type 0} (eof : E) where
  pub fixed-Reads :
      (n : ℕ) (bytes : Bytes) → length bytes ≡ n → Reads (read_fixed eof n) bytes bytes
  unfolding read_fixed
  fixed-Reads n bytes h = record {
    apply = λ rest. rw (read_fixed, take_exact-append_of_length n bytes rest h) refl;
  }

  pub u8-Reads : (b : ℕ) → Reads (read_u8 eof) (b ∷ []) b
  unfolding read_u8
  u8-Reads b = record { apply = λ rest. refl }

  pub tag-Reads :
      {B : Type 0} (b : ℕ) (f : ℕ → Reader E B) {v : Bytes} {a : B}
      → Reads (f b) v a
      → Reads (read_u8 eof >>= f) (b ∷ v) a
  unfolding read_u8 ◌>>=◌
  tag-Reads b f behind = record { apply = λ rest. behind.apply rest }

  pub u16-Reads : (v : ℕ) → v < u16_mod → Reads (read_u16 eof) (write_u16 v) v
  unfolding read_u16 write_u16
  u16-Reads v h =
      subst (λ x. Reads (read_u16 eof) (write_u16 v) x) (u16_round_trip v h)
        (last-Reads from_be_bytes (fixed-Reads 2 (to_be_bytes 2 v) (length-to_be_bytes 2 v)))

  pub u32-Reads : (v : ℕ) → v < u32_mod → Reads (read_u32 eof) (write_u32 v) v
  unfolding read_u32 write_u32
  u32-Reads v h =
      subst (λ x. Reads (read_u32 eof) (write_u32 v) x) (u32_round_trip v h)
        (last-Reads from_be_bytes (fixed-Reads 4 (to_be_bytes 4 v) (length-to_be_bytes 4 v)))

  pub u64-Reads : (v : ℕ) → v < u64_mod → Reads (read_u64 eof) (write_u64 v) v
  unfolding read_u64 write_u64
  u64-Reads v h =
      subst (λ x. Reads (read_u64 eof) (write_u64 v) x) (u64_round_trip v h)
        (last-Reads from_be_bytes (fixed-Reads 8 (to_be_bytes 8 v) (length-to_be_bytes 8 v)))

  pub bytes_with_len-Reads :
      (bytes : Bytes)
      → length bytes < u16_mod
      → Reads (read_bytes_with_len eof) (write_bytes_with_len bytes) bytes
  unfolding read_bytes_with_len write_bytes_with_len
  bytes_with_len-Reads bytes h =
      bind-Reads _ (u16-Reads (length bytes) h) (fixed-Reads (length bytes) bytes refl)
