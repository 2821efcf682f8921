-- ===== src/Md5/Reference.antt =====
-- `md5_hex` (src/md5.cpp) against RFC 1321 on a whole message: pad, cut into blocks of 64 bytes,
-- transform one after another, and write the four words out with the low byte first.
use mathlib.Core.List.{append-nil}
use audd_cpp.Prelude.{
  ℕ, zero, suc, ◌-◌, ◌*◌, ◌/◌, ◌%◌, ◌^◌, ◌≤◌, ◌<◌, ◌≡◌, refl, sym, ap, ◌∙◌, List, [], ◌∷◌, ◌++◌,
  arith, length, take, replicate, length-append, length-replicate,
}
use audd_cpp.Prelude.Text.{Text}
use audd_cpp.Md5.{Words}
use audd_cpp.Md5.Context.{
  Md5Ctx, initial_state, md5_init, index_of, md5_update, md5_final, digest_of, bytes_le, padding,
  pad_length, hex_digits, md5_hex,
}
use audd_cpp.Md5.Blocks.{absorb}
use audd_cpp.Md5.Holds.{Holds, Holds-md5_init, index_of-Holds, length-whole_rest}
use audd_cpp.Md5.Update.{Holds-md5_update}

abbrev pub little_endian : ℕ → ℕ → List ℕ
little_endian zero x = []
little_endian (suc n) x = (x % 256) ∷ little_endian n (x / 256)

-- A one bit, zeros up to 56 modulo 64 bytes, and the length in bits as 64 bits.
abbrev pub rfc_pad : List ℕ → List ℕ
rfc_pad message =
    (message ++ 0x80 ∷ replicate ((119 - length message % 64) % 64) 0)
    ++ little_endian 8 (length message * 8 % 2 ^ 64)

abbrev pub rfc_digest : List ℕ → List ℕ
rfc_digest message =
    let w = absorb (length (rfc_pad message) / 64) initial_state (rfc_pad message) in
    little_endian 4 w.a ++ (little_endian 4 w.b ++ (little_endian 4 w.c ++ little_endian 4 w.d))

eight_bytes : (x : ℕ) → bytes_le 8 0 x ≡ little_endian 8 x
eight_bytes x = ground arith

four_bytes : (x : ℕ) → bytes_le 4 0 x ≡ little_endian 4 x
four_bytes x = ground arith

digest_of-eq :
    (w : Words)
    → digest_of w
      ≡ little_endian 4 w.a ++ (little_endian 4 w.b ++ (little_endian 4 w.c ++ little_endian 4 w.d))
unfolding digest_of
digest_of-eq w =
    λ j. four_bytes w.a j ++ (four_bytes w.b j ++ (four_bytes w.c j ++ four_bytes w.d j))

take-replicate : (k n : ℕ) (a : ℕ) → k ≤ n → take k (replicate n a) ≡ replicate k a
take-replicate zero n a h = refl
take-replicate (suc k) zero a h = absurd (omega arith)
take-replicate (suc k) (suc n) a h = ap (λ l. a ∷ l) (take-replicate k n a (omega arith))

pad_bytes : (r : ℕ) → r < 64 → take (pad_length r) padding ≡ 0x80 ∷ replicate ((119 - r) % 64) 0
pad_bytes r h =
    let e : pad_length r ≡ suc ((119 - r) % 64) = ground arith in
    rw e (ap (λ l. 0x80 ∷ l) (take-replicate ((119 - r) % 64) 63 0 (omega arith)))

-- A context that holds whole blocks only.
state_of_whole :
    {ctx : Md5Ctx} {message : List ℕ}
    → Holds ctx message
    → length message % 64 ≡ 0
    → ctx.state ≡ absorb (length message / 64) initial_state message
state_of_whole {ctx} {message} h aligned = h.absorbed ∙ λ j. absorb (count j) initial_state (all j)
  where
    empty : (l : List ℕ) → length l ≡ 0 → h.whole ++ l ≡ h.whole
    empty [] e = append-nil h.whole
    empty (x ∷ l) e = absurd (omega arith)

    all : h.whole ≡ message
    all = sym (h.split ∙ empty h.rest (omega (arith, length-whole_rest h, h.short)))

    count : h.blocks ≡ length message / 64
    count = omega (arith, length-whole_rest h, h.short)

length-rfc_pad : (message : List ℕ) → length (rfc_pad message) % 64 ≡ 0
length-rfc_pad message =
    let zeros = (119 - length message % 64) % 64 in
    let front = message ++ 0x80 ∷ replicate zeros 0 in
    omega (
      arith,
      length-append front (little_endian 8 (length message * 8 % 2 ^ 64)),
      length-append message (0x80 ∷ replicate zeros 0),
      length-replicate {A = ℕ} zeros 0,
    )

module _ {ctx : Md5Ctx} {message : List ℕ} (h : Holds ctx message) where
  final_bytes :
      (message ++ take (pad_length (index_of ctx.bitcount)) padding) ++ bytes_le 8 0 ctx.bitcount
      ≡ rfc_pad message
  final_bytes = λ j. (message ++ pad j) ++ bits j
    where
      at : index_of ctx.bitcount ≡ length message % 64
      at = index_of-Holds h ∙ omega (arith, length-whole_rest h, h.short)

      pad :
          take (pad_length (index_of ctx.bitcount)) padding
          ≡ 0x80 ∷ replicate ((119 - length message % 64) % 64) 0
      pad = rw at (pad_bytes (length message % 64) (omega arith))

      bits : bytes_le 8 0 ctx.bitcount ≡ little_endian 8 (length message * 8 % 2 ^ 64)
      bits = eight_bytes ctx.bitcount ∙ ap (little_endian 8) h.counted

  pub md5_final-eq-rfc_digest : md5_final ctx ≡ rfc_digest message
  unfolding md5_final
  md5_final-eq-rfc_digest =
      let padded = Holds-md5_update h (take (pad_length (index_of ctx.bitcount)) padding) in
      let finished = Holds-md5_update padded (bytes_le 8 0 ctx.bitcount) in
      let aligned = ap (λ m. length m % 64) final_bytes ∙ length-rfc_pad message in
      ap digest_of (
        state_of_whole finished aligned
        ∙ ap (λ m. absorb (length m / 64) initial_state m) final_bytes)
      ∙ digest_of-eq _

-- Whatever the uninitialised context held, with its buffer of 64 bytes, `md5_hex` gives the lowercase hex of
-- the RFC's digest of the padded message, for a message of any length.
pub md5_hex-eq-rfc_digest :
    (fresh : Md5Ctx) (s : Text)
    → length fresh.buffer ≡ 64
    → md5_hex fresh s ≡ hex_digits (rfc_digest s)
unfolding md5_hex
md5_hex-eq-rfc_digest fresh s sized =
    ap hex_digits (md5_final-eq-rfc_digest (Holds-md5_update (Holds-md5_init fresh sized) s))

-- Feeding a message in two parts gives the digest of feeding it whole, from a context with a buffer of 64
-- bytes.
pub md5_update-append :
    (fresh : Md5Ctx) (s t : List ℕ)
    → length fresh.buffer ≡ 64
    → md5_final (md5_update (md5_update (md5_init fresh) s) t)
      ≡ md5_final (md5_update (md5_init fresh) (s ++ t))
md5_update-append fresh s t sized =
    let start = Holds-md5_init fresh sized in
    md5_final-eq-rfc_digest (Holds-md5_update (Holds-md5_update start s) t)
    ∙ sym (md5_final-eq-rfc_digest (Holds-md5_update start (s ++ t)))
