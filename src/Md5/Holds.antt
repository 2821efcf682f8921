-- ===== src/Md5/Holds.antt =====
-- What the context of src/md5.cpp holds between two calls of `md5_update`, and that an update which does
-- not fill the buffer keeps it.
use mathlib.Core.List.{append_assoc}
use audd_cpp.Prelude.{
  ℕ, ◌+◌, ◌*◌, ◌%◌, ◌^◌, ◌≤◌, ◌<◌, ◌≡◌, refl, sym, ap, ◌∙◌, List, [], ◌++◌, arith, length, take,
  drop, length-append, length-take, length-drop, take-append_eq,
}
use audd_cpp.Md5.Context.{Md5Ctx, initial_state, md5_init, memcpy, index_of}
use audd_cpp.Md5.Blocks.{absorb}

-- What the context holds after the bytes of `message`: the state behind its whole blocks, and the
-- rest of it at the front of the buffer.
pub record Holds (ctx : Md5Ctx) (message : List ℕ) : Type 0 where
  pub blocks : ℕ
  pub whole : List ℕ
  pub rest : List ℕ
  pub split : message ≡ whole ++ rest
  pub aligned : length whole ≡ blocks * 64
  pub short : length rest < 64
  pub absorbed : ctx.state ≡ absorb blocks initial_state whole
  pub counted : ctx.bitcount ≡ length message * 8 % 2 ^ 64
  pub buffered : take (length rest) ctx.buffer ≡ rest
  pub sized : length ctx.buffer ≡ 64

pub Holds-md5_init : (fresh : Md5Ctx) → length fresh.buffer ≡ 64 → Holds (md5_init fresh) []
unfolding md5_init
Holds-md5_init fresh h = record {
  blocks = 0;
  whole = [];
  rest = [];
  split = refl;
  aligned = omega arith;
  short = omega arith;
  absorbed = refl;
  counted = refl;
  buffered = refl;
  sized = h;
}

pub length-whole_rest :
    {ctx : Md5Ctx} {message : List ℕ} (h : Holds ctx message)
    → length message ≡ h.blocks * 64 + length h.rest
length-whole_rest h =
    ap length h.split ∙ length-append h.whole h.rest ∙ ap (λ n. n + length h.rest) h.aligned

pub index_of-Holds :
    {ctx : Md5Ctx} {message : List ℕ} (h : Holds ctx message)
    → index_of ctx.bitcount ≡ length h.rest
index_of-Holds h = omega (arith, h.counted, h.short, length-whole_rest h)

pub length-memcpy :
    (at : ℕ) (bytes buffer : List ℕ)
    → at + length bytes ≤ length buffer
    → length (memcpy at bytes buffer) ≡ length buffer
unfolding memcpy
length-memcpy at bytes buffer h = omega (
  arith,
  length-append (take at buffer) (bytes ++ drop (at + length bytes) buffer),
  length-append bytes (drop (at + length bytes) buffer),
  length-take at buffer,
  length-drop (at + length bytes) buffer,
)

-- What was in front of the copied bytes stays, and they follow it.
pub take-memcpy :
    (front bytes buffer : List ℕ)
    → take (length front) buffer ≡ front
    → take (length (front ++ bytes)) (memcpy (length front) bytes buffer) ≡ front ++ bytes
unfolding memcpy
take-memcpy front bytes buffer h = rw h (
    ap (take (length (front ++ bytes)))
      (sym (append_assoc front bytes (drop (length front + length bytes) buffer)))
    ∙ take-append_eq _ (front ++ bytes) _ refl)

pub counted_more :
    (count bitcount len : ℕ)
    → bitcount ≡ count * 8 % 2 ^ 64
    → (bitcount + len * 2 ^ 3 % 2 ^ 64) % 2 ^ 64 ≡ (count + len) * 8 % 2 ^ 64
counted_more count bitcount len h = omega arith

module _ {ctx : Md5Ctx} {message : List ℕ} (h : Holds ctx message) (bytes : List ℕ) where
  -- `bytes` fits behind the rest without filling the buffer.
  pub Holds-update_short :
      (bitcount : ℕ)
      → bitcount ≡ length (message ++ bytes) * 8 % 2 ^ 64
      → length h.rest + length bytes < 64
      → Holds
          (record ctx { bitcount = bitcount; buffer = memcpy (length h.rest) bytes ctx.buffer })
          (message ++ bytes)
  Holds-update_short bitcount counted fits = record {
    blocks = h.blocks;
    whole = h.whole;
    rest = h.rest ++ bytes;
    split = ap (λ m. m ++ bytes) h.split ∙ append_assoc h.whole h.rest bytes;
    aligned = h.aligned;
    short = omega (arith, length-append h.rest bytes);
    absorbed = h.absorbed;
    counted = counted;
    buffered = take-memcpy h.rest bytes ctx.buffer h.buffered;
    sized = length-memcpy (length h.rest) bytes ctx.buffer (omega (arith, h.sized)) ∙ h.sized;
  }
