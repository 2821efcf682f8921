-- ===== src/Md5/Context.antt =====
-- src/md5.cpp: the context, `md5_init`, `md5_update`, `md5_final` and `md5_hex`.
use audd_cpp.Prelude.{
  ℕ, zero, suc, ◌+◌, ◌-◌, ◌*◌, ◌/◌, ◌%◌, ◌^◌, List, [], ◌∷◌, ◌++◌, length, take, drop, get_or,
  replicate, ltb, leb, if◌then◌else◌,
}
use audd_cpp.Prelude.Text.{Text, utf8}
use audd_cpp.Md5.{Words, md5_transform}

pub record Md5Ctx : Type 0 where
  pub state : Words
  pub bitcount : ℕ
  pub buffer : List ℕ

abbrev pub initial_state : Words
initial_state = record { a = 0x67452301; b = 0xefcdab89; c = 0x98badcfe; d = 0x10325476 }

-- The buffer of a fresh context is not initialised, and `md5_init` leaves it so.
unfoldable pub md5_init : Md5Ctx → Md5Ctx
md5_init ctx = record ctx { state = initial_state; bitcount = 0 }

-- `memcpy(&buffer[at], bytes, bytes.size())`
unfoldable pub memcpy : ℕ → List ℕ → List ℕ → List ℕ
memcpy at bytes buffer = take at buffer ++ (bytes ++ drop (at + length bytes) buffer)

abbrev pub index_of : ℕ → ℕ
index_of bitcount = bitcount / 2 ^ 3 % 64

-- `for (; i + 63 < len; i += 64) md5_transform(state, &data[i])`; `len` rounds are enough.
unfoldable pub transform_from : ℕ → ℕ → List ℕ → ℕ → Words → ℕ × Words
transform_from zero i bytes len state = (i, state)
transform_from (suc fuel) i bytes len state =
    let next =
      transform_from fuel (i + 64) bytes len (md5_transform state (take 64 (drop i bytes))) in
    if ltb (i + 63) len then next else (i, state)

-- The case `len >= part_len`.
unfoldable pub update_full : ℕ → Md5Ctx → List ℕ → Md5Ctx
unfolding memcpy transform_from
update_full index ctx bytes =
    let len = length bytes in
    let part_len = 64 - index in
    let filled = memcpy index (take part_len bytes) ctx.buffer in
    let (i, state) = transform_from len part_len bytes len (md5_transform ctx.state filled) in
    record ctx { state = state; buffer = memcpy 0 (drop i bytes) filled }

unfoldable pub md5_update : Md5Ctx → List ℕ → Md5Ctx
unfolding update_full
md5_update ctx bytes =
    let len = length bytes in
    let index = index_of ctx.bitcount in
    let counted = record ctx { bitcount = (ctx.bitcount + len * 2 ^ 3 % 2 ^ 64) % 2 ^ 64 } in
    if leb (64 - index) len
    then update_full index counted bytes
    else record counted { buffer = memcpy index bytes ctx.buffer }

-- `(x >> (i * 8)) & 0xFF` for each `i` from `i` on.
abbrev pub bytes_le : ℕ → ℕ → ℕ → List ℕ
bytes_le zero i x = []
bytes_le (suc n) i x = (x / 2 ^ (i * 8) % 256) ∷ bytes_le n (i + 1) x

abbrev pub padding : List ℕ
padding = 0x80 ∷ replicate 63 0

abbrev pub pad_length : ℕ → ℕ
pad_length index = if ltb index 56 then 56 - index else 120 - index

unfoldable pub digest_of : Words → List ℕ
digest_of w = bytes_le 4 0 w.a ++ (bytes_le 4 0 w.b ++ (bytes_le 4 0 w.c ++ bytes_le 4 0 w.d))

unfoldable pub md5_final : Md5Ctx → List ℕ
unfolding md5_update digest_of
md5_final ctx =
    let bits = bytes_le 8 0 ctx.bitcount in
    let padded = md5_update ctx (take (pad_length (index_of ctx.bitcount)) padding) in
    digest_of (md5_update padded bits).state

abbrev pub hex : Text
hex = utf8 "0123456789abcdef"

unfoldable pub hex_digits : List ℕ → Text
hex_digits [] = []
hex_digits (b ∷ bytes) = get_or hex (b / 2 ^ 4 % 16) 0 ∷ get_or hex (b % 16) 0 ∷ hex_digits bytes

-- `fresh` is the uninitialised `Md5Ctx ctx`.
unfoldable pub md5_hex : Md5Ctx → Text → Text
unfolding md5_init md5_update md5_final hex_digits
md5_hex fresh s = hex_digits (md5_final (md5_update (md5_init fresh) s))
