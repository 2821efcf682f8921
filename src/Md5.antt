-- ===== src/Md5.antt =====
-- src/md5.cpp: the words, the four rounds and the transform. A `std::uint32_t` is a number below
-- 2 ^ 32; `%` writes its wrap-around out.
pub mod Context
pub mod Blocks
pub mod Holds
pub mod Update
pub mod Reference
pub mod Hex
mod Tests
use Prim.Native.Nat.{bit_and, bit_or, bit_xor}
use audd_cpp.Prelude.{ℕ, ◌+◌, ◌-◌, ◌*◌, ◌/◌, ◌%◌, ◌^◌, ◌<◌, List, [], ◌∷◌, arith, get_or}

abbrev pub u32_mod : ℕ
u32_mod = 2 ^ 32

-- `~x`
abbrev pub not_32 : ℕ → ℕ
not_32 x = u32_mod - 1 - x

pub f : ℕ → ℕ → ℕ → ℕ
f x y z = bit_or (bit_and x y) (bit_and (not_32 x) z)

pub g : ℕ → ℕ → ℕ → ℕ
g x y z = bit_or (bit_and x z) (bit_and y (not_32 z))

pub h : ℕ → ℕ → ℕ → ℕ
h x y z = bit_xor (bit_xor x y) z

pub i : ℕ → ℕ → ℕ → ℕ
i x y z = bit_xor y (bit_or x (not_32 z))

pub rotl : ℕ → ℕ → ℕ
rotl x n = bit_or (x * 2 ^ n % u32_mod) (x / 2 ^ (32 - n))

-- The body that FF, GG, HH and II share: `a = b + rotl(a + mix + x + ac, s)`.
pub mix_in : ℕ → ℕ → ℕ → ℕ → ℕ → ℕ → ℕ
unfolding rotl
mix_in a b mix x s ac = (b + rotl ((a + mix + x + ac) % u32_mod) s) % u32_mod

-- The four words of the state, and the local `a`, `b`, `c`, `d`.
pub record Words : Type 0 where
  pub a : ℕ
  pub b : ℕ
  pub c : ℕ
  pub d : ℕ

pub data Round : Type 0 where
  ff gg hh ii : Round

-- The register that a call of a round assigns, its first argument.
pub data Target : Type 0 where
  to_a to_b to_c to_d : Target

-- One call of FF, GG, HH or II: the word of the block, the shift and the constant.
pub record Call : Type 0 where
  pub round : Round
  pub target : Target
  pub word : ℕ
  pub shift : ℕ
  pub constant : ℕ

abbrev pub call : Round → Target → ℕ → ℕ → ℕ → Call
call round target word shift constant = record {
  round = round;
  target = target;
  word = word;
  shift = shift;
  constant = constant;
}

pub round_function : Round → ℕ → ℕ → ℕ → ℕ
unfolding f g h i
round_function ff = f
round_function gg = g
round_function hh = h
round_function ii = i

-- The arguments after the first rotate with it: FF(a,b,c,d), FF(d,a,b,c), FF(c,d,a,b), FF(b,c,d,a).
assign : Target → (ℕ → ℕ → ℕ → ℕ → ℕ) → Words → Words
assign to_a new w = record w { a = new w.a w.b w.c w.d }
assign to_d new w = record w { d = new w.d w.a w.b w.c }
assign to_c new w = record w { c = new w.c w.d w.a w.b }
assign to_b new w = record w { b = new w.b w.c w.d w.a }

pub run_call : List ℕ → Call → Words → Words
unfolding assign mix_in round_function
run_call x k =
    assign k.target
      λ a b c d. mix_in a b (round_function k.round b c d) (get_or x k.word 0) k.shift k.constant

pub run_calls : List ℕ → List Call → Words → Words
unfolding run_call
run_calls x [] w = w
run_calls x (k ∷ ks) w = run_calls x ks (run_call x k w)

abbrev pub round1 : List Call
round1 =
    call ff to_a 0 7 0xd76aa478
    ∷ call ff to_d 1 12 0xe8c7b756
    ∷ call ff to_c 2 17 0x242070db
    ∷ call ff to_b 3 22 0xc1bdceee
    ∷ call ff to_a 4 7 0xf57c0faf
    ∷ call ff to_d 5 12 0x4787c62a
    ∷ call ff to_c 6 17 0xa8304613
    ∷ call ff to_b 7 22 0xfd469501
    ∷ call ff to_a 8 7 0x698098d8
    ∷ call ff to_d 9 12 0x8b44f7af
    ∷ call ff to_c 10 17 0xffff5bb1
    ∷ call ff to_b 11 22 0x895cd7be
    ∷ call ff to_a 12 7 0x6b901122
    ∷ call ff to_d 13 12 0xfd987193
    ∷ call ff to_c 14 17 0xa679438e
    ∷ call ff to_b 15 22 0x49b40821
    ∷ []

abbrev pub round2 : List Call
round2 =
    call gg to_a 1 5 0xf61e2562
    ∷ call gg to_d 6 9 0xc040b340
    ∷ call gg to_c 11 14 0x265e5a51
    ∷ call gg to_b 0 20 0xe9b6c7aa
    ∷ call gg to_a 5 5 0xd62f105d
    ∷ call gg to_d 10 9 0x02441453
    ∷ call gg to_c 15 14 0xd8a1e681
    ∷ call gg to_b 4 20 0xe7d3fbc8
    ∷ call gg to_a 9 5 0x21e1cde6
    ∷ call gg to_d 14 9 0xc33707d6
    ∷ call gg to_c 3 14 0xf4d50d87
    ∷ call gg to_b 8 20 0x455a14ed
    ∷ call gg to_a 13 5 0xa9e3e905
    ∷ call gg to_d 2 9 0xfcefa3f8
    ∷ call gg to_c 7 14 0x676f02d9
    ∷ call gg to_b 12 20 0x8d2a4c8a
    ∷ []

abbrev pub round3 : List Call
round3 =
    call hh to_a 5 4 0xfffa3942
    ∷ call hh to_d 8 11 0x8771f681
    ∷ call hh to_c 11 16 0x6d9d6122
    ∷ call hh to_b 14 23 0xfde5380c
    ∷ call hh to_a 1 4 0xa4beea44
    ∷ call hh to_d 4 11 0x4bdecfa9
    ∷ call hh to_c 7 16 0xf6bb4b60
    ∷ call hh to_b 10 23 0xbebfbc70
    ∷ call hh to_a 13 4 0x289b7ec6
    ∷ call hh to_d 0 11 0xeaa127fa
    ∷ call hh to_c 3 16 0xd4ef3085
    ∷ call hh to_b 6 23 0x04881d05
    ∷ call hh to_a 9 4 0xd9d4d039
    ∷ call hh to_d 12 11 0xe6db99e5
    ∷ call hh to_c 15 16 0x1fa27cf8
    ∷ call hh to_b 2 23 0xc4ac5665
    ∷ []

abbrev pub round4 : List Call
round4 =
    call ii to_a 0 6 0xf4292244
    ∷ call ii to_d 7 10 0x432aff97
    ∷ call ii to_c 14 15 0xab9423a7
    ∷ call ii to_b 5 21 0xfc93a039
    ∷ call ii to_a 12 6 0x655b59c3
    ∷ call ii to_d 3 10 0x8f0ccc92
    ∷ call ii to_c 10 15 0xffeff47d
    ∷ call ii to_b 1 21 0x85845dd1
    ∷ call ii to_a 8 6 0x6fa87e4f
    ∷ call ii to_d 15 10 0xfe2ce6e0
    ∷ call ii to_c 6 15 0xa3014314
    ∷ call ii to_b 13 21 0x4e0811a1
    ∷ call ii to_a 4 6 0xf7537e82
    ∷ call ii to_d 11 10 0xbd3af235
    ∷ call ii to_c 2 15 0x2ad7d2bb
    ∷ call ii to_b 9 21 0xeb86d391
    ∷ []

-- The bytes of a block as sixteen little-endian words.
pub decode_words : ℕ → List ℕ → List ℕ
decode_words ℕ.zero block = []
decode_words (ℕ.suc n) (b0 ∷ b1 ∷ b2 ∷ b3 ∷ block) =
    bit_or (bit_or (bit_or b0 (b1 * 2 ^ 8)) (b2 * 2 ^ 16)) (b3 * 2 ^ 24) ∷ decode_words n block
decode_words (ℕ.suc n) _ = []

pub md5_transform : Words → List ℕ → Words
unfolding decode_words run_calls
md5_transform state block =
    let x = decode_words 16 block in
    let w =
      run_calls x round4 (run_calls x round3 (run_calls x round2 (run_calls x round1 state))) in
    record {
      a = (state.a + w.a) % u32_mod;
      b = (state.b + w.b) % u32_mod;
      c = (state.c + w.c) % u32_mod;
      d = (state.d + w.d) % u32_mod;
    }

abbrev pub AreWords : Words → Type 0
AreWords w = (w.a < u32_mod) × (w.b < u32_mod) × (w.c < u32_mod) × (w.d < u32_mod)

pub md5_transform-AreWords : (state : Words) (block : List ℕ) → AreWords (md5_transform state block)
unfolding md5_transform
md5_transform-AreWords state block = omega arith
