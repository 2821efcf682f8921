-- ===== src/Md5/Hex.antt =====
-- The form of what `md5_hex` (src/md5.cpp) returns: 32 lowercase hexadecimal digits.
use audd_cpp.Prelude.{
  ℕ, suc, ◌*◌, ◌/◌, ◌%◌, ◌<◌, ◌≡◌, refl, List, [], ◌∷◌, arith, length, get_or, all, All, Bool, true,
  leb, ◌&&◌, ◌||◌, zero,
}
use audd_cpp.Prelude.Text.{Text}
use audd_cpp.Md5.Context.{
  Md5Ctx, hex, hex_digits, digest_of, md5_hex, md5_init, md5_update, md5_final,
}

abbrev pub is_lower_hex : ℕ → Bool
is_lower_hex c = (leb b'0' c && leb c b'9') || (leb b'a' c && leb c b'f')

get_or-all :
    (p : ℕ → Bool) (table : List ℕ) (at : ℕ)
    → all p table ≡ true
    → at < length table
    → p (get_or table at 0) ≡ true
get_or-all p [] at good inside = absurd (omega arith)
get_or-all p (first ∷ table) zero good inside = ground (arith, good)
get_or-all p (first ∷ table) (suc at) good inside =
    let later : all p table ≡ true = ground (arith, good) in
    get_or-all p table at later (omega (arith, inside))

hex_table : all is_lower_hex hex ≡ true
hex_table = refl

nibble : (d : ℕ) → d < 16 → is_lower_hex (get_or hex d 0) ≡ true
nibble d h = get_or-all is_lower_hex hex d hex_table h

hex_digits-is_lower_hex : (bytes : List ℕ) → All (λ c. is_lower_hex c ≡ true) (hex_digits bytes)
unfolding hex_digits
hex_digits-is_lower_hex [] = tt
hex_digits-is_lower_hex (b ∷ bytes) = (
  nibble (b / 16 % 16) (omega arith),
  (nibble (b % 16) (omega arith), hex_digits-is_lower_hex bytes),
)

length-hex_digits : (bytes : List ℕ) → length (hex_digits bytes) ≡ 2 * length bytes
unfolding hex_digits
length-hex_digits [] = refl
length-hex_digits (b ∷ bytes) = omega (arith, length-hex_digits bytes)

length-md5_final : (ctx : Md5Ctx) → length (md5_final ctx) ≡ 16
unfolding md5_final digest_of
length-md5_final ctx = refl

-- The digest has 32 characters, each one of 0 to 9 or a to f.
pub md5_hex-is_lower_hex :
    (fresh : Md5Ctx) (s : Text)
    → (length (md5_hex fresh s) ≡ 32) × All (λ c. is_lower_hex c ≡ true) (md5_hex fresh s)
unfolding md5_hex
md5_hex-is_lower_hex fresh s =
    let digest = md5_final (md5_update (md5_init fresh) s) in
    (omega (arith, length-hex_digits digest, length-md5_final), hex_digits-is_lower_hex digest)
