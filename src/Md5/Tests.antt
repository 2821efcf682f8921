-- ===== src/Md5/Tests.antt =====
-- Test vectors of RFC 1321.
use audd_cpp.Prelude.{◌≡◌, refl, replicate, []}
use audd_cpp.Prelude.Text.{utf8}
use audd_cpp.Md5.{md5_transform}
use audd_cpp.Md5.Context.{Md5Ctx, md5_hex, hex_digits, initial_state}
use audd_cpp.Md5.Reference.{rfc_digest, md5_hex-eq-rfc_digest}

abbrev fresh : Md5Ctx
fresh = record { state = initial_state; bitcount = 77; buffer = replicate 64 170 }

empty_digest : md5_hex fresh [] ≡ utf8 "d41d8cd98f00b204e9800998ecf8427e"
unfolding md5_hex md5_transform
empty_digest = refl

long_digest :
    md5_hex fresh
      (utf8 "12345678901234567890123456789012345678901234567890123456789012345678901234567890")
    ≡ utf8 "57edf4a22be3c955ac49da2e2107b67a"
unfolding md5_hex md5_transform
long_digest = refl

md5_hex-eq-rfc_digest_example : md5_hex fresh (utf8 "abc") ≡ hex_digits (rfc_digest (utf8 "abc"))
md5_hex-eq-rfc_digest_example = md5_hex-eq-rfc_digest fresh (utf8 "abc") refl
