-- ===== src/Longpoll/Category.antt =====
-- `derive_longpoll_category` of src/longpoll.cpp.
use audd_cpp.Prelude.{◌≡◌, true, ◌++◌, take, length, arith, All, All-take, length-take}
use audd_cpp.Prelude.Int.{ℤ}
use audd_cpp.Prelude.Text.{Text}
use audd_cpp.Prelude.Decimal.{to_string}
use audd_cpp.Md5.Context.{Md5Ctx, md5_hex}
use audd_cpp.Md5.Hex.{is_lower_hex, md5_hex-is_lower_hex}

-- `fresh` is the uninitialised context of each digest.
unfoldable pub derive_longpoll_category : Md5Ctx → Text → ℤ → Text
unfolding to_string
derive_longpoll_category fresh api_token radio_id =
    take 9 (md5_hex fresh (md5_hex fresh api_token ++ to_string radio_id))

-- A category has nine characters, each one of 0 to 9 or a to f.
pub derive_longpoll_category-is_lower_hex :
    (fresh : Md5Ctx) (api_token : Text) (radio_id : ℤ)
    → let category = derive_longpoll_category fresh api_token radio_id in
      (length category ≡ 9) × All (λ c. is_lower_hex c ≡ true) category
unfolding derive_longpoll_category
derive_longpoll_category-is_lower_hex fresh api_token radio_id =
    let digest = md5_hex fresh (md5_hex fresh api_token ++ to_string radio_id) in
    let (size, digits) =
      md5_hex-is_lower_hex fresh (md5_hex fresh api_token ++ to_string radio_id) in
    (
      omega (arith, length-take 9 digest, size),
      All-take (λ c. is_lower_hex c ≡ true) 9 digest digits,
    )
