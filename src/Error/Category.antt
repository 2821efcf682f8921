-- ===== src/Error/Category.antt =====
-- include/audd/error.hpp: `ErrorCategory`, `category_name` and `sentinel_for_code`.
use audd_cpp.Prelude.{Bool, List, [], ◌∷◌, any, if◌then◌else◌, String, ℕ}
use audd_cpp.Prelude.Int.{ℤ, pos, ◌==ℤ◌}

pub data ErrorCategory : Type 0 where
  authentication quota subscription custom_catalog_access invalid_request : ErrorCategory
  invalid_audio rate_limit stream_limit not_released blocked needs_update : ErrorCategory
  server connection serialization : ErrorCategory

unfoldable pub category_name : ErrorCategory → String
category_name authentication = "authentication"
category_name quota = "quota"
category_name subscription = "subscription"
category_name custom_catalog_access = "custom_catalog_access"
category_name invalid_request = "invalid_request"
category_name invalid_audio = "invalid_audio"
category_name rate_limit = "rate_limit"
category_name stream_limit = "stream_limit"
category_name not_released = "not_released"
category_name blocked = "blocked"
category_name needs_update = "needs_update"
category_name server = "server"
category_name connection = "connection"
category_name serialization = "serialization"

-- The `case` labels of one `return`.
abbrev pub one_of : ℤ → List ℕ → Bool
one_of code labels = any (λ n. code ==ℤ pos n) labels

unfoldable pub sentinel_for_code : ℤ → ErrorCategory
sentinel_for_code code =
    if one_of code (900 ∷ 901 ∷ 903 ∷ [])
    then authentication
    else if one_of code (902 ∷ [])
    then quota
    else if one_of code (904 ∷ 905 ∷ [])
    then subscription
    else if one_of code (50 ∷ 51 ∷ 600 ∷ 601 ∷ 602 ∷ 700 ∷ 701 ∷ 702 ∷ 906 ∷ [])
    then invalid_request
    else if one_of code (300 ∷ 400 ∷ 500 ∷ [])
    then invalid_audio
    else if one_of code (610 ∷ [])
    then stream_limit
    else if one_of code (611 ∷ [])
    then rate_limit
    else if one_of code (907 ∷ [])
    then not_released
    else if one_of code (19 ∷ 31337 ∷ [])
    then blocked
    else if one_of code (20 ∷ [])
    then needs_update
    else server
