-- ===== src/Error.antt =====
-- include/audd/error.hpp: the categories, the exceptions, and the results of code that may throw.
pub mod Category
use audd_cpp.Prelude.{
  ◌≡◌, refl, ap, ◌⊎◌, inl, inr, arith, true, false, if◌then◌else◌, Bool, List, [], ◌∷◌, ◌++◌,
  Option, none, some,
}
use audd_cpp.Prelude.Int.{ℤ}
use audd_cpp.Prelude.Text.{Text, utf8}
use audd_cpp.Prelude.Dict.{Dict}
use audd_cpp.Prelude.Decimal.{to_string}
use audd_cpp.Error.Category.{ErrorCategory, sentinel_for_code}

-- The fields of `AudDApiError`; `what` is that of `std::runtime_error`.
pub record ApiError : Type 0 where
  pub what : Text
  pub error_code : ℤ
  pub message : Text
  pub http_status : ℤ
  pub request_id : Text
  pub request_method : Text
  pub branded_message : Text
  pub requested_params : Dict Text
  pub raw_response : Text

unfoldable pub format_what : ℤ → Text → Text
format_what code m = utf8 "[#" ++ (to_string code ++ (utf8 "] " ++ m))

-- The constructor of `AudDApiError`.
unfoldable pub api_error : ℤ → Text → ℤ → Text → ApiError
unfolding format_what
api_error code msg status id = record {
  what = format_what code msg;
  error_code = code;
  message = msg;
  http_status = status;
  request_id = id;
  request_method = [];
  branded_message = [];
  requested_params = [];
  raw_response = [];
}

unfoldable pub build_message : Text → Text
build_message server_msg =
    utf8
      "Adding songs to your custom catalog requires enterprise access that isn't enabled on your account."
    ++ (0x0a
          ∷ 0x0a
          ∷ utf8
              "Note: the custom-catalog endpoint is for adding songs to your private fingerprint database, not for music recognition. If you intended to identify music, use client.recognize(...) (or client.recognize_enterprise(...) to scan beyond the first 12 seconds of a file) instead."
        ++ (0x0a ∷ 0x0a ∷ utf8 "To request custom-catalog access, contact api@audd.io."
            ++ (0x0a ∷ 0x0a ∷ utf8 "[Server message: " ++ (server_msg ++ utf8 "]"))))

-- One constructor for each concrete class below `AudDError`.
pub data AudDError : Type 0 where
  api : ApiError → AudDError
  -- with `server_message`
  custom_catalog_access : ApiError → Text → AudDError
  -- with `failed_before_upload_`
  connection : Text → Bool → AudDError
  -- with `raw_text`
  serialization : Text → Text → AudDError
  missing_api_token : AudDError

unfoldable pub connection_error : Text → Bool → AudDError
connection_error msg before = connection (utf8 "audd: connection error: " ++ msg) before

unfoldable pub serialization_error : Text → Text → AudDError
serialization_error msg raw = serialization (utf8 "audd: serialization error: " ++ msg) raw

-- `what()`
unfoldable pub what : AudDError → Text
what (api e) = e.what
what (custom_catalog_access e server) = e.what
what (connection text before) = text
what (serialization text raw) = text
what missing_api_token =
    utf8
      "audd: api_token not supplied and AUDD_API_TOKEN env var is unset; get a token at https://dashboard.audd.io"

-- The virtual `category()`.
unfoldable pub category : AudDError → ErrorCategory
unfolding sentinel_for_code
category (api e) = sentinel_for_code e.error_code
category (custom_catalog_access e server) = ErrorCategory.custom_catalog_access
category (connection what before) = ErrorCategory.connection
category (serialization what raw) = ErrorCategory.serialization
category missing_api_token = ErrorCategory.authentication

-- What a call may throw: an error of the library, or `std::invalid_argument`.
pub data Exception : Type 0 where
  audd : AudDError → Exception
  invalid_argument : Text → Exception

pub data Result {ℓ} (A : Type ℓ) : Type ℓ where
  ok : A → Result A
  err : Exception → Result A

abbrev ok_or {ℓ} : {A : Type ℓ} → A → Result A → A
ok_or d (ok a) = a
ok_or d (err e) = d

pub ok-inj {ℓ} : {A : Type ℓ} (a b : A) → ok a ≡ ok b → a ≡ b
ok-inj a b h = ap (ok_or a) h

-- A guarded result that is fine took the second branch.
pub if_ok {ℓ} :
    {A : Type ℓ} (b : Bool) (e : Exception) (a c : A)
    → (if b then err e else ok a) ≡ ok c
    → (b ≡ false) × (a ≡ c)
if_ok true e a c h = ground (arith, h)
if_ok false e a c h = (refl, ok-inj a c h)

pub Result-cases {ℓ} :
    {A : Type ℓ} (r : Result A) → ((a : A) × (r ≡ ok a)) ⊎ ((e : Exception) × (r ≡ err e))
Result-cases (ok a) = inl (a, refl)
Result-cases (err e) = inr (e, refl)
