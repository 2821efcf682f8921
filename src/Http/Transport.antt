-- ===== src/Http/Transport.antt =====
-- libcurl as src/http_client.cpp uses it, and the classification of failed transfers.
use audd_cpp.Prelude.{ℕ, Bool, true, false, ◌&&◌, Option, none, some, List}
use audd_cpp.Prelude.Int.{ℤ, pos, ◌==ℤ◌, wrap32}
use audd_cpp.Prelude.Text.{Text}

-- The `CURLcode`s that the source names, and the others.
pub data CurlCode : Type 0 where
  curl_ok unsupported_protocol url_malformat couldnt_resolve_proxy couldnt_resolve_host : CurlCode
  couldnt_connect ssl_connect_error peer_failed_verification ssl_cipher : CurlCode
  ssl_cacert_badfile interface_failed operation_timedout : CurlCode
  other : ℕ → CurlCode

abbrev pub is_ok : CurlCode → Bool
is_ok curl_ok = true
is_ok _ = false

-- `curl_easy_escape`, with `none` for a null pointer, and `curl_easy_strerror`.
pub record Curl : Type 0 where
  pub escape : Text → Option Text
  pub strerror : CurlCode → Text

-- How one transfer goes: whether a handle is made and the file is attached, the code of
-- `curl_easy_perform`, the two probes (`none` where `curl_easy_getinfo` fails), and what is received.
pub record Transfer : Type 0 where
  pub easy_init : Bool
  pub attached : Bool
  pub code : CurlCode
  pub uploaded : Option ℤ
  pub status : ℤ
  pub received : Text
  pub headers : List Text

unfoldable pub failure_is_pre_upload : CurlCode → ℤ → ℤ → Bool
failure_is_pre_upload unsupported_protocol uploaded status = true
failure_is_pre_upload url_malformat uploaded status = true
failure_is_pre_upload couldnt_resolve_proxy uploaded status = true
failure_is_pre_upload couldnt_resolve_host uploaded status = true
failure_is_pre_upload couldnt_connect uploaded status = true
failure_is_pre_upload ssl_connect_error uploaded status = true
failure_is_pre_upload peer_failed_verification uploaded status = true
failure_is_pre_upload ssl_cipher uploaded status = true
failure_is_pre_upload ssl_cacert_badfile uploaded status = true
failure_is_pre_upload interface_failed uploaded status = true
failure_is_pre_upload _ uploaded status = uploaded ==ℤ pos 0 && status ==ℤ pos 0

-- `uploaded` stays 0 where the probe fails.
abbrev pub probed : Option ℤ → ℤ
probed none = pos 0
probed (some bytes) = bytes

unfoldable pub perform_failed_before_upload : Transfer → Bool
unfolding failure_is_pre_upload
perform_failed_before_upload t = failure_is_pre_upload t.code (probed t.uploaded) (wrap32 t.status)
