-- ===== src/Links/Laws.antt =====
-- Which links src/client.cpp turns into redirects.
use audd_cpp.Prelude.{
  ◌≡◌, refl, ap, Bool, true, false, some, [], ◌∷◌, ◌++◌, any, arith, ◌==◌, if◌then◌else◌,
}
use audd_cpp.Prelude.Text.{Text, utf8, text_eq, has_byte}
use audd_cpp.Links.{after_slashes, host_of, ends_host, lis_tn_streaming_url}

-- What follows a host: nothing, or a path, a query or a fragment.
abbrev pub follows_host : Text → Bool
follows_host [] = true
follows_host (c ∷ s) = ends_host c

after_slashes-append :
    (scheme rest : Text)
    → has_byte b'/' scheme ≡ false
    → after_slashes (scheme ++ b'/' ∷ b'/' ∷ rest) ≡ some rest
unfolding after_slashes
after_slashes-append [] rest h = refl
after_slashes-append (c ∷ []) rest h =
    let other : (c == b'/') ≡ false = ground (arith, h) in rw other refl
after_slashes-append (c ∷ d ∷ scheme) rest h =
    let other : (c == b'/') ≡ false = ground (arith, h) in
    let later : has_byte b'/' (d ∷ scheme) ≡ false = ground (arith, h) in
    rw other (after_slashes-append (d ∷ scheme) rest later)

host_of-append :
    (host tail : Text)
    → any ends_host host ≡ false
    → follows_host tail ≡ true
    → host_of (host ++ tail) ≡ host
unfolding host_of
host_of-append [] [] h t = refl
host_of-append [] (c ∷ tail) h t = rw t refl
host_of-append (c ∷ host) tail h t =
    let other : ends_host c ≡ false = ground (arith, h) in
    let later : any ends_host host ≡ false = ground (arith, h) in
    rw other (ap (λ l. c ∷ l) (host_of-append host tail later t))

-- A link `scheme//host` with what follows the host becomes a redirect exactly if the host is `lis.tn` and
-- nothing longer or shorter; then the parameter is added behind the `?` or `&` that fits.
pub lis_tn_streaming_url_lem :
    (scheme host tail param : Text)
    → has_byte b'/' scheme ≡ false
    → any ends_host host ≡ false
    → follows_host tail ≡ true
    → let link = scheme ++ b'/' ∷ b'/' ∷ (host ++ tail) in
      lis_tn_streaming_url link param ≡ (
        if text_eq host (utf8 "lis.tn")
        then link ++ ((if has_byte b'?' link then b'&' else b'?') ∷ param)
        else [])
unfolding lis_tn_streaming_url
lis_tn_streaming_url_lem scheme host tail param plain inside outside =
    rw
      (
        lis_tn_streaming_url,
        after_slashes-append scheme (host ++ tail) plain,
        host_of-append host tail inside outside,
      )
      refl
