-- ===== src/Response/Laws.antt =====
-- What `decode_or_throw` of src/client.cpp returns, and the category of what it throws.
use audd_cpp.Prelude.{
  ◌≡◌, refl, ap, ◌∙◌, Bool, true, false, ◌&&◌, ◌||◌, Option, none, some, String, arith,
  if◌then◌else◌, Bool-cases, inl, inr,
}
use audd_cpp.Prelude.Int.{ℤ, pos, ltb_ℤ, ◌==ℤ◌}
use audd_cpp.Prelude.Text.{Text, utf8, text_eq, text_eq→eq}
use audd_cpp.Prelude.Dict.{insert, erase, lookup-insert, lookup-erase}
use audd_cpp.Json.{
  Json, null, str, unsigned, object, find, is_object, is_null, members, members-from_members,
}
use audd_cpp.Platform.{Platform}
use audd_cpp.Error.{Exception, Result, ok, err, audd, category, ok-inj}
use audd_cpp.Error.Category.{ErrorCategory, sentinel_for_code}
use audd_cpp.Http.{HttpResponse}
use audd_cpp.Callback.{get_int}
use audd_cpp.Parse.Extras.{object_at}
use audd_cpp.Response.{
  raise_from_error_response, error_code_of, string_at, warning_code, deprecation, strip_warning,
  decode_status, decode_object, decode_or_throw,
}
use text.Mathlib.Text.{◌==◌ as str_eq}

abbrev pub category_of : Exception → Option ErrorCategory
category_of e = elim e [ audd a ↦ some (category a) | _ ↦ none ]

module _ (P : Platform) where
  open P use {Double}

  -- The category of the exception for an error response follows from the code alone, but for the two codes
  -- of a missing subscription, which a call on the custom catalog reports as missing access to it.
  pub category-raise_from_error_response :
      (body : Json Double) (status : ℤ) (id : Text) (ctx : Bool)
      → let code = error_code_of P body in
        category_of (raise_from_error_response P body status id ctx)
        ≡ some (
            if ctx && (code ==ℤ pos 904 || code ==ℤ pos 905)
            then ErrorCategory.custom_catalog_access
            else sentinel_for_code code)
  unfolding raise_from_error_response category
  category-raise_from_error_response body status id ctx =
      let code = error_code_of P body in
      elim (Bool-cases (ctx && (code ==ℤ pos 904 || code ==ℤ pos 905))) [
        | inl e ↦ rw e refl
        | inr e ↦ rw e refl
      ]

  -- What is left of an object with a deprecation warning: it reports success, the error block is gone, and
  -- every other member is as it was.
  pub find-strip_warning :
      (body : Json Double) (key : String)
      → is_object body ≡ true
      → find (strip_warning P body) key ≡ (
          if str_eq "status" key
          then some (str (utf8 "success"))
          else if str_eq "error" key
          then none
          else find body key)
  unfolding strip_warning find
  find-strip_warning (object ms) key h =
      rw
        (
          members-from_members
              (insert "status" (str (utf8 "success")) (erase "error" (members ms))),
          lookup-insert "status" key (str (utf8 "success")) (erase "error" (members ms)),
          lookup-erase "error" key (members ms),
        )
        refl
  find-strip_warning _ key h = ground (arith, h)

  guarded_ok :
      {A : Type 0} (b c : Bool) (e f : Exception) (a out : A)
      → (if b then err e else if c then ok a else err f) ≡ ok out
      → (c ≡ true) × (a ≡ out)
  guarded_ok true c e f a out h = ground (arith, h)
  guarded_ok false true e f a out h = (refl, ok-inj a out h)
  guarded_ok false false e f a out h = ground (arith, h)

  decode_status-ok :
      (resp : HttpResponse Double) (body out : Json Double) (ctx : Bool)
      → decode_status P resp body ctx ≡ ok out
      → string_at P out "status" ≡ utf8 "success"
  unfolding decode_status
  decode_status-ok resp body out ctx h =
      let (fine, same) =
        guarded_ok (text_eq (string_at P body "status") (utf8 "error"))
          (text_eq (string_at P body "status") (utf8 "success")) _ _ body out h in
      rw (← same) (text_eq→eq (string_at P body "status") (utf8 "success") fine)

  decode_object-ok :
      (resp : HttpResponse Double) (ctx : Bool) (out : Json Double) (o : Option (Json Double))
      → (decode_object P resp ctx o).0 ≡ ok out
      → string_at P out "status" ≡ utf8 "success"
  unfolding decode_object
  decode_object-ok resp ctx out none h = decode_status-ok resp resp.json_body out ctx h
  decode_object-ok resp ctx out (some e) h =
      decode_status-ok resp (strip_warning P resp.json_body) out ctx h

  abbrev Answer : Type 0
  Answer = Result (Json Double) × Option Text

  from_object :
      (n l o : Bool) (e f g : Exception) (x : Answer) (out : Json Double)
      → (if n
          then (if l then (err e, none) else (err f, none))
          else if o
          then x
          else (err g, none)).0
        ≡ ok out
      → x.0 ≡ ok out
  from_object true true o e f g x out h = ground (arith, h)
  from_object true false o e f g x out h = ground (arith, h)
  from_object false l true e f g x out h = h
  from_object false l false e f g x out h = ground (arith, h)

  -- A call succeeds only with a body whose status is "success".
  pub decode_or_throw-ok :
      (resp : HttpResponse Double) (ctx : Bool) (out : Json Double)
      → (decode_or_throw P resp ctx).0 ≡ ok out
      → string_at P out "status" ≡ utf8 "success"
  unfolding decode_or_throw
  decode_or_throw-ok resp ctx out h = decode_object-ok resp ctx out (deprecation P resp.json_body) (
      from_object (is_null resp.json_body) (ltb_ℤ resp.http_status (pos 400))
        (is_object resp.json_body) _ _ _ (decode_object P resp ctx (deprecation P resp.json_body))
        out h)

  not_null : (body : Json Double) → is_object body ≡ true → is_null body ≡ false
  not_null null h = ground (arith, h)
  not_null (object ms) h = refl
  not_null _ h = refl

  stripped :
      (body : Json Double)
      → is_object body ≡ true
      → string_at P (strip_warning P body) "status" ≡ utf8 "success"
  unfolding string_at
  stripped body h = rw (string_at, find-strip_warning body "status" h) refl

  decode_status-success :
      (resp : HttpResponse Double) (body : Json Double) (ctx : Bool)
      → string_at P body "status" ≡ utf8 "success"
      → decode_status P resp body ctx ≡ ok body
  unfolding decode_status
  decode_status-success resp body ctx h = rw (decode_status, h) refl

  -- What is made of a warning that is found.
  decode_or_throw-warned :
      (resp : HttpResponse Double) (ctx : Bool) (e : Json Double)
      → is_object resp.json_body ≡ true
      → deprecation P resp.json_body ≡ some e
      → decode_or_throw P resp ctx
        ≡ (ok (strip_warning P resp.json_body), some (string_at P e "error_message"))
  unfolding decode_or_throw decode_object
  decode_or_throw-warned resp ctx e object_body warned =
      rw
        (
          decode_or_throw,
          not_null resp.json_body object_body,
          object_body,
          warned,
          decode_status-success resp (strip_warning P resp.json_body) ctx
              (stripped resp.json_body object_body),
        )
        refl

  deprecation_lem :
      (body e v : Json Double)
      → find body "error" ≡ some e
      → is_object e ≡ true
      → find e "error_code" ≡ some (unsigned 51)
      → find body "result" ≡ some v
      → is_null v ≡ false
      → deprecation P body ≡ some e
  unfolding deprecation object_at warning_code get_int
  deprecation_lem body e v found block code result value =
      rw (deprecation, object_at, warning_code, found, block, code, result, value) refl

  string_at_lem :
      (j : Json Double) (key : String) (text : Text)
      → find j key ≡ some (str text)
      → string_at P j key ≡ text
  unfolding string_at
  string_at_lem j key text h = rw (string_at, h) refl

  -- An object with a result and with an error block whose code is 51 is a success, whatever its status and the
  -- HTTP status say: the body that comes back reports success, has no error block and keeps every other member
  -- as it was, and the message of the block goes to the hook.
  pub decode_or_throw-deprecated :
      (resp : HttpResponse Double) (ctx : Bool) (e v : Json Double) (message : Text)
      → is_object resp.json_body ≡ true
      → find resp.json_body "error" ≡ some e
      → is_object e ≡ true
      → find e "error_code" ≡ some (unsigned 51)
      → find e "error_message" ≡ some (str message)
      → find resp.json_body "result" ≡ some v
      → is_null v ≡ false
      → (out : Json Double) × (decode_or_throw P resp ctx ≡ (ok out, some message))
        × ((key : String)
            → find out key ≡ (
                if str_eq "status" key
                then some (str (utf8 "success"))
                else if str_eq "error" key
                then none
                else find resp.json_body key))
  decode_or_throw-deprecated resp ctx e v message body found block code text result value =
      let warned = deprecation_lem resp.json_body e v found block code result value in
      let whole = decode_or_throw-warned resp ctx e body warned in
      (
        strip_warning P resp.json_body,
        whole
            ∙ ap (λ t. (ok (strip_warning P resp.json_body), some t))
                (string_at_lem e "error_message" message text),
        λ key. find-strip_warning resp.json_body key body,
      )
