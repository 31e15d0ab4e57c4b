-- ===== src/Web/Auth.antt =====
-- internal/web/auth.go: the session cookie, the gate in front of every handler, and the login.
mod Tests
pub mod Sessions
pub mod Gate
pub mod Requests
use lineleader.Base.{
  ℕ, Bool, true, false, ◌&&◌, ◌||◌, not, [], ◌∷◌, ◌++◌, Option, none, some, String, if◌then◌else◌,
}
use lineleader.Base.Int.{ℤ, pos, ◌+ℤ◌, leb_ℤ}
use lineleader.Base.Text.{
  Text, codes, contains_rune, cut, drop, eqb_text, format_int, has_prefix, is_empty, parse_int,
}

-- What the code reads of an http.Request. `header` is `r.Header.Get`, empty for a header that is
-- not there; `cookie` is the value of the session cookie.
pub record Request : Type 0 where
  pub method : Text
  pub path : Text
  pub raw_query : Text
  pub host : Text
  pub header : String → Text
  pub cookie : Option Text

-- `safeNext`
unfoldable pub safe_next : Text → Text
safe_next next =
    if is_empty next
      || not (has_prefix next (codes "/"))
      || has_prefix next (codes "//")
      || contains_rune next 92
    then codes "/"
    else next

-- `requestedNext`
unfoldable pub requested_next : Request → Text
requested_next r =
    let next = r.path in
    safe_next (if is_empty r.raw_query then next else next ++ (63 ∷ r.raw_query))

-- `validBearer`
unfoldable pub valid_bearer : Request → Text → Bool
valid_bearer r secret =
    let auth = r.header "Authorization" in
    has_prefix auth (codes "Bearer ") && eqb_text (drop 7 auth) secret

-- `isAuthExempt`
unfoldable pub is_auth_exempt : Request → Bool
is_auth_exempt r =
    if eqb_text r.method (codes "GET") && eqb_text r.path (codes "/healthz")
    then true
    else if (eqb_text r.method (codes "GET") || eqb_text r.method (codes "POST"))
        && eqb_text r.path (codes "/login")
    then true
    else eqb_text r.method (codes "GET") && has_prefix r.path (codes "/static/")

-- `isMutating`
unfoldable pub is_mutating : Text → Bool
is_mutating m =
    eqb_text m (codes "POST")
    || eqb_text m (codes "PUT")
    || eqb_text m (codes "PATCH")
    || eqb_text m (codes "DELETE")

-- What the middleware does with a request.
pub data Outcome : Type 0 where
  next_serves : Outcome
  unauthorized forbidden : Outcome
  hx_redirect see_other : Text → Outcome

-- What the login handlers send: the login page with a status, the target and a message; or a
-- session cookie, empty to clear it, and a redirect.
pub data LoginReply : Type 0 where
  login_page : ℕ → Text → String → LoginReply
  set_cookie : Text → Text → LoginReply

-- `sessionDuration`, in seconds.
abbrev pub session_duration : ℤ
session_duration = pos 2592000

-- What the code uses of Go's packages. `mac` is hex.EncodeToString of the HMAC-SHA256 of a
-- message under a secret; `encode` and `decode` are base64.RawURLEncoding; `url_host` is the Host
-- of url.Parse, none for its error; `query_escape` is url.QueryEscape.
pub record Primitives : Type 0 where
  pub mac : Text → Text → Text
  pub encode : Text → Text
  pub decode : Text → Option Text
  pub url_host : Text → Option Text
  pub query_escape : Text → Text

module _ (lib : Primitives) where
  -- `signSession`
  unfoldable pub sign_session : Text → ℤ → Text
  sign_session secret expiry =
      let exp = format_int expiry in lib.encode (exp ++ (46 ∷ lib.mac secret exp))

  -- `verifySession` behind the cut at the dot.
  unfoldable pub verify_parts : Text → ℤ → Text → Text → Bool
  verify_parts secret now exp sig =
      if eqb_text sig (lib.mac secret exp)
      then elim (parse_int exp) [ none ↦ false | some expiry ↦ leb_ℤ now expiry ]
      else false

  -- `verifySession` behind the decoding.
  unfoldable pub verify_decoded : Text → ℤ → Text × Option Text → Bool
  verify_decoded secret now p = elim p.1 [
    | none ↦ false
    | some sig ↦ verify_parts secret now p.0 sig
  ]

  -- `verifySession` at the time `now`.
  unfoldable pub verify_session : Text → ℤ → Text → Bool
  verify_session secret now value = elim (lib.decode value) [
    | none ↦ false
    | some raw ↦ verify_decoded secret now (cut 46 raw)
  ]

  -- `sameOriginRequest`
  unfoldable pub same_origin_request : Request → Bool
  same_origin_request r =
      let sfs = r.header "Sec-Fetch-Site" in
      let origin = r.header "Origin" in
      let host_matches : Bool = elim (lib.url_host origin) [
        | none ↦ false
        | some h ↦ eqb_text h r.host
      ] in
      if not (is_empty sfs)
      then eqb_text sfs (codes "same-origin") || eqb_text sfs (codes "none")
      else if not (is_empty origin)
      then host_matches
      else true

  -- `authed`
  unfoldable pub has_session : Text → ℤ → Request → Bool
  has_session secret now r = elim r.cookie [ none ↦ false | some c ↦ verify_session secret now c ]

  -- `authMiddleware`
  unfoldable pub auth_middleware : Text → ℤ → Request → Outcome
  auth_middleware secret now r =
      if is_auth_exempt r
      then next_serves
      else if not (is_empty (r.header "Authorization"))
      then (if not (valid_bearer r secret) then unauthorized else next_serves)
      else if not (has_session secret now r)
      then (if not (is_empty (r.header "HX-Request"))
          then hx_redirect (codes "/login")
          else see_other (codes "/login?next=" ++ lib.query_escape (requested_next r)))
      else if is_mutating r.method && not (same_origin_request r)
      then forbidden
      else next_serves

  -- `loginSubmit`: the form's fields, none if it does not parse.
  unfoldable pub login_submit : Text → ℤ → Option (Text × Text) → LoginReply
  login_submit secret now form = elim form [
    | none ↦ login_page 400 (safe_next []) "Bad request."
    | some (form_next, password) ↦
        let next = safe_next form_next in
        if not (eqb_text password secret)
        then login_page 401 (safe_next next) "Incorrect password."
        else set_cookie (sign_session secret (now +ℤ session_duration)) next
  ]

-- `logout`
unfoldable pub logout : LoginReply
logout = set_cookie [] (codes "/login")
