-- ===== src/Web/Auth/Tests.antt =====
-- The sessions, the gate and the login at one secret, with the identity in place of base64.
use lineleader.Base.{
  ◌≡◌, ◌↔◌, refl, true, [], ◌++◌, Option, none, some, String, str_eq, if◌then◌else◌, arith,
}
use lineleader.Base.Int.{pos, ◌+ℤ◌, leb_ℤ}
use lineleader.Base.Text.{Text, codes, contains_rune, drop, has_prefix}
use lineleader.Web.Auth.{
  Primitives, Request, auth_middleware, has_session, is_auth_exempt, login_submit, next_serves,
  safe_next, same_origin_request, see_other, session_duration, set_cookie, sign_session,
  verify_session, requested_next,
}
use lineleader.Web.Auth.Gate.{IsAllowed, auth_middleware-IsAllowed, login_submit-auth_middleware}
use lineleader.Web.Auth.Sessions.{verify_session-sign_session}

abbrev plain : Primitives
plain = record {
  mac = λ secret message. secret ++ message;
  encode = λ s. s;
  decode = λ s. some s;
  url_host = λ s. some (drop 8 s);
  query_escape = λ s. s;
}

abbrev headers : String → Text
headers name = if str_eq name "Origin" then codes "https://here" else []

abbrev post_trip : Option Text → Request
post_trip cookie = record {
  method = codes "POST";
  path = codes "/trips";
  raw_query = [];
  host = codes "here";
  header = headers;
  cookie = cookie;
}

abbrev session : Text
session = sign_session plain (codes "key") (pos 1000 +ℤ session_duration)

open_redirects :
    (safe_next (codes "//evil") ≡ codes "/") × (safe_next (codes "/trips?m=1") ≡ codes "/trips?m=1")
unfolding safe_next has_prefix contains_rune
open_redirects = (refl, refl)

bounced :
    auth_middleware plain (codes "key") (pos 2000) (post_trip none)
    ≡ see_other (codes "/login?next=/trips")
unfolding auth_middleware is_auth_exempt has_session requested_next safe_next has_prefix
    contains_rune
bounced = refl

verify_session-sign_session_example :
    verify_session plain
      (codes "key")
      (pos 2000)
      (sign_session plain (codes "key") (pos 1000 +ℤ session_duration))
    ≡ leb_ℤ (pos 2000) (pos 1000 +ℤ session_duration)
unfolding ◌+ℤ◌
verify_session-sign_session_example =
    verify_session-sign_session plain (codes "key") (pos 2000) (pos 1000 +ℤ session_duration)
      (λ s. refl) (omega arith)

auth_middleware-IsAllowed_example :
    auth_middleware plain (codes "key") (pos 2000) (post_trip (some session)) ≡ next_serves
    ↔ IsAllowed plain (codes "key") (pos 2000) (post_trip (some session))
auth_middleware-IsAllowed_example =
    auth_middleware-IsAllowed plain (codes "key") (pos 2000) (post_trip (some session))

same_site : same_origin_request plain (post_trip (some session)) ≡ true
unfolding same_origin_request drop
same_site = refl

login_submit-auth_middleware_example :
    (login_submit plain (codes "key") (pos 1000) (some (codes "//evil", codes "key"))
      ≡ set_cookie session (safe_next (codes "//evil")))
    × (auth_middleware plain (codes "key") (pos 2000) (post_trip (some session)) ≡ next_serves)
unfolding ◌+ℤ◌
login_submit-auth_middleware_example =
    login_submit-auth_middleware plain (codes "key") (codes "//evil") (pos 1000) (pos 2000)
      (post_trip (some session)) (λ s. refl) (omega arith) refl refl (λ p. same_site) refl
