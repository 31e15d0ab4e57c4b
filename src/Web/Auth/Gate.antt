-- ===== src/Web/Auth/Gate.antt =====
-- internal/web/auth.go: which requests the middleware lets through.
use lineleader.Base.{
  ◌≡◌, ◌⊎◌, ◌↔◌, inl, inr, refl, ◌∙◌, ap, Bool, true, false, ◌&&◌, ◌<◌, ◌^◌, not, [], ◌∷◌, ◌++◌,
  some, if◌then◌else◌, Option, none,
}
use lineleader.Base.Int.{ℤ, ◌+ℤ◌, leb_ℤ, magnitude}
use lineleader.Base.Text.{Text, codes, drop, eqb_text, has_prefix, is_empty}
use lineleader.Base.Text.Integers.{eqb_text_refl}
use lineleader.Web.Auth.{
  Outcome, Primitives, Request, auth_middleware, has_session, hx_redirect, is_auth_exempt,
  is_mutating, requested_next, safe_next, login_submit, next_serves, forbidden, same_origin_request,
  see_other, session_duration, set_cookie, sign_session, unauthorized, valid_bearer, verify_session,
}
use lineleader.Web.Auth.Requests.{
  FromSite, HasSession, IsBearer, IsExempt, Means, Mutates, has_session-Means, is_auth_exempt-Means,
  is_empty-Means, is_mutating-Means, same_origin_request-Means, valid_bearer-Means,
}
use lineleader.Web.Auth.Sessions.{verify_session-sign_session}

-- What the middleware decides, from the answers to its tests.
decided : (exempt no_auth bearer session hx mutating same : Bool) → Text → Outcome
decided exempt no_auth bearer session hx mutating same target =
    if exempt
    then next_serves
    else if not no_auth
    then (if not bearer then unauthorized else next_serves)
    else if not session
    then (if not hx then hx_redirect (codes "/login") else see_other target)
    else if mutating && not same
    then forbidden
    else next_serves

-- The answers that let a request through.
abbrev pub Passes : (exempt no_auth bearer session mutating same : Bool) → Type 0
Passes exempt no_auth bearer session mutating same =
    (exempt ≡ true)
    ⊎ ((bearer ≡ true) ⊎ ((no_auth ≡ true) × (session ≡ true) × (mutating ≡ true → same ≡ true)))

passes :
    (e n b s h m o : Bool) (t : Text) → decided e n b s h m o t ≡ next_serves → Passes e n b s m o
unfolding decided
passes true n b s h m o t p = inl refl
passes false false true s h m o t p = inr (inl refl)
passes false false false s h m o t p = absurd (cc)
passes false true b false true m o t p = absurd (cc)
passes false true b false false m o t p = absurd (cc)
passes false true b true h true true t p = inr (inr (refl, refl, λ _. refl))
passes false true b true h true false t p = absurd (cc)
passes false true b true h false o t p = inr (inr (refl, refl, λ q. absurd (cc)))

passed :
    (e n b s h m o : Bool) (t : Text)
    → (b ≡ true → n ≡ false)
    → Passes e n b s m o
    → decided e n b s h m o t ≡ next_serves
unfolding decided
passed e n b s h m o t k (inl p) = rw (p) refl
passed true n b s h m o t k (inr p) = refl
passed false n b s h m o t k (inr (inl p)) = rw (k p, p) refl
passed false n b s h false o t k (inr (inr (p, q, f))) = rw (p, q) refl
passed false n b s h true o t k (inr (inr (p, q, f))) = rw (p, q, f refl) refl

-- A bearer token stands in a header that is not empty.
bearer_of :
    (auth secret : Text)
    → (has_prefix auth (codes "Bearer ") && eqb_text (drop 7 auth) secret) ≡ true
    → is_empty auth ≡ false
unfolding has_prefix
bearer_of [] secret h = absurd (cc)
bearer_of (c ∷ auth) secret h = refl

bearer_header :
    (secret : Text) (r : Request)
    → valid_bearer r secret ≡ true
    → is_empty (r.header "Authorization") ≡ false
unfolding valid_bearer
bearer_header secret r h = bearer_of (r.header "Authorization") secret h

-- Tests that decide the parts decide the whole.
Passes-Means :
    {E B N S M O : Type 0} (e b n s m o : Bool)
    → Means e E
    → Means b B
    → Means n N
    → Means s S
    → Means m M
    → Means o O
    → (Passes e n b s m o → E ⊎ (B ⊎ (N × S × (M → O))))
      × (E ⊎ (B ⊎ (N × S × (M → O))) → Passes e n b s m o)
Passes-Means {E} {B} {N} {S} {M} {O} e b n s m o he hb hn hs hm ho = (there, back)
  where
    there : Passes e n b s m o → E ⊎ (B ⊎ (N × S × (M → O)))
    there (inl p) = inl (he.0 p)
    there (inr (inl p)) = inr (inl (hb.0 p))
    there (inr (inr (p, q, f))) = inr (inr (hn.0 p, hs.0 q, λ x. ho.0 (f (hm.1 x))))

    back : E ⊎ (B ⊎ (N × S × (M → O))) → Passes e n b s m o
    back (inl p) = inl (he.1 p)
    back (inr (inl p)) = inr (inl (hb.1 p))
    back (inr (inr (p, q, f))) = inr (inr (hn.1 p, hs.1 q, λ x. ho.1 (f (hm.0 x))))

module _ (lib : Primitives) where
  -- A request that the middleware may let through: an exempt one, one with the secret as its
  -- bearer token, or one without an Authorization header that has a session and, if its method
  -- changes state, comes from this site.
  abbrev pub IsAllowed : Text → ℤ → Request → Type 0
  IsAllowed secret now r =
      IsExempt r
      ⊎ (IsBearer r secret
          ⊎ ((r.header "Authorization" ≡ [])
              × HasSession lib secret now r
              × (Mutates r.method → FromSite lib r)))

  abbrev PassesTests : Text → ℤ → Request → Type 0
  PassesTests secret now r =
      Passes (is_auth_exempt r) (is_empty (r.header "Authorization")) (valid_bearer r secret)
        (has_session lib secret now r) (is_mutating r.method) (same_origin_request lib r)

  allowed :
      (secret : Text) (now : ℤ) (r : Request)
      → (PassesTests secret now r → IsAllowed secret now r)
        × (IsAllowed secret now r → PassesTests secret now r)
  allowed secret now r =
      Passes-Means (is_auth_exempt r) (valid_bearer r secret) (is_empty (r.header "Authorization"))
        (has_session lib secret now r) (is_mutating r.method) (same_origin_request lib r)
        (is_auth_exempt-Means r) (valid_bearer-Means r secret)
        (is_empty-Means (r.header "Authorization")) (has_session-Means lib secret now r)
        (is_mutating-Means r.method) (same_origin_request-Means lib r)

  -- The middleware passes a request on exactly in three cases. It is exempt: a GET of /healthz or of
  -- a path under /static/, or a GET or POST of /login. Or its Authorization header is "Bearer " and
  -- the secret. Or it has no Authorization header and a session cookie that verifies and, if its
  -- method is POST, PUT, PATCH or DELETE, is of this site: its Sec-Fetch-Site is same-origin or none,
  -- or is missing while its Origin is missing too or has the request's host.
  pub auth_middleware-IsAllowed :
      (secret : Text) (now : ℤ) (r : Request)
      → auth_middleware lib secret now r ≡ next_serves ↔ IsAllowed secret now r
  unfolding auth_middleware decided
  auth_middleware-IsAllowed secret now r = (
    λ h. (allowed secret now r).0 (
        passes (is_auth_exempt r) (is_empty (r.header "Authorization")) (valid_bearer r secret)
          (has_session lib secret now r) (is_empty (r.header "HX-Request")) (is_mutating r.method)
          (same_origin_request lib r) (codes "/login?next=" ++ lib.query_escape (requested_next r))
          h),
    λ h.
        passed (is_auth_exempt r) (is_empty (r.header "Authorization")) (valid_bearer r secret)
          (has_session lib secret now r) (is_empty (r.header "HX-Request")) (is_mutating r.method)
          (same_origin_request lib r) (codes "/login?next=" ++ lib.query_escape (requested_next r))
          (bearer_header secret r) ((allowed secret now r).1 h),
  )

  has_session_of :
      (secret value : Text) (now : ℤ) (r : Request)
      → r.cookie ≡ some value
      → has_session lib secret now r ≡ verify_session lib secret now value
  unfolding has_session
  has_session_of secret value now r e =
      ap
        (λ (o : Option Text).
          let b : Bool = elim o [ none ↦ false | some c ↦ verify_session lib secret now c ] in b)
        e

  -- A login with the right password sets a cookie, and redirects to the checked target; a request
  -- that carries that cookie and no Authorization header is served until thirty days later, if its
  -- method changes nothing or it comes from this site, where `decode` undoes `encode`.
  pub login_submit-auth_middleware :
      (secret form_next : Text) (now later : ℤ) (r : Request)
      → ((s : Text) → lib.decode (lib.encode s) ≡ some s)
      → magnitude (now +ℤ session_duration) < 2 ^ 63
      → leb_ℤ later (now +ℤ session_duration) ≡ true
      → is_empty (r.header "Authorization") ≡ true
      → (is_mutating r.method ≡ true → same_origin_request lib r ≡ true)
      → r.cookie ≡ some (sign_session lib secret (now +ℤ session_duration))
      → (login_submit lib secret now (some (form_next, secret))
          ≡ set_cookie (sign_session lib secret (now +ℤ session_duration)) (safe_next form_next))
        × (auth_middleware lib secret later r ≡ next_serves)
  unfolding login_submit
  login_submit-auth_middleware secret form_next now later r undo l t a o c = (
    rw (eqb_text_refl secret) refl,
    (auth_middleware-IsAllowed secret later r).1
        ((allowed secret later r).0 (inr (inr (a, session, o)))),
  )
    where
      session : has_session lib secret later r ≡ true
      session =
          has_session_of secret (sign_session lib secret (now +ℤ session_duration)) later r c
          ∙ verify_session-sign_session lib secret later (now +ℤ session_duration) undo l
          ∙ t
