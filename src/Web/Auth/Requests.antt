-- ===== src/Web/Auth/Requests.antt =====
-- internal/web/auth.go: what the tests of the middleware say of a request.
use lineleader.Base.{
  ◌≡◌, ◌⊎◌, inl, inr, refl, ap, sym, ◌∙◌, Bool, true, false, not, ◌&&◌, ◌||◌, [], ◌∷◌, ◌++◌, Option,
  none, some, Bool-cases, arith, ℕ, ◌==◌, if◌then◌else◌,
}
use mathlib.Core.Path.{subst}
use mathlib.Core.Option.{some-injective}
use lineleader.Base.Int.{ℤ}
use lineleader.Base.Text.{Text, codes, drop, eqb_text, has_prefix, is_empty}
use lineleader.Base.Text.Integers.{eqb_text_refl, eqb_text_sound}
use lineleader.Web.Auth.{
  Primitives, Request, has_session, is_auth_exempt, is_mutating, same_origin_request, valid_bearer,
  verify_session,
}

-- The test decides the statement.
abbrev pub Means : Bool → Type 0 → Type 0
Means b P = (b ≡ true → P) × (P → b ≡ true)

or-Means : {P Q : Type 0} (a b : Bool) → Means a P → Means b Q → Means (a || b) (P ⊎ Q)
or-Means true b h k = (λ e. inl (h.0 refl), λ p. refl)
or-Means {P} {Q} false b h k = (λ e. inr (k.0 e), either)
  where
    either : P ⊎ Q → b ≡ true
    either (inl p) = cc (h.1 p)
    either (inr q) = k.1 q

and-Means : {P Q : Type 0} (a b : Bool) → Means a P → Means b Q → Means (a && b) (P × Q)
and-Means true b h k = (λ e. (h.0 refl, k.0 e), λ p. k.1 p.1)
and-Means false b h k = (λ e. cc e, λ p. h.1 p.0)

if-Means :
    {P Q R : Type 0} (a b c : Bool)
    → Means a P
    → Means b Q
    → Means c R
    → Means (if a then true else if b then true else c) (P ⊎ (Q ⊎ R))
if-Means true b c h k l = (λ e. inl (h.0 refl), λ p. refl)
if-Means {P} {Q} {R} false b c h k l = (λ e. inr (later b k e), earlier b k)
  where
    later : (b : Bool) → Means b Q → (if b then true else c) ≡ true → Q ⊎ R
    later true k e = inl (k.0 refl)
    later false k e = inr (l.0 e)

    earlier : (b : Bool) → Means b Q → P ⊎ (Q ⊎ R) → (if b then true else c) ≡ true
    earlier b k (inl p) = cc (h.1 p)
    earlier true k (inr q) = refl
    earlier false k (inr (inl q)) = cc (k.1 q)
    earlier false k (inr (inr r)) = l.1 r

eqb_text-Means : (s t : Text) → Means (eqb_text s t) (s ≡ t)
eqb_text-Means s t = (eqb_text_sound s t, λ e. subst (λ x. eqb_text s x ≡ true) e (eqb_text_refl s))

-- The text starts with the prefix.
abbrev pub StartsWith : Text → Text → Type 0
StartsWith s prefix = (rest : Text) × (s ≡ prefix ++ rest)

has_prefix_sound : (s prefix : Text) → has_prefix s prefix ≡ true → StartsWith s prefix
unfolding has_prefix
has_prefix_sound s [] h = (s, refl)
has_prefix_sound [] (p ∷ prefix) h = cc h
has_prefix_sound (c ∷ s) (p ∷ prefix) h = elim (Bool-cases (c == p)) [
  | inl e ↦
      let r = has_prefix_sound s prefix (rw e at h) in
      (r.0, ap (λ (x : ℕ). x ∷ s) (same c p e) ∙ ap (◌∷◌ p) r.1)
  | inr e ↦ let no = rw e at h in cc no
]
  where
    same : (c p : ℕ) → (c == p) ≡ true → c ≡ p
    same c p e = ground arith

has_prefix_complete : (prefix rest : Text) → has_prefix (prefix ++ rest) prefix ≡ true
unfolding has_prefix
has_prefix_complete [] rest = refl
has_prefix_complete (p ∷ prefix) rest = rw (self p) (has_prefix_complete prefix rest)
  where
    self : (p : ℕ) → (p == p) ≡ true
    self p = ground arith

has_prefix-Means : (s prefix : Text) → Means (has_prefix s prefix) (StartsWith s prefix)
has_prefix-Means s prefix = (
  has_prefix_sound s prefix,
  λ r. subst (λ x. has_prefix x prefix ≡ true) (sym r.1) (has_prefix_complete prefix r.0),
)

pub is_empty-Means : (s : Text) → Means (is_empty s) (s ≡ [])
is_empty-Means [] = (λ e. refl, λ e. refl)
is_empty-Means (c ∷ s) = (λ e. cc e, λ e. cc e)

-- A request that needs no login: a read of the health check or of a static file, the login page and
-- its form.
abbrev pub IsExempt : Request → Type 0
IsExempt r =
    ((r.method ≡ codes "GET") × (r.path ≡ codes "/healthz"))
    ⊎ ((((r.method ≡ codes "GET") ⊎ (r.method ≡ codes "POST")) × (r.path ≡ codes "/login"))
        ⊎ ((r.method ≡ codes "GET") × StartsWith r.path (codes "/static/")))

pub is_auth_exempt-Means : (r : Request) → Means (is_auth_exempt r) (IsExempt r)
unfolding is_auth_exempt
is_auth_exempt-Means r =
    let get = eqb_text r.method (codes "GET") in
    let post = eqb_text r.method (codes "POST") in
    let is_get = eqb_text-Means r.method (codes "GET") in
    if-Means (get && eqb_text r.path (codes "/healthz"))
      ((get || post) && eqb_text r.path (codes "/login"))
      (get && has_prefix r.path (codes "/static/"))
      (and-Means get _ is_get (eqb_text-Means r.path (codes "/healthz")))
      (and-Means (get || post) _ (or-Means get post is_get (eqb_text-Means r.method (codes "POST")))
        (eqb_text-Means r.path (codes "/login")))
      (and-Means get _ is_get (has_prefix-Means r.path (codes "/static/")))

-- A method that changes state.
abbrev pub Mutates : Text → Type 0
Mutates m = (((m ≡ codes "POST") ⊎ (m ≡ codes "PUT")) ⊎ (m ≡ codes "PATCH")) ⊎ (m ≡ codes "DELETE")

pub is_mutating-Means : (m : Text) → Means (is_mutating m) (Mutates m)
unfolding is_mutating
is_mutating-Means m =
    let post = eqb_text m (codes "POST") in
    let put = eqb_text m (codes "PUT") in
    let patch = eqb_text m (codes "PATCH") in
    let delete = eqb_text m (codes "DELETE") in
    or-Means (post || put || patch) delete
      (or-Means (post || put) patch
        (or-Means post put (eqb_text-Means m (codes "POST")) (eqb_text-Means m (codes "PUT")))
        (eqb_text-Means m (codes "PATCH")))
      (eqb_text-Means m (codes "DELETE"))

-- The Authorization header is the secret as a bearer token.
abbrev pub IsBearer : Request → Text → Type 0
IsBearer r secret = r.header "Authorization" ≡ codes "Bearer " ++ secret

token_of :
    (auth secret : Text)
    → StartsWith auth (codes "Bearer ") × (drop 7 auth ≡ secret)
    → auth ≡ codes "Bearer " ++ secret
unfolding drop
token_of auth secret ((rest, e), t) =
    e ∙ ap (λ (x : Text). codes "Bearer " ++ x) (sym (ap (drop 7) e) ∙ t)

pub valid_bearer-Means :
    (r : Request) (secret : Text) → Means (valid_bearer r secret) (IsBearer r secret)
unfolding valid_bearer drop
valid_bearer-Means r secret =
    let auth = r.header "Authorization" in
    let both =
      and-Means (has_prefix auth (codes "Bearer ")) (eqb_text (drop 7 auth) secret)
        (has_prefix-Means auth (codes "Bearer ")) (eqb_text-Means (drop 7 auth) secret) in
    (λ h. token_of auth secret (both.0 h), λ e. both.1 ((secret, e), ap (drop 7) e))

module _ (lib : Primitives) where
  -- The browser says that the request is of this site or of no site, or says nothing and the
  -- request names no origin or one with the host that it is sent to.
  abbrev pub FromSite : Request → Type 0
  FromSite r =
      (r.header "Sec-Fetch-Site" ≡ codes "same-origin")
      ⊎ ((r.header "Sec-Fetch-Site" ≡ codes "none")
          ⊎ ((r.header "Sec-Fetch-Site" ≡ [])
              × ((r.header "Origin" ≡ []) ⊎ (lib.url_host (r.header "Origin") ≡ some r.host))))

  host-Means :
      (o : Option Text) (host : Text)
      → Means (elim o [ none ↦ false | some h ↦ eqb_text h host ]) (o ≡ some host)
  host-Means none host = (λ e. cc e, λ e. cc e)
  host-Means (some h) host =
      let m = eqb_text-Means h host in (λ e. ap some (m.0 e), λ e. m.1 (some-injective _ _ e))

  origin-Means :
      (origin host : Text) (o : Option Text)
      → Means
          (if not (is_empty origin)
            then elim o [ none ↦ false | some h ↦ eqb_text h host ]
            else true)
          ((origin ≡ []) ⊎ (o ≡ some host))
  origin-Means [] host o = (λ e. inl refl, λ e. refl)
  origin-Means (c ∷ s) host o = (λ e. inr ((host-Means o host).0 e), either)
    where
      either :
          ((c ∷ s) ≡ []) ⊎ (o ≡ some host)
          → (let b : Bool = elim o [ none ↦ false | some h ↦ eqb_text h host ] in b) ≡ true
      either (inl e) = cc e
      either (inr e) = (host-Means o host).1 e

  site-Means :
      (sfs : Text) (b : Bool) (P : Type 0)
      → Means b P
      → Means
          (if not (is_empty sfs)
            then eqb_text sfs (codes "same-origin") || eqb_text sfs (codes "none")
            else b)
          ((sfs ≡ codes "same-origin") ⊎ ((sfs ≡ codes "none") ⊎ ((sfs ≡ []) × P)))
  site-Means [] b P h = (λ e. inr (inr (refl, h.0 e)), either [] refl)
    where
      either :
          (t : Text)
          → t ≡ []
          → (t ≡ codes "same-origin") ⊎ ((t ≡ codes "none") ⊎ ((t ≡ []) × P))
          → b ≡ true
      either t n (inl e) = cc (n, e)
      either t n (inr (inl e)) = cc (n, e)
      either t n (inr (inr p)) = h.1 p.1
  site-Means (c ∷ s) b P h = (λ e. wider (named.0 e), narrower)
    where
      named :
          Means
            (eqb_text (c ∷ s) (codes "same-origin") || eqb_text (c ∷ s) (codes "none"))
            (((c ∷ s) ≡ codes "same-origin") ⊎ ((c ∷ s) ≡ codes "none"))
      named =
          or-Means _ _ (eqb_text-Means (c ∷ s) (codes "same-origin"))
            (eqb_text-Means (c ∷ s) (codes "none"))

      wider :
          ((c ∷ s) ≡ codes "same-origin") ⊎ ((c ∷ s) ≡ codes "none")
          → ((c ∷ s) ≡ codes "same-origin") ⊎ (((c ∷ s) ≡ codes "none") ⊎ (((c ∷ s) ≡ []) × P))
      wider (inl e) = inl e
      wider (inr e) = inr (inl e)

      narrower :
          ((c ∷ s) ≡ codes "same-origin") ⊎ (((c ∷ s) ≡ codes "none") ⊎ (((c ∷ s) ≡ []) × P))
          → (eqb_text (c ∷ s) (codes "same-origin") || eqb_text (c ∷ s) (codes "none")) ≡ true
      narrower (inl e) = named.1 (inl e)
      narrower (inr (inl e)) = named.1 (inr e)
      narrower (inr (inr p)) = cc (p.0)

  pub same_origin_request-Means : (r : Request) → Means (same_origin_request lib r) (FromSite r)
  unfolding same_origin_request
  same_origin_request-Means r =
      site-Means (r.header "Sec-Fetch-Site") _ _
        (origin-Means (r.header "Origin") r.host (lib.url_host (r.header "Origin")))

  -- The cookie of the request is a session that verifies.
  abbrev pub HasSession : Text → ℤ → Request → Type 0
  HasSession secret now r =
      (c : Text) × (r.cookie ≡ some c) × (verify_session lib secret now c ≡ true)

  cookie-Means :
      (secret : Text) (now : ℤ) (o : Option Text)
      → Means
          (elim o [ none ↦ false | some c ↦ verify_session lib secret now c ])
          ((c : Text) × (o ≡ some c) × (verify_session lib secret now c ≡ true))
  cookie-Means secret now none = (λ e. cc e, λ p. cc (p.1))
  cookie-Means secret now (some c) = (λ e. (c, refl, e), λ p. rw (some-injective _ _ p.1) p.2)

  pub has_session-Means :
      (secret : Text) (now : ℤ) (r : Request)
      → Means (has_session lib secret now r) (HasSession secret now r)
  unfolding has_session
  has_session-Means secret now r = cookie-Means secret now r.cookie
