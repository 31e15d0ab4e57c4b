-- ===== src/Web/Auth/Sessions.antt =====
-- internal/web/auth.go: the sessions that are signed are the ones that are accepted.
use lineleader.Base.{◌^◌, ◌<◌, ◌≡◌, ◌∙◌, ap, Bool, false, ◌∷◌, ◌++◌, Option, none, some}
use lineleader.Base.Int.{ℤ, leb_ℤ, magnitude}
use lineleader.Base.Text.{Text, cut, format_int, parse_int}
use lineleader.Base.Text.Integers.{eqb_text_refl, format_int-no_dot, parse_int-format_int}
use lineleader.Base.Text.Trimming.{Free-cut}
use lineleader.Web.Auth.{Primitives, sign_session, verify_decoded, verify_parts, verify_session}

module _ (lib : Primitives) where
  verify_decodes :
      (secret : Text) (now : ℤ) (value raw : Text)
      → lib.decode value ≡ some raw
      → verify_session lib secret now value ≡ verify_decoded lib secret now (cut 46 raw)
  unfolding verify_session
  verify_decodes secret now value raw e =
      ap
        (λ (o : Option Text).
          let r : Bool = elim o [
            | none ↦ false
            | some t ↦ verify_decoded lib secret now (cut 46 t)
          ] in
          r)
        e

  verify_reads :
      (secret : Text) (now expiry : ℤ) (exp : Text)
      → parse_int exp ≡ some expiry
      → verify_parts lib secret now exp (lib.mac secret exp) ≡ leb_ℤ now expiry
  unfolding verify_parts
  verify_reads secret now expiry exp e =
      rw (eqb_text_refl (lib.mac secret exp)) (
        ap (λ (o : Option ℤ). let r : Bool = elim o [ none ↦ false | some z ↦ leb_ℤ now z ] in r) e)

  -- Where `decode` undoes `encode`, a session that was signed for an expiry of 64 bits is accepted
  -- under the same secret exactly until its expiry.
  pub verify_session-sign_session :
      (secret : Text) (now expiry : ℤ)
      → ((s : Text) → lib.decode (lib.encode s) ≡ some s)
      → magnitude expiry < 2 ^ 63
      → verify_session lib secret now (sign_session lib secret expiry) ≡ leb_ℤ now expiry
  unfolding sign_session verify_decoded
  verify_session-sign_session secret now expiry undo l =
      verify_decodes secret now (sign_session lib secret expiry)
        (format_int expiry ++ (46 ∷ lib.mac secret (format_int expiry)))
        (undo (format_int expiry ++ (46 ∷ lib.mac secret (format_int expiry))))
      ∙ ap (verify_decoded lib secret now) (
          Free-cut 46 (format_int expiry) (lib.mac secret (format_int expiry))
            (format_int-no_dot expiry))
      ∙ verify_reads secret now expiry (format_int expiry) (parse_int-format_int expiry l)
