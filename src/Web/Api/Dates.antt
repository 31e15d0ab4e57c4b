-- ===== src/Web/Api/Dates.antt =====
-- internal/web/api_handlers.go: the dates that an import reckons from its stays.
use mathlib.Core.Path.{subst}
use lineleader.Base.{
  ℕ, ◌≤◌, ◌<◌, ◌==◌, ◌≡◌, refl, sym, Bool, true, ◌||◌, List, [], ◌∷◌, String, ltb, length, All,
  arith, if◌then◌else◌,
}
use lineleader.Calendar.{Time, Calendar}
use lineleader.Ledger.Import.{ImportedStay}
use lineleader.Ledger.Types.{Trip}
use lineleader.Web.Api.{
  ApiError, Validated, invalid_check_in, invalid_check_out, invalid_end_date, invalid_start_date,
  name_required, stay_required, accepted, is_blank, or_refuse, refuse_if, refused, ◌>>=◌,
}
use lineleader.Web.Api.Import.{
  Import, ImportStayRequestDto, ImportTripRequestDto, date_or, imported_stay, read_import,
  read_stays,
}

-- What is accepted satisfies a predicate.
abbrev pub OnAccepted : {A : Type 0} → (A → Type 0) → Validated A → Type 0
OnAccepted P (accepted a) = P a
OnAccepted P (refused e) = Unit

OnAccepted-bind :
    {A B : Type 0} (Q : A → Type 0) (P : B → Type 0) (v : Validated A) (f : A → Validated B)
    → OnAccepted Q v
    → ((a : A) → Q a → OnAccepted P (f a))
    → OnAccepted P (v >>= f)
OnAccepted-bind Q P (accepted a) f q h = h a q
OnAccepted-bind Q P (refused e) f q h = tt

anything : {A : Type 0} (v : Validated A) → OnAccepted (λ (a : A). Unit {0}) v
anything (accepted a) = tt
anything (refused e) = tt

-- Every check-in comes after the zero time.
abbrev pub Dated : List ImportedStay → Type 0
Dated = All λ (is : ImportedStay). 0 < is.stay.check_in

-- The stays of the trip lie between two days.
abbrev pub Within : Time → Time → List ImportedStay → Type 0
Within start last =
    All λ (is : ImportedStay). (start ≤ is.stay.check_in) × (is.stay.check_out ≤ last)

-- What the loop makes of the bounds that it starts with.
abbrev IsReading : Time → Time → Import → Type 0
IsReading lo hi r =
    Dated r.stays → (0 < lo → r.min_in ≤ lo) × (hi ≤ r.max_out) × Within r.min_in r.max_out r.stays

IsReading-stay :
    (lo hi c o : ℕ) (m x : ℕ)
    → 0 < c
    → (0 < (if (lo == 0) || ltb c lo then c else lo)
        → m ≤ (if (lo == 0) || ltb c lo then c else lo))
    → (if ltb hi o then o else hi) ≤ x
    → (0 < lo → m ≤ lo) × (hi ≤ x) × (m ≤ c) × (o ≤ x)
IsReading-stay lo hi c o m x p f g = grind arith

IsReading-cons :
    (lo hi : Time) (read : Import) (is : ImportedStay)
    → IsReading
        (if (lo == 0) || ltb is.stay.check_in lo then is.stay.check_in else lo)
        (if ltb hi is.stay.check_out then is.stay.check_out else hi)
        read
    → IsReading lo hi (record read { stays = is ∷ read.stays })
IsReading-cons lo hi read is ih dated =
    let (first, last, rest) = ih dated.1 in
    let (before, after, from, to) =
      IsReading-stay lo hi is.stay.check_in is.stay.check_out read.min_in read.max_out dated.0 first
        last in
    (before, after, ((from, to), rest))

-- The dates of a trip enclose its stays, if no check-in is the zero time.
abbrev Encloses : Trip × List ImportedStay → Type 0
Encloses p = Dated p.1 → Within p.0.start_date p.0.end_date p.1

module _ (cal : Calendar) where
  read_stays-IsReading :
      (ss : List ImportStayRequestDto) (lo hi : Time)
      → OnAccepted (IsReading lo hi) (read_stays cal ss lo hi)
  unfolding read_stays imported_stay
  read_stays-IsReading [] lo hi = λ d. ((λ p. omega arith), omega arith, tt)
  read_stays-IsReading (s ∷ rest) lo hi =
      OnAccepted-bind (λ (c : Time). Unit {0}) (IsReading lo hi)
        (or_refuse invalid_check_in (cal.parse_day s.check_in)) _
        (anything (or_refuse invalid_check_in (cal.parse_day s.check_in)))
        λ check_in u.
          OnAccepted-bind (λ (c : Time). Unit {0}) (IsReading lo hi)
            (or_refuse invalid_check_out (cal.parse_day s.check_out)) _
            (anything (or_refuse invalid_check_out (cal.parse_day s.check_out)))
            λ check_out u'.
              OnAccepted-bind
                (IsReading (if (lo == 0) || ltb check_in lo then check_in else lo)
                  (if ltb hi check_out then check_out else hi))
                (IsReading lo hi)
                (read_stays cal rest (if (lo == 0) || ltb check_in lo then check_in else lo)
                  (if ltb hi check_out then check_out else hi))
                _
                (read_stays-IsReading rest (if (lo == 0) || ltb check_in lo then check_in else lo)
                  (if ltb hi check_out then check_out else hi))
                λ read ih. IsReading-cons lo hi read (imported_stay cal s check_in check_out) ih

  date_or-blank :
      (e : ApiError) (s : String) (t : Time)
      → is_blank s ≡ true
      → OnAccepted (λ (u : Time). t ≡ u) (date_or cal e s t)
  unfolding date_or
  date_or-blank e s t b =
      subst
        (λ (c : Bool).
          OnAccepted (λ (u : Time). t ≡ u)
            (if c then accepted t else or_refuse e (cal.parse_day s)))
        (sym b) refl

  Encloses-read_import :
      (dto : ImportTripRequestDto)
      → is_blank dto.start_date ≡ true
      → is_blank dto.end_date ≡ true
      → OnAccepted Encloses (read_import cal dto)
  unfolding read_import imported_stay
  Encloses-read_import dto no_start no_end =
      OnAccepted-bind (λ u. Unit {0}) Encloses (refuse_if (is_blank dto.name) name_required) _
        (anything (refuse_if (is_blank dto.name) name_required))
        λ named u.
          OnAccepted-bind (λ u. Unit {0}) Encloses (refuse_if (length dto.stays == 0) stay_required)
            _ (anything (refuse_if (length dto.stays == 0) stay_required))
            λ stayed u'.
              OnAccepted-bind (IsReading 0 0) Encloses (read_stays cal dto.stays 0 0) _
                (read_stays-IsReading dto.stays 0 0)
                λ read reading.
                  OnAccepted-bind (λ (u : Time). read.min_in ≡ u) Encloses
                    (date_or cal invalid_start_date dto.start_date read.min_in) _
                    (date_or-blank invalid_start_date dto.start_date read.min_in no_start)
                    λ start e.
                      OnAccepted-bind (λ (u : Time). read.max_out ≡ u) Encloses
                        (date_or cal invalid_end_date dto.end_date read.max_out) _
                        (date_or-blank invalid_end_date dto.end_date read.max_out no_end)
                        λ last e' dated.
                          subst (λ (d : Time). Within d last read.stays) e
                            (subst (λ (d : Time). Within read.min_in d read.stays) e'
                              (reading dated).2)

  -- An import that names no dates and is accepted becomes a trip whose dates enclose its stays, if
  -- no check-in is the zero time.
  pub read_import-Within :
      (dto : ImportTripRequestDto) (t : Trip) (stays : List ImportedStay)
      → is_blank dto.start_date ≡ true
      → is_blank dto.end_date ≡ true
      → read_import cal dto ≡ accepted (t, stays)
      → Dated stays
      → Within t.start_date t.end_date stays
  read_import-Within dto t stays no_start no_end h =
      subst (OnAccepted Encloses) h (Encloses-read_import dto no_start no_end)
