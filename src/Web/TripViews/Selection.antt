-- ===== src/Web/TripViews/Selection.antt =====
-- internal/web: a row is marked as selected by `stayKey` exactly where `stayEquals` of internal/dvc
-- finds the stay on the trip.
use text.Mathlib.TextEquality.{Char-path}
use lineleader.Base.{
  ◌^◌, ◌<◌, ◌==◌, ◌≡◌, refl, sym, ◌∙◌, ap, Bool, true, false, List, [], ◌∷◌, ◌++◌, some, String,
  eq_iff, All, any, arith,
}
use lineleader.Base.Int.{ℤ, magnitude, eq_of_eqb, eqb_refl}
use lineleader.Base.Text.{Text, codes, eqb_text, format_int, parse_int}
use lineleader.Base.Text.Integers.{eqb_text_refl, eqb_text_sound, parse_int-format_int}
use lineleader.Calendar.{Time}
use lineleader.Dvc.Filters.{stay_equals}
use lineleader.Dvc.Types.{StayResult}
use lineleader.Ledger.Types.{TripStay}
use lineleader.Web.TripViews.{barred, is_collected, stay_key, stay_key_for_stay}

codes_injective : (s t : String) → codes s ≡ codes t → s ≡ t
codes_injective String.[] String.[] h = refl
codes_injective String.[] (String.◌∷◌ d t) h = cc
codes_injective (String.◌∷◌ c s) String.[] h = cc
codes_injective (String.◌∷◌ c s) (String.◌∷◌ d t) h =
    let heads : c ≡ d = Char-path c d (cc h) in
    let tails : s ≡ t = codes_injective s t (cc h) in λ i. String.◌∷◌ (heads i) (tails i)

-- A text without a bar.
abbrev pub NoBar : Text → Type 0
NoBar = All λ c. (c == 124) ≡ false

-- The first bar ends the first part of a key.
bar_splits :
    (s t r u : Text) → NoBar s → NoBar t → s ++ (124 ∷ r) ≡ t ++ (124 ∷ u) → (s ≡ t) × (r ≡ u)
bar_splits [] [] r u a b h = (refl, cc h)
bar_splits [] (d ∷ t) r u a b h = absurd (ground arith)
bar_splits (c ∷ s) [] r u a b h = absurd (ground arith)
bar_splits (c ∷ s) (d ∷ t) r u a b h =
    let heads : c ≡ d = cc h in
    let (tails, rest) = bar_splits s t r u a.1 b.1 (cc h) in ((λ i. heads i ∷ tails i), rest)

true_both : (a b : Bool) → (a ≡ true → b ≡ true) → (b ≡ true → a ≡ true) → a ≡ b
true_both true b f g = sym (f refl)
true_both false true f g = g refl
true_both false false f g = refl

-- A stay whose names hold no bar, and whose points are those of an `int64` other than the least.
abbrev pub IsPlain : StayResult → Type 0
IsPlain r =
    NoBar (codes r.resort)
    × NoBar (codes r.room_type)
    × NoBar (codes r.view)
    × (magnitude r.points < 2 ^ 63)

-- The result that a stay was made of; its nights play no part.
abbrev pub result_of : TripStay → StayResult
result_of st = record {
  resort = st.resort;
  room_type = st.room_type;
  view = st.view;
  check_in = st.check_in;
  check_out = st.check_out;
  nights = 0;
  points = st.points;
}

abbrev pub SameStay : StayResult → StayResult → Type 0
SameStay a b =
    (a.resort ≡ b.resort)
    × (a.room_type ≡ b.room_type)
    × (a.view ≡ b.view)
    × (a.check_in ≡ b.check_in)
    × (a.check_out ≡ b.check_out)
    × (a.points ≡ b.points)

SameStay→equals : (a b : StayResult) → SameStay a b → stay_equals a b ≡ true
unfolding stay_equals
SameStay→equals a b h =
    rw
      (
        (eq_iff a.resort b.resort).1 h.0,
        (eq_iff a.room_type b.room_type).1 h.1,
        (eq_iff a.view b.view).1 h.2,
        h.3,
        h.4,
        h.5,
      )
      (ground (arith, eqb_refl b.points))

equals→SameStay : (a b : StayResult) → stay_equals a b ≡ true → SameStay a b
unfolding stay_equals
equals→SameStay a b h = ground (
  arith,
  eq_iff a.resort b.resort,
  eq_iff a.room_type b.room_type,
  eq_iff a.view b.view,
  eq_of_eqb a.points b.points,
)

format_int_injective :
    (a b : ℤ) → magnitude a < 2 ^ 63 → magnitude b < 2 ^ 63 → format_int a ≡ format_int b → a ≡ b
format_int_injective a b l m h =
    let read : some a ≡ some b =
      sym (parse_int-format_int a l) ∙ ap parse_int h ∙ parse_int-format_int b m in
    cc read

module _ (format_day : Time → String) (days_plain : (t : Time) → NoBar (codes (format_day t)))
    (days_differ : (a b : Time) → format_day a ≡ format_day b → a ≡ b) where
  stay_key→SameStay :
      (a b : StayResult)
      → IsPlain a
      → IsPlain b
      → stay_key format_day a ≡ stay_key format_day b
      → SameStay a b
  unfolding stay_key barred
  stay_key→SameStay a b p q h =
      let (resort, h1) = bar_splits (codes a.resort) (codes b.resort) _ _ p.0 q.0 h in
      let (room, h2) = bar_splits (codes a.room_type) (codes b.room_type) _ _ p.1 q.1 h1 in
      let (view, h3) = bar_splits (codes a.view) (codes b.view) _ _ p.2 q.2 h2 in
      let (from, h4) =
        bar_splits (codes (format_day a.check_in)) (codes (format_day b.check_in)) _ _
          (days_plain a.check_in) (days_plain b.check_in) h3 in
      let (to, points) =
        bar_splits (codes (format_day a.check_out)) (codes (format_day b.check_out)) _ _
          (days_plain a.check_out) (days_plain b.check_out) h4 in
      (
        codes_injective a.resort b.resort resort,
        codes_injective a.room_type b.room_type room,
        codes_injective a.view b.view view,
        days_differ a.check_in b.check_in (codes_injective _ _ from),
        days_differ a.check_out b.check_out (codes_injective _ _ to),
        format_int_injective a.points b.points p.3 q.3 points,
      )

  key_equals :
      (a b : StayResult)
      → IsPlain a
      → IsPlain b
      → eqb_text (stay_key format_day a) (stay_key format_day b) ≡ stay_equals a b
  unfolding stay_key barred
  key_equals a b p q =
      true_both (eqb_text (stay_key format_day a) (stay_key format_day b)) (stay_equals a b)
        (λ h. SameStay→equals a b (
          stay_key→SameStay a b p q
            (eqb_text_sound (stay_key format_day a) (stay_key format_day b) h)))
        (λ h.
          let s = equals→SameStay a b h in
          rw (s.0, s.1, s.2, s.3, s.4, s.5) (eqb_text_refl (stay_key format_day b)))

-- A result is marked as selected exactly if `stayEquals` finds it among the stays of the trip, where
-- the names of resorts, room types and views hold no bar, points are below 2 ^ 63 in size, and the
-- days of different dates are different texts without a bar.
pub is_collected-stay_equals :
    (format_day : Time → String) (stays : List TripStay) (r : StayResult)
    → ((t : Time) → NoBar (codes (format_day t)))
    → ((a b : Time) → format_day a ≡ format_day b → a ≡ b)
    → IsPlain r
    → All (λ (st : TripStay). IsPlain (result_of st)) stays
    → is_collected format_day stays r ≡ any (λ (st : TripStay). stay_equals (result_of st) r) stays
unfolding is_collected stay_key_for_stay stay_key
is_collected-stay_equals format_day [] r plain differ p q = refl
is_collected-stay_equals format_day (st ∷ stays) r plain differ p q =
    rw
      (
        key_equals format_day plain differ (result_of st) r q.0 p,
        is_collected-stay_equals format_day stays r plain differ p q.1,
      )
      refl
