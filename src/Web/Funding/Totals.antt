-- ===== src/Web/Funding/Totals.antt =====
-- internal/web/render.go: the lines of the funding section.
use lineleader.Base.{
  ◌≡◌, refl, sym, ap, ◌∙◌, inl, inr, ◌&&◌, List, [], ◌∷◌, ◌==◌, str_eq, Bool-cases, Option, none,
  some, sum_of,
}
use lineleader.Base.Int.{ℤ, ◌+ℤ◌, eqb_ℤ, int_laws}
use lineleader.Ledger.Types.{PointDraw, TripStay}
use lineleader.Ledger.Accounting.{StayFunding, TripFundingPreview}
use lineleader.Ledger.Booking.{disposition_tag}
use lineleader.Web.Funding.{
  FundingLine, TripFundingView, find_stay_by_id, add_line, add_draws, add_short, funding_stays,
  build_trip_funding_view,
}

abbrev pub line_points : List FundingLine → ℤ
line_points = sum_of (λ (l : FundingLine). l.points)

line_points-add_line :
    (ls : List FundingLine) (d : PointDraw)
    → line_points (add_line ls d) ≡ line_points ls +ℤ d.points
unfolding add_line
line_points-add_line [] d = omega int_laws
line_points-add_line (l ∷ ls) d =
    elim (Bool-cases (
      (l.contract_id == d.contract_id)
      && eqb_ℤ l.use_year d.use_year
      && str_eq l.tag (disposition_tag d.disposition))) [
        | inl h ↦ rw h (omega int_laws)
        | inr h ↦ rw (h, line_points-add_line ls d) (omega int_laws)
      ]

-- The lines of a view add up to its total.
abbrev IsTotal : TripFundingView → Type 0
IsTotal fv = fv.total_points ≡ line_points fv.lines

add_draws-IsTotal :
    (fv : TripFundingView) (draws : List PointDraw) → IsTotal fv → IsTotal (add_draws fv draws)
unfolding add_draws
add_draws-IsTotal fv [] t = t
add_draws-IsTotal fv (d ∷ draws) t =
    add_draws-IsTotal
      (record fv { total_points = fv.total_points +ℤ d.points; lines = add_line fv.lines d }) draws
      (ap (λ p. p +ℤ d.points) t ∙ sym (line_points-add_line fv.lines d))

add_short-IsTotal :
    (fv : TripFundingView) (short : ℤ) (o : Option TripStay)
    → IsTotal fv
    → IsTotal (add_short fv short o)
unfolding add_short
add_short-IsTotal fv short none t = t
add_short-IsTotal fv short (some st) t = t

funding_stays-IsTotal :
    (stays : List TripStay) (fv : TripFundingView) (fs : List StayFunding)
    → IsTotal fv
    → IsTotal (funding_stays stays fv fs)
unfolding funding_stays
funding_stays-IsTotal stays fv [] t = t
funding_stays-IsTotal stays fv (sf ∷ rest) t = elim (Bool-cases sf.fundable) [
  | inl h ↦
      rw h
        (funding_stays-IsTotal stays (add_draws fv sf.draws) rest (add_draws-IsTotal fv sf.draws t))
  | inr h ↦ rw h (add_short-IsTotal fv sf.short_by (find_stay_by_id stays sf.stay_id) t)
]

-- The points of the lines of a trip's funding section add up to the total that it shows.
pub build_trip_funding_view-lines :
    (preview : TripFundingPreview) (stays : List TripStay)
    → (build_trip_funding_view preview stays).total_points
      ≡ line_points (build_trip_funding_view preview stays).lines
unfolding build_trip_funding_view
build_trip_funding_view-lines preview stays = funding_stays-IsTotal stays _ preview.stays refl
