-- ===== src/Ledger/Cost.antt =====
-- internal/ledger/cost.go: what points cost.
pub mod Prices
use lineleader.Base.{
  ℕ, zero, suc, ◌+◌, Bool, true, false, not, ◌&&◌, ◌||◌, Option, none, some, List, [], ◌∷◌, map,
  foldl, length, leb, ltb, ◌==◌, if◌then◌else◌,
}
use lineleader.Base.Int.{ℤ, pos, negsuc, ◌+ℤ◌, ◌-ℤ◌, ltb_ℤ, leb_ℤ, eqb_ℤ}
use lineleader.Base.Sort.{sort_slice}
use lineleader.Ledger.Types.{Contract, DuesRate, Entry, UseYearSummary, use_year_start_month}
use lineleader.Ledger.Store.Rows.{Db}
use lineleader.Ledger.Store.Queries.{list_contracts, list_dues_rates}
use lineleader.Ledger.Money.{mul_int64, add_int64, micros_per_cent, div_round, point_cost}

-- `duesGrowthBase`
abbrev pub dues_growth_base : ℤ
dues_growth_base = pos 1000000

-- The map `dues` is a list of rates with one for each of its years.
pub record CostBasis : Type 0 where
  pub rates : ℕ → Option ℤ
  pub blended : ℤ
  pub has_rate : Bool
  pub dues : List DuesRate
  pub first_year : ℤ
  pub last_year : ℤ
  pub growth_micros : ℤ
  pub has_dues : Bool
  pub use_year_month : ℕ

-- `Contract.PricePerPointYear`
unfoldable pub price_per_point_year : Contract → Option ℤ
price_per_point_year c =
    if leb_ℤ c.term_years (pos 0)
      || leb_ℤ c.purchase_price (pos 0)
      || ltb_ℤ c.closing_costs (pos 0)
      || leb_ℤ c.annual_points (pos 0)
    then none
    else some (
        div_round (mul_int64 (add_int64 c.purchase_price c.closing_costs) micros_per_cent)
          (mul_int64 c.annual_points c.term_years))

-- Writing and reading the map of dues.
unfoldable pub put_dues : DuesRate → List DuesRate → List DuesRate
put_dues d [] = d ∷ []
put_dues d (x ∷ xs) =
    let rest = put_dues d xs in if eqb_ℤ x.use_year d.use_year then d ∷ xs else x ∷ rest

unfoldable pub dues_at : List DuesRate → ℤ → Option ℤ
dues_at [] y = none
dues_at (x ∷ xs) y = let rest = dues_at xs y in if eqb_ℤ x.use_year y then some x.rate else rest

abbrev pub or_zero : Option ℤ → ℤ
or_zero none = pos 0
or_zero (some x) = x

-- The sums of the first loop of `NewCostBasis`: the rates, the numerator and the denominator.
pub record RateSums : Type 0 where
  pub rates : ℕ → Option ℤ
  pub num : ℤ
  pub den : ℤ

unfoldable pub add_rate : RateSums → Contract → RateSums
add_rate acc c = elim (price_per_point_year c) [
  | none ↦ acc
  | some rate ↦ record {
    rates = λ id. if id == c.id then some rate else acc.rates id;
    num = add_int64 acc.num (mul_int64 c.annual_points rate);
    den = add_int64 acc.den c.annual_points;
  }
]

-- The loop of `NewCostBasis` over the dues.
unfoldable pub add_dues : List DuesRate → DuesRate → List DuesRate
add_dues m d = if leb_ℤ d.rate (pos 0) then m else put_dues d m

-- The loop of `duesGrowth`: the sum and the count of the ratios of adjacent years.
unfoldable pub growth_ratios : List DuesRate → ℤ × ℤ
growth_ratios [] = (pos 0, pos 0)
growth_ratios (a ∷ []) = (pos 0, pos 0)
growth_ratios (a ∷ b ∷ xs) =
    let rest = growth_ratios (b ∷ xs) in
    if eqb_ℤ (b.use_year -ℤ a.use_year) (pos 1)
    then (add_int64 (div_round (mul_int64 b.rate dues_growth_base) a.rate) rest.0, pos 1 +ℤ rest.1)
    else rest

abbrev pub first_of_years : List DuesRate → ℤ
first_of_years [] = pos 0
first_of_years (a ∷ xs) = a.use_year

abbrev pub last_of_years : List DuesRate → ℤ
last_of_years [] = pos 0
last_of_years (a ∷ []) = a.use_year
last_of_years (a ∷ b ∷ xs) = last_of_years (b ∷ xs)

-- The growth that `duesGrowth` returns for a map, its years in ascending order.
unfoldable pub dues_growth : List DuesRate → ℤ
dues_growth sorted =
    let r = growth_ratios sorted in
    if eqb_ℤ r.1 (pos 0) then dues_growth_base else div_round r.0 r.1

-- `NewCostBasis`; the fields that `duesGrowth` sets are zero where there are no dues.
unfoldable pub new_cost_basis : List Contract → List DuesRate → CostBasis
new_cost_basis contracts dues =
    let sums = foldl add_rate (record { rates = λ id. none; num = pos 0; den = pos 0 }) contracts in
    let m = foldl add_dues [] dues in
    let sorted = sort_slice (λ (a b : DuesRate). ltb_ℤ a.use_year b.use_year) m in
    let priced = ltb_ℤ (pos 0) sums.den in
    let known = ltb 0 (length m) in
    record {
      rates = sums.rates;
      blended = if priced then div_round sums.num sums.den else pos 0;
      has_rate = priced;
      dues = m;
      first_year = if known then first_of_years sorted else pos 0;
      last_year = if known then last_of_years sorted else pos 0;
      growth_micros = if known then dues_growth sorted else pos 0;
      has_dues = known;
      use_year_month = use_year_start_month contracts;
    }

-- `CostBasis.Known`
unfoldable pub known : CostBasis → Bool
known b = b.has_rate && b.has_dues

-- `CostBasis.RateFor`
unfoldable pub rate_for : CostBasis → Option ℕ → ℤ
rate_for b none = b.blended
rate_for b (some id) = elim (b.rates id) [ none ↦ b.blended | some rate ↦ rate ]

-- The two loops of `compoundDues`.
unfoldable pub compound_forward : ℕ → ℤ → ℤ → ℤ
compound_forward zero growth rate = rate
compound_forward (suc n) growth rate =
    compound_forward n growth (div_round (mul_int64 rate growth) dues_growth_base)

unfoldable pub compound_backward : ℕ → ℤ → ℤ → ℤ
compound_backward zero growth rate = rate
compound_backward (suc n) growth rate =
    compound_backward n growth (div_round (mul_int64 rate dues_growth_base) growth)

-- `compoundDues`
unfoldable pub compound_dues : CostBasis → ℤ → ℤ → ℤ
compound_dues b base_year steps =
    let rate = or_zero (dues_at b.dues base_year) in
    if leb_ℤ b.growth_micros (pos 0) then rate else elim steps [
      | pos n ↦ compound_forward n b.growth_micros rate
      | negsuc n ↦ compound_backward (suc n) b.growth_micros rate
    ]

-- The loop of `nearestDuesYearBelow` from the year `y` on, for `n` years down to the first.
unfoldable pub nearest_dues_year : CostBasis → ℕ → ℤ → ℤ
nearest_dues_year b zero y = b.first_year
nearest_dues_year b (suc n) y =
    let rest = nearest_dues_year b n (y -ℤ pos 1) in
    elim (dues_at b.dues y) [ none ↦ rest | some rate ↦ y ]

abbrev pub count_of : ℤ → ℕ
count_of (pos n) = n
count_of (negsuc n) = 0

-- `nearestDuesYearBelow`
unfoldable pub nearest_dues_year_below : CostBasis → ℤ → ℤ
nearest_dues_year_below b year =
    nearest_dues_year b (count_of (year -ℤ b.first_year)) (year -ℤ pos 1)

-- `CostBasis.DuesFor` for a year without a stored rate.
unfoldable pub projected_dues : CostBasis → ℤ → ℤ × Bool
projected_dues b year =
    if not b.has_dues
    then (pos 0, false)
    else (if ltb_ℤ b.last_year year
        then (compound_dues b b.last_year (year -ℤ b.last_year), true)
        else (if ltb_ℤ year b.first_year
            then (compound_dues b b.first_year (year -ℤ b.first_year), true)
            else (let below = nearest_dues_year_below b year in
                (compound_dues b below (year -ℤ below), true))))

-- `CostBasis.DuesFor`
unfoldable pub dues_for : CostBasis → ℤ → ℤ × Bool
dues_for b year = elim (dues_at b.dues year) [
  | some rate ↦ (rate, false)
  | none ↦ projected_dues b year
]

-- The results of `CostBasis.Cost`.
pub record Priced : Type 0 where
  pub cost : ℤ
  pub projected : Bool
  pub known : Bool

-- `CostBasis.Cost`
unfoldable pub cost_of : CostBasis → ℤ → ℤ → Option ℕ → Priced
cost_of b points year contract_id =
    let dues = dues_for b year in
    if not (known b) || leb_ℤ points (pos 0)
    then record { cost = pos 0; projected = false; known = false }
    else record {
      cost = point_cost points (rate_for b contract_id) dues.0;
      projected = dues.1;
      known = true;
    }

-- `PriceEntries`
unfoldable pub price_entries : CostBasis → List Entry → List Entry
price_entries b es =
    map
      (λ (e : Entry).
        let p = cost_of b e.used e.use_year e.contract_id in
        record e { cost = p.cost; cost_projected = p.projected; cost_known = p.known })
      es

-- The cost of an entry onto the last row of its use year; `none` if there is no such row.
unfoldable pub add_cost : Entry → List UseYearSummary → Option (List UseYearSummary)
add_cost e [] = none
add_cost e (s ∷ ss) = elim (add_cost e ss) [
  | some ss' ↦ some (s ∷ ss')
  | none ↦
      if eqb_ℤ s.use_year e.use_year
      then some (
          record s {
            cost = add_int64 s.cost e.cost;
            cost_known = true;
            cost_projected = s.cost_projected || e.cost_projected;
          }
          ∷ ss)
      else none
]

-- The body of the loop of `PriceSummaries`.
unfoldable pub price_summary : List UseYearSummary → Entry → List UseYearSummary
price_summary ss e =
    if not e.cost_known then ss else elim (add_cost e ss) [ none ↦ ss | some ss' ↦ ss' ]

-- `PriceSummaries`
unfoldable pub price_summaries : List UseYearSummary → List Entry → List UseYearSummary
price_summaries = foldl price_summary

-- `Store.CostBasis`
unfoldable pub cost_basis : Db → CostBasis
cost_basis db = new_cost_basis (list_contracts db) (list_dues_rates db)
