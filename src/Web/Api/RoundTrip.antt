-- ===== src/Web/Api/RoundTrip.antt =====
-- internal/web/api_handlers.go: what an entry is sent as is read as that entry.
use lineleader.Base.{ℕ, ◌≡◌, sym, ◌∙◌, ap, true, false, some, String, eq_iff, Bool-cases, inl, inr}
use lineleader.Base.Int.{pos, eqb_ℤ}
use lineleader.Calendar.{Time, Calendar}
use lineleader.Ledger.Types.{Entry}
use lineleader.Web.Api.{accepted, entry_dto_from, is_blank, to_entry, valid_entry_kind}

-- The entry as its row: without what a listing reckons.
abbrev pub row_of : Entry → Entry
row_of e = record e {
  running_balance = pos 0;
  cost = pos 0;
  cost_known = false;
  cost_projected = false;
}

pub blank_kind : (k : String) → valid_entry_kind k ≡ true → is_blank k ≡ false
unfolding valid_entry_kind
blank_kind k h = elim (Bool-cases (is_blank k)) [
  | inl e ↦ absurd (false_true (sym (ap valid_entry_kind ((eq_iff k "").0 e)) ∙ h))
  | inr e ↦ e
]
  where
    false_true : valid_entry_kind "" ≡ true → ⊥
    false_true h = cc

module _ (cal : Calendar) (format_day : Time → String) (month_name : ℕ → String) where
  -- The fields of a response, sent back as a request under the same id, mean the entry they were
  -- made from, without the figures of the listing: where a printed day is not empty and is read as
  -- that day, for an entry with a description, a known kind and a use year that is not 0.
  pub to_entry-entry_dto_from :
      (e : Entry)
      → ((t : Time) → cal.parse_day (format_day t) ≡ some t)
      → is_blank (format_day e.date) ≡ false
      → is_blank e.desc ≡ false
      → valid_entry_kind e.kind ≡ true
      → eqb_ℤ e.use_year (pos 0) ≡ false
      → to_entry cal format_day month_name (entry_dto_from cal format_day month_name e).fields e.id
        ≡ accepted (row_of e)
  unfolding to_entry entry_dto_from
  to_entry-entry_dto_from e undo day desc kind year =
      cc (day, undo e.date, desc, kind, blank_kind e.kind kind, year)
