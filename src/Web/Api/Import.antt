-- ===== src/Web/Api/Import.antt =====
-- internal/web/api_handlers.go: the import of a trip that was booked by hand.
use lineleader.Base.{ℕ, ◌==◌, ◌||◌, Option, none, List, [], ◌∷◌, String, ltb, length, if◌then◌else◌}
use lineleader.Base.Int.{ℤ, pos, ◌-ℤ◌, eqb_ℤ}
use lineleader.Calendar.{Time, Calendar}
use lineleader.Ledger.Import.{ImportedStay, import_booked_trip}
use lineleader.Ledger.Store.Rows.{
  Db, Error, Result, err, import_duplicate_entry, import_entry_linked, import_entry_not_found,
  import_entry_not_usage, import_invalid, import_no_entries, import_points_mismatch, ok,
}
use lineleader.Ledger.Types.{Trip}
use lineleader.Web.Api.{
  ApiError, Reply, Validated, accepted, answered, error_body, id_body, invalid_check_in,
  invalid_check_out, invalid_end_date, invalid_json, invalid_start_date, is_blank, name_required,
  or_refuse, refuse_if, reply, stay_required, store_failed, ◌>>=◌,
}

-- `importStayRequestDTO` and `importTripRequestDTO`
pub record ImportStayRequestDto : Type 0 where
  pub resort : String
  pub room_type : String
  pub view : String
  pub check_in : String
  pub check_out : String
  pub points : ℤ
  pub entry_ids : List ℕ

pub record ImportTripRequestDto : Type 0 where
  pub name : String
  pub start_date : String
  pub end_date : String
  pub min_nights : ℤ
  pub stays : List ImportStayRequestDto

-- What the loop over the stays has built: `minIn`, `maxOut` and the stays. The zero time is 0.
pub record Import : Type 0 where
  pub min_in : Time
  pub max_out : Time
  pub stays : List ImportedStay

-- The errors of `ImportBookedTrip` that the request is to blame for.
unfoldable pub import_status : Error → ℕ
import_status import_invalid = 400
import_status import_no_entries = 400
import_status import_entry_not_found = 400
import_status import_entry_not_usage = 400
import_status import_entry_linked = 400
import_status import_duplicate_entry = 400
import_status import_points_mismatch = 400
import_status e = 500

unfoldable pub imported : Db → Result (ℕ × Db) → Reply × Db
imported db (err e) = (reply (import_status e) (error_body (store_failed e)), db)
imported db (ok (id, db')) = (reply 201 (id_body id), db')

module _ (cal : Calendar) where
  -- The stay that a request describes. A `Duration` holds the difference of two days that are less
  -- than 292 years apart.
  unfoldable pub imported_stay : ImportStayRequestDto → Time → Time → ImportedStay
  imported_stay s check_in check_out = record {
    stay = record {
      id = 0;
      trip_id = 0;
      resort = s.resort;
      room_type = s.room_type;
      view = s.view;
      check_in = check_in;
      check_out = check_out;
      nights = pos check_out -ℤ pos check_in;
      points = s.points;
      quote_hash = "";
      entry_ids = [];
      entry_points = pos 0;
    };
    entry_ids = s.entry_ids;
  }

  -- The loop over the stays, which starts with the two bounds so far.
  unfoldable pub read_stays : List ImportStayRequestDto → Time → Time → Validated Import
  read_stays [] min_in max_out =
      accepted (record { min_in = min_in; max_out = max_out; stays = [] })
  read_stays (s ∷ rest) min_in max_out = do
    check_in ← or_refuse invalid_check_in (cal.parse_day s.check_in)
    check_out ← or_refuse invalid_check_out (cal.parse_day s.check_out)
    read ←
        read_stays rest (if (min_in == 0) || ltb check_in min_in then check_in else min_in)
          (if ltb max_out check_out then check_out else max_out)
    accepted (record read { stays = imported_stay s check_in check_out ∷ read.stays })

  -- A date of the trip: the given one, or the one reckoned from the stays.
  unfoldable pub date_or : ApiError → String → Time → Validated Time
  date_or e s t = if is_blank s then accepted t else or_refuse e (cal.parse_day s)

  -- `importTrip` up to the call of the store.
  unfoldable pub read_import : ImportTripRequestDto → Validated (Trip × List ImportedStay)
  read_import dto = do
    named ← refuse_if (is_blank dto.name) name_required
    stayed ← refuse_if (length dto.stays == 0) stay_required
    read ← read_stays dto.stays 0 0
    start ← date_or invalid_start_date dto.start_date read.min_in
    last ← date_or invalid_end_date dto.end_date read.max_out
    accepted (
      record {
        id = 0;
        name = dto.name;
        start_date = start;
        end_date = last;
        min_nights = if eqb_ℤ dto.min_nights (pos 0) then pos 1 else dto.min_nights;
        budget_override = none;
        filter_mode = "";
        exclude_resorts = [];
        exclude_room_types = [];
      },
      read.stays,
    )

  -- `importTrip`
  unfoldable pub import_trip : Option ImportTripRequestDto → Db → Reply × Db
  import_trip body =
      answered (or_refuse invalid_json body >>= read_import)
        λ p db. imported db (import_booked_trip p.0 p.1 db)
