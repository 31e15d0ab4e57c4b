-- ===== src/Web/Trips/Handlers/Pricing.antt =====
-- internal/web/handlers.go: the trip pages keep the cached pricing that of the ledger.
use lineleader.Base.{
  ℕ, ◌≡◌, inl, inr, refl, sym, ◌∙◌, Bool, true, false, ◌&&◌, Option, none, some, String, arith,
  Bool-cases, if◌then◌else◌,
}
use lineleader.Base.Int.{ℤ, ◌-ℤ◌, ltb_ℤ}
use lineleader.Base.Text.{codes, parse_int}
use lineleader.Dvc.Search.{Found}
use lineleader.Ledger.Booking.{book_trip}
use lineleader.Ledger.Cost.{cost_basis}
use lineleader.Ledger.Store.Queries.{add_trip, delete_entries, get_trip, update_trip}
use lineleader.Ledger.Store.Rows.{Db, Error, Result, err, modify, ok, trip_not_found}
use lineleader.Ledger.Store.Stays.{add_stay, delete_stay, delete_trip, delete_trip_row, unbook_trip}
use lineleader.Ledger.Types.{Trip, TripStay}
use lineleader.Web.Costs.{CostProvider, basis, cost_basis_ttl, invalidate, refresh}
use lineleader.Web.LedgerForms.{Desk, Form, if_parsed, path_id}
use lineleader.Web.LedgerForms.Pricing.{IsPriced, KeepsPrices, cost_basis-SamePrices}
use lineleader.Web.Trips.Forms.{
  Read, TripError, invalid, parse_budget_override, parse_trip_form, valid,
}
use lineleader.Web.Trips.Handlers.{
  Process, TripReply, TripView, add_found, bad_request, book, build_trip_page_view, carried,
  clear_budget_override, collect_stay, create_trip, trip_created, edit_trip, fetch_basis, fetched,
  forget_pricing, if_read, page_results, remove_stay, remove_trip, render_trip_fragment,
  render_trip_list, render_view, result_row, saved, set_budget_override, stay_from, unbook,
  with_trip,
}

-- The replies after which the cached pricing, if it is valid, is that of the ledger.
abbrev pub LeavesPriced : TripReply × Desk → Type 0
LeavesPriced r = IsPriced r.1

if_parsed-LeavesPriced :
    {A : Type 0} (o : Option A) (b : TripReply × Desk) (f : A → TripReply × Desk)
    → LeavesPriced b
    → ((a : A) → LeavesPriced (f a))
    → LeavesPriced (if_parsed o b f)
unfolding if_parsed
if_parsed-LeavesPriced none b f h k = h
if_parsed-LeavesPriced (some a) b f h k = k a

if_read-LeavesPriced :
    {A : Type 0} (r : Read A) (g : TripError → TripReply × Desk) (f : A → TripReply × Desk)
    → ((e : TripError) → LeavesPriced (g e))
    → ((a : A) → LeavesPriced (f a))
    → LeavesPriced (if_read r g f)
unfolding if_read
if_read-LeavesPriced (invalid e) g f h k = h e
if_read-LeavesPriced (valid a) g f h k = k a

fetched-LeavesPriced :
    (d : Desk) (r : Result (Trip × Db)) (f : Trip → TripReply × Desk)
    → IsPriced d
    → ((t : Trip) → LeavesPriced (f t))
    → LeavesPriced (fetched d r f)
unfolding fetched
fetched-LeavesPriced d (ok (t, db)) f p h = h t
fetched-LeavesPriced d (err e) f p h = by_error e
  where
    by_error : (e : Error) → LeavesPriced (fetched d (err e) f)
    by_error trip_not_found = p
    by_error e = p

with_trip-LeavesPriced :
    (d : Desk) (id : ℕ) (f : Trip → TripReply × Desk)
    → IsPriced d
    → ((t : Trip) → LeavesPriced (f t))
    → LeavesPriced (with_trip id f d)
unfolding with_trip
with_trip-LeavesPriced d id f = fetched-LeavesPriced d (get_trip id d.tables) f

-- A statement that leaves the contracts and the dues, and what follows it.
saved-LeavesPriced :
    {A : Type 0} (d : Desk) (r : Result (A × Db)) (f : A → Desk → TripReply × Desk)
    → IsPriced d
    → KeepsPrices d.tables r
    → ((a : A) (d' : Desk) → IsPriced d' → LeavesPriced (f a d'))
    → LeavesPriced (saved d r f)
unfolding saved
saved-LeavesPriced d (err e) f p k h = p
saved-LeavesPriced d (ok (a, db)) f p k h =
    h a (record d { tables = db }) λ v. p v ∙ sym (cost_basis-SamePrices d.tables db k)

-- A statement after which the pricing is forgotten.
saved-LeavesPriced_forget :
    {A : Type 0} (d : Desk) (r : Result (A × Db)) (f : Desk → TripReply × Desk)
    → IsPriced d
    → ((d' : Desk) → IsPriced d' → LeavesPriced (f d'))
    → LeavesPriced (saved d r λ a d'. f (forget_pricing d'))
unfolding saved forget_pricing invalidate
saved-LeavesPriced_forget d (err e) f p h = p
saved-LeavesPriced_forget d (ok (a, db)) f p h =
    h (forget_pricing (record d { tables = db })) λ v. absurd (no_longer v)
  where
    no_longer : false ≡ true → ⊥
    no_longer v = cc

KeepsPrices-if :
    {A : Type 0} (b : Bool) (db : Db) (r s : Result (A × Db))
    → KeepsPrices db r
    → KeepsPrices db s
    → KeepsPrices db (if b then r else s)
KeepsPrices-if true db r s h k = h
KeepsPrices-if false db r s h k = k

update_trip-KeepsPrices : (t : Trip) (db : Db) → KeepsPrices db (update_trip t db)
unfolding update_trip
update_trip-KeepsPrices t db = ground arith

add_trip-KeepsPrices : (t : Trip) (db : Db) → KeepsPrices db (add_trip t db)
unfolding add_trip
add_trip-KeepsPrices t db = ground arith

add_stay-KeepsPrices : (st : TripStay) (db : Db) → KeepsPrices db (add_stay st db)
unfolding add_stay
add_stay-KeepsPrices st db = ground arith

basis-cached :
    {A : Type 0} (empty b : A) (now later : ℤ) (p : CostProvider A)
    → (p.valid ≡ true → p.cached ≡ b)
    → (basis empty now (some b) later p).1.valid ≡ true
    → (basis empty now (some b) later p).1.cached ≡ b
unfolding basis refresh
basis-cached empty b now later p h =
    elim (Bool-cases (p.valid && ltb_ℤ (now -ℤ p.fetched_at) cost_basis_ttl)) [
      | inl e ↦ rw e h
      | inr e ↦ rw e (λ v. refl)
    ]

-- The requests of the trip pages: the path values and the form. A removal says whether it is htmx's.
pub data TripRequest : Type 0 where
  get_trips : TripRequest
  get_page : String → TripRequest
  post_trip : Option Form → TripRequest
  post_edit : String → Option Form → TripRequest
  post_stay : String → String → TripRequest
  delete_stay_row : String → String → TripRequest
  post_book post_unbook : String → TripRequest
  post_budget : String → Option Form → TripRequest
  delete_budget : String → TripRequest
  delete_trip_page : String → Bool → TripRequest

module _ (s : Process) where
  -- `tripPage`
  unfoldable pub show_trip : String → Desk → TripReply × Desk
  show_trip path d = if_parsed (path_id path) (bad_request, d) λ id. render_trip_fragment s id d

  -- The handler of each route of the trip pages.
  unfoldable pub trip_serve : TripRequest → Desk → TripReply × Desk
  trip_serve get_trips = render_trip_list s none
  trip_serve (get_page p) = show_trip p
  trip_serve (post_trip f) = create_trip s f
  trip_serve (post_edit p f) = edit_trip s p f
  trip_serve (post_stay p r) = collect_stay s p r
  trip_serve (delete_stay_row p r) = remove_stay s p r
  trip_serve (post_book p) = book s p
  trip_serve (post_unbook p) = unbook s p
  trip_serve (post_budget p f) = set_budget_override s p f
  trip_serve (delete_budget p) = clear_budget_override s p
  trip_serve (delete_trip_page p hx) = remove_trip s p hx

  fetch_basis-IsPriced : (d : Desk) → IsPriced d → IsPriced (fetch_basis s d).1
  unfolding fetch_basis
  fetch_basis-IsPriced d p = basis-cached s.empty (cost_basis d.tables) s.now s.later d.costs p

  render_view-LeavesPriced :
      (e : Option TripError) (v : Option TripView × Desk)
      → IsPriced v.1
      → LeavesPriced (render_view s e v)
  unfolding render_view
  render_view-LeavesPriced e (none, d) p = p
  render_view-LeavesPriced e (some view, d) p = p

  page-LeavesPriced :
      (e : Option TripError) (t : Trip) (d : Desk)
      → IsPriced d
      → LeavesPriced (render_view s e (build_trip_page_view s t d))
  unfolding build_trip_page_view
  page-LeavesPriced e t d p =
      render_view-LeavesPriced e (build_trip_page_view s t d) (fetch_basis-IsPriced d p)

  fragment-LeavesPriced :
      (id : ℕ) (d : Desk) → IsPriced d → LeavesPriced (render_trip_fragment s id d)
  unfolding render_trip_fragment
  fragment-LeavesPriced id d p = with_trip-LeavesPriced d id _ p λ t. page-LeavesPriced none t d p

  -- A statement on a trip or a stay, with the page that follows.
  updated-LeavesPriced :
      {A : Type 0} (id : ℕ) (d : Desk) (r : Result (A × Db))
      → IsPriced d
      → KeepsPrices d.tables r
      → LeavesPriced (saved d r λ u d'. render_trip_fragment s id d')
  updated-LeavesPriced id d r p k =
      saved-LeavesPriced d r _ p k λ u d' p'. fragment-LeavesPriced id d' p'

  forgotten-LeavesPriced :
      {A : Type 0} (id : ℕ) (d : Desk) (r : Result (A × Db))
      → IsPriced d
      → LeavesPriced (saved d r λ u d'. render_trip_fragment s id (forget_pricing d'))
  forgotten-LeavesPriced id d r p =
      saved-LeavesPriced_forget d r (render_trip_fragment s id) p
        λ d' p'. fragment-LeavesPriced id d' p'

  -- What a handler does behind the id of the trip.
  on_trip-LeavesPriced :
      (path : String) (d : Desk) (f : ℕ → Trip → TripReply × Desk)
      → IsPriced d
      → ((id : ℕ) (t : Trip) → LeavesPriced (f id t))
      → LeavesPriced (if_parsed (path_id path) (bad_request, d) λ id. with_trip id (f id) d)
  on_trip-LeavesPriced path d f p h =
      if_parsed-LeavesPriced (path_id path) (bad_request, d) _ p
        λ id. with_trip-LeavesPriced d id (f id) p (h id)

  trip_created-LeavesPriced :
      (d : Desk) (r : Result (ℕ × Db))
      → IsPriced d
      → KeepsPrices d.tables r
      → LeavesPriced (trip_created s d r)
  unfolding trip_created render_trip_list
  trip_created-LeavesPriced d (err e) p k = fetch_basis-IsPriced d p
  trip_created-LeavesPriced d (ok (id, db)) p k =
      λ v. p v ∙ sym (cost_basis-SamePrices d.tables db k)

  add_found-LeavesPriced :
      (id : ℕ) (row : Option ℤ) (d : Desk) (found : Found)
      → IsPriced d
      → LeavesPriced (add_found s id row d found)
  unfolding add_found
  add_found-LeavesPriced id row d none p = p
  add_found-LeavesPriced id row d (some results) p =
      if_parsed-LeavesPriced (result_row results row) (bad_request, d) _ p
        λ res.
          updated-LeavesPriced id d (add_stay (stay_from id res) d.tables) p
            (add_stay-KeepsPrices (stay_from id res) d.tables)

  pub trip_serve-LeavesPriced :
      (req : TripRequest) (d : Desk) → IsPriced d → LeavesPriced (trip_serve req d)
  unfolding trip_serve render_trip_list show_trip create_trip edit_trip collect_stay remove_stay
      book unbook set_budget_override clear_budget_override remove_trip delete_trip delete_entries
      delete_trip_row
  trip_serve-LeavesPriced get_trips d p = fetch_basis-IsPriced d p
  trip_serve-LeavesPriced (get_page path) d p =
      if_parsed-LeavesPriced (path_id path) (bad_request, d) _ p λ id. fragment-LeavesPriced id d p
  trip_serve-LeavesPriced (post_trip f) d p =
      if_read-LeavesPriced (parse_trip_form s.parse_layout f) _ _ (λ e. fetch_basis-IsPriced d p)
        λ t. trip_created-LeavesPriced d (add_trip t d.tables) p (add_trip-KeepsPrices t d.tables)
  trip_serve-LeavesPriced (post_edit path f) d p = on_trip-LeavesPriced path d _ p λ id t.
      if_read-LeavesPriced (parse_trip_form s.parse_layout f) _ _
        (λ e. page-LeavesPriced (some e) t d p)
        λ edited.
          updated-LeavesPriced id d (update_trip (carried t edited) d.tables) p
            (update_trip-KeepsPrices (carried t edited) d.tables)
  trip_serve-LeavesPriced (post_stay path row) d p =
      on_trip-LeavesPriced path d _ p
        λ id t. add_found-LeavesPriced id (parse_int (codes row)) d (page_results s d.tables t) p
  trip_serve-LeavesPriced (delete_stay_row path stay) d p =
      if_parsed-LeavesPriced (path_id path) (bad_request, d) _ p
        λ id.
          if_parsed-LeavesPriced (path_id stay) (bad_request, d) _ p
            λ sid. forgotten-LeavesPriced id d (modify (delete_stay sid) d.tables) p
  trip_serve-LeavesPriced (post_book path) d p = on_trip-LeavesPriced path d _ p λ id t.
      forgotten-LeavesPriced id d (book_trip s.cal (λ n. d.tables) s.conflict id s.attempts 0) p
  trip_serve-LeavesPriced (post_unbook path) d p =
      on_trip-LeavesPriced path d _ p
        λ id t. forgotten-LeavesPriced id d (modify (unbook_trip id) d.tables) p
  trip_serve-LeavesPriced (post_budget path f) d p = on_trip-LeavesPriced path d _ p λ id t.
      if_read-LeavesPriced (parse_budget_override f) _ _ (λ e. page-LeavesPriced (some e) t d p)
        λ v.
          updated-LeavesPriced id d (update_trip (record t { budget_override = some v }) d.tables) p
            (update_trip-KeepsPrices (record t { budget_override = some v }) d.tables)
  trip_serve-LeavesPriced (delete_budget path) d p = on_trip-LeavesPriced path d _ p λ id t.
      updated-LeavesPriced id d (update_trip (record t { budget_override = none }) d.tables) p
        (update_trip-KeepsPrices (record t { budget_override = none }) d.tables)
  trip_serve-LeavesPriced (delete_trip_page path hx) d p =
      if_parsed-LeavesPriced (path_id path) (bad_request, d) _ p
        λ id. saved-LeavesPriced d (modify (delete_trip id) d.tables) _ p (refl, refl) λ u d' p'. p'
