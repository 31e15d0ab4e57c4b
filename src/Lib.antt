-- ===== src/Lib.antt =====
-- A model of the planner of vacation points: the ledger of points, the booking of trips from it,
-- its pricing, the search of point charts, and the decisions of the web layer, with the theorems
-- that make them correct.
--
-- Parts and files. `Ledger/Types` has the domain types of internal/ledger (types.go, and those of
-- allocation.go, trip.go and dues.go). `Ledger/Allocation` is allocation.go: `AllocateStayPoints`
-- is `allocate_stay_points`, its loops are `remaining_of`, `candidates_of` and `draw_down`.
-- `Ledger/Accounting` is trip_accounting.go without its queries: `shortfall` and the previews.
-- `Ledger/Store` has the tables (`Rows`), the statements on contracts, entries, dues and trips
-- (`Queries`: store.go, entries.go, dues.go, trip.go, and the summaries of distribute.go), those
-- on stays and their links (`Stays`), and the reads of `lotSnapshot` (`Snapshots`).
-- `Ledger/Booking` is trip_book.go, `Ledger/Budget` budget.go, `Ledger/Distribute` distribute.go,
-- `Ledger/Money` money.go (`Ledger/Money/Text` its texts), `Ledger/Months` parse.go, `Ledger/Cost`
-- cost.go and `Ledger/Import` trip_import.go. `Dvc/Types`, `Dvc/Search` and `Dvc/Filters` are
-- types.go, search.go and filters.go of internal/dvc, and `Dvc/Parser` parser.go: `Columns` is
-- `parseColumns`, `Seasons` `parseSeasons` and `Layout` `parseLayoutText` and `ParsePDF`. Of
-- internal/web, `Web/Auth` is auth.go, `Web/LedgerForms` ledger_handlers.go, `Web/LedgerViews` the
-- rows and labels of ledger_view.go, `Web/Trips` the forms and the handlers of the trip pages in
-- handlers.go, `Web/Pages` both over one store (server.go), `Web/Api` and `Web/Api/Import`
-- api_handlers.go, `Web/Costs` is costs.go, `Web/Filters` global_filters.go, `Web/TripFilters` the
-- filter handlers of handlers.go, `Web/Panels` the filter panels and the trip list, `Web/Planner`
-- the decisions of render.go and handlers.go, `Web/TripViews` the views of render.go, and
-- `Web/Funding` its funding section with the totals of ledger_view.go. `Client` is
-- internal/ledgerclient, and `Client/Commands` with `Client/Reports` is cmd/dvc/ledger.go. `Base`
-- is shared, `Base/Text` with what the code uses of strings and strconv and `Base/Pattern` of
-- regexp; the modules `Tests` apply the theorems to small data.
--
-- How they interact. A store method is a function of the tables (`Db`) that gives back a result
-- and new tables; an error of a single statement or of a transaction gives back no tables. The
-- distribution is no transaction and gives back the tables as an error leaves them. Booking reads a
-- snapshot of the tables, allocates points for each stay from it, and posts entries and links; the
-- previews make the same decisions and write nothing. The budget of a trip and the running balance are read
-- off the same entries, and the search of a trip takes that budget. A command sends requests
-- through its client; they meet the handlers of the JSON surface.
--
-- Numbers. Points, years and money are integers. A value that is written to an INTEGER column goes
-- through `to_int32`, and products of money through `to_int64`; sums of points are not wrapped,
-- since a column holds 32 bits and an `int` 64. `div_round` stands for operands below 2 ^ 63 in
-- size. Ids are naturals, as they are only compared.
--
-- Bounds and fuel. `extend_stay` runs `MaxNights` rounds, at which the loop stops by its own test.
-- `search_amount` has as many rounds as there are points, and each at least halves what is left.
-- `book_trip` has the attempts of `bookTripAttempts` as an argument. `format_nat` writes up to
-- twenty digits, which is enough for every number below 2 ^ 64. A cell of a header line joins as
-- many runs as the line has characters at most.
--
-- Outside. The `time` package is the record `Calendar`, and `time.Date` an argument of the
-- distribution. `sort.Slice` is a sort by insertion. Locks and isolation change no result of one
-- transaction; the retry of a booking takes as arguments which attempts conflict and what is
-- committed before each. `AddEntry` and `UpdateEntry` check the foreign key of the contract; the
-- entries of a booking and the links are for ids read in the same transaction, and their foreign
-- keys are not checked. An error of the connection is modelled only where the ledger pages are
-- rendered after a request (`readable`). A pattern of regexp gives the places where a match may end, the preferred one first; the parser of charts works on the
-- bytes that a line takes in UTF-8, takes the text of pdftotext as an argument and changes the
-- case of ASCII letters only. The texts that are read and printed are lists of code points;
-- strconv and strings are modelled as far as they are used. HMAC, base64 and the functions of
-- net/url are the record `Primitives`; the printing of dates, `Parse` of a layout and the names of
-- months are arguments. A request is what its handler reads of it, and a reply its status and what
-- is encoded or shown. A handler is one step.
--
-- Not modelled are the wire formats of HTTP and JSON, HTML templates, files, migrations, the
-- generated queries, the hash of a quote, the flags and the layout of the command line, the chart
-- and trip commands, and the programs of the migration and the server: they are I/O or generated.
pub mod Base
pub mod Calendar
pub mod Ledger
pub mod Dvc
pub mod Web
pub mod Client
