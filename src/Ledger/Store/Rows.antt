-- ===== src/Ledger/Store/Rows.antt =====
-- internal/ledger/migrations: the tables, the errors of the methods, and the monad of a method.
use mathlib.Core.Path.{◌≡◌, ap}
use lineleader.Base.{◌<◌, arith, ℕ, ◌+◌, ◌-◌, ◌%◌, ◌^◌, Bool, true, false, List, ltb, if◌then◌else◌}
use lineleader.Base.Int.{ℤ, pos, negsuc, ◌≤ℤ◌, ◌<ℤ◌, pos_part, neg_part, sub_ℕ}
use lineleader.Ledger.Types.{Contract, Entry, DuesRate, Trip, TripStay}

-- A row of trip_stay_entry.
pub record Link : Type 0 where
  pub trip_stay_id : ℕ
  pub entry_id : ℕ

-- The columns that the domain types derive (running balance, cost, linked entries) are zero in
-- the rows of a table.
pub record Db : Type 0 where
  pub contracts : List Contract
  pub entries : List Entry
  pub dues : List DuesRate
  pub trips : List Trip
  pub stays : List TripStay
  pub links : List Link
  pub next_contract : ℕ
  pub next_entry : ℕ
  pub next_trip : ℕ
  pub next_stay : ℕ

-- `check_violation` is a CHECK of the schema, `foreign_key_violation` a REFERENCES of it, and
-- `serialization_failure` is SQLSTATE 40001.
pub data Error : Type 0 where
  insufficient_points trip_not_found check_violation serialization_failure : Error
  foreign_key_violation : Error
  invalid_rate invalid_use_year : Error
  import_invalid import_no_entries import_entry_not_found import_entry_not_usage : Error
  import_entry_linked import_duplicate_entry import_points_mismatch : Error
  status_bad_request status_conflict : Error

pub data Result {ℓ} (A : Type ℓ) : Type ℓ where
  ok : A → Result A
  err : Error → Result A

abbrev pub Action : Type 0 → Type 0
Action A = Db → Result (A × Db)

abbrev pub pure : {A : Type 0} → A → Action A
pure a db = ok (a, db)

abbrev pub raise : {A : Type 0} → Error → Action A
raise e db = err e

infixl 5 ◌>>=◌ ◌>>◌
abbrev pub ◌>>=◌ : {A B : Type 0} → Action A → (A → Action B) → Action B
◌>>=◌ m f db = elim (m db) [ ok (a, db') ↦ f a db' | err e ↦ err e ]

-- A step that succeeds hands its result and its tables to the next one.
pub >>=-ok :
    {A B : Type 0} (m : Action A) (f : A → Action B) (db : Db) {a : A} {db' : Db}
    → m db ≡ ok (a, db')
    → (m >>= f) db ≡ f a db'
>>=-ok {A} {B} m f db e =
    ap
      (λ (r : Result (A × Db)).
        let next : Result (B × Db) = elim r [ ok (a, d) ↦ f a d | err x ↦ err x ] in next)
      e

abbrev pub ◌>>◌ : {B : Type 0} → Action (Unit {0}) → Action B → Action B
m >> k = m >>= λ _. k

abbrev pub gets : {A : Type 0} → (Db → A) → Action A
gets f db = ok (f db, db)

abbrev pub modify : (Db → Db) → Action (Unit {0})
modify f db = ok (tt, f db)

abbrev pub raise_if : Bool → Error → Action (Unit {0})
raise_if true e = raise e
raise_if false e = pure tt

-- The conversion `int32(x)`.
unfoldable pub to_int32 : ℤ → ℤ
to_int32 z =
    let u = (pos_part z % 2 ^ 32 + (2 ^ 32 - neg_part z % 2 ^ 32)) % 2 ^ 32 in
    if ltb u (2 ^ 31) then pos u else sub_ℕ u (2 ^ 32)

-- The value fits a column of type INTEGER.
abbrev pub InInt32 : ℤ → Type 0
InInt32 z = to_int32 z ≡ z

to_int32_bound : (z : ℤ) → to_int32 z <ℤ pos (2 ^ 31)
unfolding to_int32
to_int32_bound z = grind arith

to_int32_small : (n : ℕ) → n < 2 ^ 31 → to_int32 (pos n) ≡ pos n
unfolding to_int32
to_int32_small n h = ground arith

-- What lies between zero and a value that fits does fit.
pub InInt32-between : (d p : ℤ) → pos 0 ≤ℤ d → d ≤ℤ p → InInt32 p → InInt32 d
InInt32-between (pos n) p k l h = to_int32_small n (omega (arith, rw h at (to_int32_bound p)))
InInt32-between (negsuc n) p k l h = absurd (omega arith)
