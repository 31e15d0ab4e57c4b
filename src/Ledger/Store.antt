-- ===== src/Ledger/Store.antt =====
-- The database under internal/ledger: the tables of internal/ledger/migrations with the
-- statements of internal/ledger/queries, and the methods of `Store` over them (store.go,
-- entries.go, dues.go, trip.go). A method is a function of the tables; an error gives back no
-- tables, which is what a rolled-back transaction and a failed statement leave. Ids come from a
-- counter for each table, as identity columns do. A date column holds the day number, and a JSON
-- column the list that it encodes. Not modelled: failures of the connection, and violations of a
-- foreign key but that of a stay to its trip and those of `AddEntry` and `UpdateEntry` to a contract.
pub mod Rows
pub mod Queries
pub mod Stays
pub mod Unbooking
pub mod Snapshots
pub mod Balance
