-- ===== src/Web/Trips.antt =====
-- internal/web/handlers.go: the forms and the handlers of the trip pages. A handler is one step of
-- the tables and of the cached pricing; a page that is rendered is given by its view. A panic of
-- the search ends the request.
pub mod Forms
pub mod Handlers
pub mod Created
