-- ===== src/Handler.antt =====
-- client/internal/handler: the HTTP handlers, on the services. A response has a status and a body;
-- a body that cannot be written to the connection is not modelled.
pub mod Orders
pub mod Offers
pub mod Created
pub mod Finished
pub mod Loaded
pub mod Offered
pub mod Pool
mod Tests
use system_design_homework.Prelude.{ℕ, String, Option}
use system_design_homework.Api.{Offer, Order}

-- A plain text (`http.Error`), a JSON object `{"error": ...}`, or a value as JSON; a nil order is
-- the JSON `null`.
pub data Body : Type 0 where
  text : String → Body
  error_object : String → Body
  order : Option Order → Body
  offer : Offer → Body

pub record Response : Type 0 where
  pub status : ℕ
  pub body : Body

abbrev pub respond : ℕ → String → Response
respond status message = record { status = status; body = text message }
