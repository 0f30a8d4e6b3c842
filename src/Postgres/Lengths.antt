-- ===== src/Postgres/Lengths.antt =====
-- The ids of transactions in the columns of client/migrations/001_create_orders_and_payments.sql.
use Prim.Native.String.{◌++◌, count}
use text.Mathlib.TextLemmas.{length-append}
use system_design_homework.Prelude.{◌≤◌, String, ◌≡◌, true, arith}
use system_design_homework.Postgres.Tables.{is_varchar}

-- What stands before the id of an order in the id of a transaction has at most 11 characters.
pub prefixed-is_varchar :
    (s id : String) → count s ≤ 11 → count id ≤ 244 → is_varchar (s ++ id) ≡ true
unfolding is_varchar
prefixed-is_varchar s id short fits =
    let le : count (s ++ id) ≤ 255 = omega (arith, length-append s id) in ground arith

pub short-is_varchar : (id : String) → count id ≤ 244 → is_varchar id ≡ true
unfolding is_varchar
short-is_varchar id fits = let le : count id ≤ 255 = omega arith in ground arith
