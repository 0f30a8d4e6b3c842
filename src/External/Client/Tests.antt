-- ===== src/External/Client/Tests.antt =====
-- The theorem on the external client at a concrete input.
use system_design_homework.Prelude.{◌≡◌, some, none, ℕ, true, false}
use system_design_homework.Prelude.Int.{pos}
use system_design_homework.Result.{is_ok, ok, err, message}
use system_design_homework.Program.{run}
use system_design_homework.External.{PaymentHoldRequest}
use system_design_homework.External.Client.{
  MoneyBody, hold_money_for_order, charge_money_for_order, unhold_money_for_order, Request, Reply,
  get_scooter_data, get_tariff_zone_data, get_user_profile, get_configs,
}
use system_design_homework.External.Client.Laws.{
  Decides, is_accepted, payments-Decide, Tells, TellsConfigs, lookups-Tell,
}

-- A scooter is there, its zone is not, and the profile cannot be had.
abbrev site : (c : Request) → Unit {0} → Reply ℕ c × Unit {0}
site (Request.post_hold_money_for_order b) w =
    (ok (record { status = 200; is_json = true; body = ok ("tx-1", true) }), w)
site (Request.post_clear_money_for_order b) w =
    (ok (record { status = 200; is_json = true; body = ok tt }), w)
site (Request.post_unhold_money_for_order b) w =
    (ok (record { status = 200; is_json = true; body = ok tt }), w)
site (Request.get_scooter_data_with_response id) w = (
  ok (record {
    status = 200;
    is_json = true;
    body = ok (record { charge = pos 10; id = "s1"; zone_id = "z1" });
  }),
  w,
)
site (Request.get_tariff_zone_data_with_response id) w =
    (ok (record { status = 404; is_json = false; body = err (message "EOF") }), w)
site (Request.get_user_profile_with_response id) w = (err (message "timeout"), w)
site Request.get_configs_with_response w =
    (ok (record { status = 200; is_json = true; body = ok (λ k. none) }), w)

lookups-Tell_example :
    Tells
      (site (Request.get_scooter_data_with_response "s1") tt).0
      (run site (get_scooter_data "s1") tt).0
    × Tells
        (site (Request.get_tariff_zone_data_with_response "s1") tt).0
        (run site (get_tariff_zone_data "s1") tt).0
    × Tells
        (site (Request.get_user_profile_with_response "s1") tt).0
        (run site (get_user_profile "s1") tt).0
    × TellsConfigs
        (λ n. pos n)
        12
        7
        (site Request.get_configs_with_response tt).0
        (run site (get_configs (λ n. pos n) 12 7) tt).0
lookups-Tell_example = lookups-Tell ℕ site (λ n. pos n) 12 7 "s1" tt

abbrev hold_1 : PaymentHoldRequest
hold_1 = record { user_id = "u1"; order_id = "order-1"; amount = pos 200 }

payments-Decide_example :
    let hold : MoneyBody = record {
      user_id = some "u1";
      order_id = some "order-1";
      amount = some (pos 200);
    } in
    let charge : MoneyBody = record {
      user_id = some "";
      order_id = some "order-1";
      amount = some (pos 37);
    } in
    let release : MoneyBody = record {
      user_id = some "";
      order_id = some "order-1";
      amount = none;
    } in
    Decides
      (site (Request.post_hold_money_for_order hold) tt).0
      (run site (hold_money_for_order hold_1) tt).0
    × (is_ok (run site (charge_money_for_order "order-1" (pos 37)) tt).0
        ≡ is_accepted (site (Request.post_clear_money_for_order charge) tt).0)
    × (is_ok (run site (unhold_money_for_order "order-1") tt).0
        ≡ is_accepted (site (Request.post_unhold_money_for_order release) tt).0)
payments-Decide_example = payments-Decide ℕ site hold_1 "order-1" (pos 37) tt
