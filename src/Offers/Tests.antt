-- ===== src/Offers/Tests.antt =====
-- The theorems on offers at concrete inputs.
use system_design_homework.Prelude.{ℕ, []}
use system_design_homework.Program.{run, watch}
use system_design_homework.Pricing.Hundredths.{hundredths}
use system_design_homework.Offers.Service.{get_zone_with_cache}
use system_design_homework.Offers.Create
use system_design_homework.Offers.Zone
use system_design_homework.Offers.Samples.{town}

get_zone-Served_example :
    let out = run (watch (Zone.note ℕ) town) (get_zone_with_cache hundredths "z1") (tt, []) in
    Zone.Served "z1" out.0 out.1.1
get_zone-Served_example = Zone.get_zone-Served hundredths town "z1" tt
