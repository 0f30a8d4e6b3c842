-- ===== src/StandIn/Served.antt =====
-- What the stand-in service serves, and what it logs.
use Prim.Native.String.{◌++◌, len, slice}
use system_design_homework.Prelude.{
  ℕ, String, ◌≡◌, ◌⊎◌, true, List, [], ◌∷◌, ◌==◌, ltb, if◌then◌else◌,
}
use system_design_homework.Result.{Result, ok, err}
use system_design_homework.Program.Every.{Every}
use system_design_homework.Startup.{Exit, fatal, returned}
use system_design_homework.Logger.{Op, write_header, write, Request}
use system_design_homework.Logger.Through.{in_order, sent_status, sets_once}
use system_design_homework.Mock.{Storage, Files}
use system_design_homework.StandIn.{
  Handler, Call, getenv, listen_and_serve, Reply, new_server, routed,
}

-- The text that the writes send, behind another.
abbrev pub sent_body : String → List Op → String
sent_body s [] = s
sent_body s (write_header code ∷ ops) = sent_body s ops
sent_body s (write b ∷ ops) = sent_body (s ++ b) ops

-- A handler is answered for as it is, and its entry tells what was sent.
abbrev pub Passes : Handler → (Request → List Op) → Type 0
Passes handler next =
    (r : Request) (duration : ℕ)
    → let out = handler r duration in
      let text = sent_body "" (next r) in
      (in_order out.0.passed [] ≡ next r)
      × ((out.1.path ≡ r.path)
          × ((out.1.response
                ≡ (if ltb 2000 (len text) then slice text 0 2000 ++ "...(truncated)" else text))
              × (sets_once (next r) ≡ true → out.1.status ≡ sent_status (next r))))

-- The environment's PORT, and the servers asked for, newest first.
pub record Notes : Type 0 where
  pub port : String
  pub servers : List (String × Handler)

abbrev pub note : (c : Call) → Reply c → Notes → Notes
note (getenv key) value n = if key == "PORT" then record n { port = value } else n
note (listen_and_serve addr handler) r n = record n { servers = (addr, handler) ∷ n.servers }

abbrev pub fresh : Notes
fresh = record { port = ""; servers = [] }

module _ {F : Type 0} (routes : Storage F → Request → List Op) (files : Files F) where
  -- One server, on the storage that was loaded.
  abbrev pub Served : Notes → Type 0
  Served n =
      (s : Storage F) × ((handler : Handler) × ((new_server files ≡ ok s)
          × ((n.servers ≡ (":" ++ (if n.port == "" then "8081" else n.port), handler) ∷ [])
              × Passes handler (routed routes s))))

  abbrev pub Ends : Exit → Notes → Type 0
  Ends (fatal text e) n =
      ((text ≡ "Failed to initialize server") × ((new_server files ≡ err e) × (n.servers ≡ [])))
      ⊎ ((text ≡ "Failed to start server") × Served n)
  Ends returned n = Served n
