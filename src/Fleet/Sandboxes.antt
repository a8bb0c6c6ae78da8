-- ===== src/Fleet/Sandboxes.antt =====
-- How a run of a fleet leaves its sandbox, about `fleet.py`.
use mcp_contract.Base.{ℕ, ◌≡◌, ◌≢◌, ◌⊎◌, false, List, [], ◌∷◌, Option, text_eq, nat_eq, Result, ok}
use mcp_contract.Models.{id_eq, status_eq, class_eq, Manifest, Policy}
use mcp_contract.Bcm.Monitor.{broken, start_monitor}
use mcp_contract.Fleet.Verdicts.{Status, error}
use mcp_contract.Bcm.Monitor.{Monitor, drift, started, Started}
use mcp_contract.Fleet.Launch.{Server, Spec}
use mcp_contract.Fleet.Verdicts.{World, rug_pull, ServerReport, load_contract}
use mcp_contract.Fleet.Runs.{Adapter, Call, launched, halted}

module _ (w : World) (get_adapter : Server → Result Adapter) (max_events : Option ℕ) where
  -- Building the monitor of a contract: what a failure makes of the run.
  abbrev pub Fails : Started → Status → Type 0
  Fails (drift expected actual) status = status ≡ rug_pull
  Fails (broken e) status = status ≡ error
  Fails (started m) status = ⊥

  abbrev pub IsBuilt : Started → Type 0
  IsBuilt (started m) = Unit
  IsBuilt _ = ⊥

  abbrev pub built : Server → Policy → Manifest → Started
  built s policy manifest = start_monitor w.classify w.digest policy manifest s.mode false

  -- Nothing is launched; or a sandbox is launched under the contract of the server, and it is halted
  -- where the monitor is built, and left where it is not.
  abbrev pub Closed : Server → ServerReport × List Call → Type 0
  Closed s out =
      ((out.1 ≡ []) × (out.0.status ≢ rug_pull))
      ⊎ ((spec : Spec) × (policy : Policy) × (manifest : Manifest) × (load_contract w s
            ≡ ok (policy, manifest))
          × (((out.1 ≡ launched spec policy ∷ halted ∷ [])
                × IsBuilt (built s policy manifest)
                × (out.0.status ≢ rug_pull))
              ⊎ ((out.1 ≡ launched spec policy ∷ [])
                  × Fails (built s policy manifest) out.0.status)))
