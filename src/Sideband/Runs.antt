-- ===== src/Sideband/Runs.antt =====
-- Calls of a client on one sideband instance, in any order
-- (source-reference/kernel/usb-host/xhci-sideband.c).
use audioreach_usb_offload_r.Prelude.{All, ℕ, ◌<◌, ◌≡◌, Bool, false, Option, some, List, [], ◌∷◌}
use audioreach_usb_offload_r.Stream.{Ret}
use audioreach_usb_offload_r.Sideband.{
  VirtDevice, State, is_owner, ep_ctx_per_dev, add_endpoint, remove_endpoint, create_interrupter,
  remove_interrupter, register, unregister,
}
use audioreach_usb_offload_r.Sideband.Links.{
  IsLinked, register-IsLinked, add_endpoint-IsLinked, remove_endpoint-IsLinked,
  create_interrupter-IsLinked, remove_interrupter-IsLinked, unregister-IsLinked,
}

pub data SidebandCall : Type 0 where
  adds removes : ℕ → SidebandCall
  creates : Option ℕ → Ret → SidebandCall
  removes_interrupter unregisters : SidebandCall

unfoldable pub sideband_step : State → SidebandCall → State
unfolding add_endpoint remove_endpoint create_interrupter remove_interrupter unregister
sideband_step s (adds i) = (add_endpoint s i).0
sideband_step s (removes i) = (remove_endpoint s i).0
sideband_step s (creates made got) = (create_interrupter s made got).0
sideband_step s removes_interrupter = remove_interrupter s
sideband_step s unregisters = unregister s

unfoldable pub sideband_run : State → List SidebandCall → State
unfolding sideband_step
sideband_run s [] = s
sideband_run s (c ∷ cs) = sideband_run (sideband_step s c) cs

-- A client adds endpoints of the table only.
abbrev pub InTable : SidebandCall → Type 0
InTable (adds i) = i < ep_ctx_per_dev
InTable _ = Unit

step-IsLinked :
    (s : State) (c : SidebandCall) → InTable c → IsLinked s → IsLinked (sideband_step s c)
unfolding sideband_step
step-IsLinked s (adds i) lt v = add_endpoint-IsLinked s i lt v
step-IsLinked s (removes i) lt v = remove_endpoint-IsLinked s i v
step-IsLinked s (creates made got) lt v = create_interrupter-IsLinked s made got v
step-IsLinked s removes_interrupter lt v = remove_interrupter-IsLinked s v
step-IsLinked s unregisters lt v = unregister-IsLinked s v

run-IsLinked :
    (s : State) (cs : List SidebandCall)
    → All InTable cs
    → IsLinked s
    → IsLinked (sideband_run s cs)
unfolding sideband_run
run-IsLinked s [] lt v = v
run-IsLinked s (c ∷ cs) lt v = run-IsLinked (sideband_step s c) cs lt.1 (step-IsLinked s c lt.0 v)

-- An instance whose address no endpoint points to before stays linked from its registration on, over
-- any sequence of calls with any outcomes: its entries are set exactly for the endpoints that point
-- back to it, its device knows it while it is registered, and after that it holds nothing.
pub sideband_run-IsLinked :
    (dev : VirtDevice) (id : ℕ) (supported allocated present : Bool) (s : State)
    (cs : List SidebandCall)
    → ((i : ℕ) → is_owner id (dev.ep_sideband i) ≡ false)
    → register dev id supported allocated present ≡ some s
    → All InTable cs
    → IsLinked (sideband_run s cs)
sideband_run-IsLinked dev id supported allocated present s cs new e lt =
    run-IsLinked s cs lt (register-IsLinked dev id supported allocated present new e)
