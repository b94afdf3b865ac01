-- ===== src/Sideband/Examples.antt =====
-- Sideband instances of source-reference/kernel/usb-host/xhci-sideband.c with a few endpoints.
use audioreach_usb_offload_r.Prelude.{
  ◌≡◌, refl, true, false, none, some, [], ◌∷◌, ◌==◌, if◌then◌else◌, arith,
}
use audioreach_usb_offload_r.Stream.{ok}
use audioreach_usb_offload_r.Sideband.{
  State, VirtDevice, is_owner, holds, add_endpoint, create_interrupter, unregister, register,
}
use audioreach_usb_offload_r.Sideband.Links.{
  IsLinked, register-IsLinked, add_endpoint-IsLinked, create_interrupter-IsLinked,
  unregister-releases,
}
use audioreach_usb_offload_r.Sideband.Runs.{
  adds, creates, removes, unregisters, sideband_run, sideband_run-IsLinked,
}

abbrev device : VirtDevice
device = record {
  has_streams = λ i. i == 9;
  has_ring = λ i. true;
  ep_sideband = λ i. if i == 5 then some 70 else none;
  sideband = none;
  attached = true;
  offload_gets = 0;
  offload_puts = 0;
}

-- The instance at address 40, as `register` gives it.
abbrev fresh : State
fresh = record {
  sb = record { id = 40; has_xhci = true; has_vdev = true; eps = λ i. false; ir = none };
  dev = record device { sideband = some 40 };
}

fresh-registered : register device 40 true true true ≡ some fresh
unfolding register
fresh-registered = refl

fresh-IsLinked : IsLinked fresh
fresh-IsLinked = register-IsLinked device 40 true true true (λ i. ground arith) fresh-registered

-- Endpoint 2 and an interrupter are taken.
abbrev busy : State
busy = (create_interrupter (add_endpoint fresh 2).0 (some 1) (ok 0)).0

busy-IsLinked : IsLinked busy
busy-IsLinked =
    create_interrupter-IsLinked _ (some 1) (ok 0)
      (add_endpoint-IsLinked fresh 2 (omega arith) fresh-IsLinked)

busy_held : holds busy 2 ≡ true
unfolding add_endpoint create_interrupter
busy_held = refl

busy_vdev : busy.sb.has_vdev ≡ true
unfolding add_endpoint create_interrupter
busy_vdev = refl

unregister-releases_example :
    ((unregister busy).sb.eps 2 ≡ false)
    × (is_owner busy.sb.id ((unregister busy).dev.ep_sideband 2) ≡ false)
    × ((unregister busy).sb.ir ≡ none)
    × ((unregister busy).sb.has_vdev ≡ false)
    × ((unregister busy).dev.sideband ≡ none)
unregister-releases_example = unregister-releases busy busy-IsLinked busy_vdev 2

add_ok : (add_endpoint fresh 2).1 ≡ ok 0
unfolding add_endpoint
add_ok = refl

create_ok : (create_interrupter fresh (some 1) (ok 0)).1 ≡ ok 0
unfolding create_interrupter
create_ok = refl

sideband_run-IsLinked_example :
    IsLinked (sideband_run fresh (adds 2 ∷ creates (some 1) (ok 0) ∷ removes 2 ∷ unregisters ∷ []))
sideband_run-IsLinked_example =
    sideband_run-IsLinked device 40 true true true fresh
      (adds 2 ∷ creates (some 1) (ok 0) ∷ removes 2 ∷ unregisters ∷ []) (λ i. ground arith)
      fresh-registered (omega arith, (tt, (tt, (tt, tt))))
