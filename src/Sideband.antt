-- ===== src/Sideband.antt =====
-- source-reference/kernel/usb-host/xhci-sideband.c: the endpoints and the interrupter of one USB
-- device that a client such as the audio offload driver takes over from the xHCI driver. The state is
-- one `struct xhci_sideband` and the `struct xhci_virt_device` that it was registered for. The calls
-- into the xHCI driver and the USB core are parameters: their outcome is an argument.
pub mod Links
pub mod Lifecycle
pub mod Runs
mod Examples
use audioreach_usb_offload_r.Prelude.{
  ℕ, zero, suc, ◌+◌, Bool, true, false, not, ◌&&◌, ◌||◌, Option, none, some, ◌==◌, if◌then◌else◌,
}
pub use audioreach_usb_offload_r.Prelude.{update}
use audioreach_usb_offload_r.Stream.{Ret, ok, err, einval, enodev, enomem, ebusy}

-- A device has one endpoint context for each of the 31 endpoints of USB.
abbrev pub ep_ctx_per_dev : ℕ
ep_ctx_per_dev = 31

-- `struct xhci_virt_device` with its endpoints: what the sideband code reads and writes of it.
-- `ep_sideband i` is the `sideband` pointer of endpoint i, and `offload_gets`, `offload_puts` are what
-- `usb_offload_get` and `usb_offload_put` have counted.
pub record VirtDevice : Type 0 where
  pub has_streams : ℕ → Bool
  pub has_ring : ℕ → Bool
  pub ep_sideband : ℕ → Option ℕ
  pub sideband : Option ℕ
  pub attached : Bool
  pub offload_gets : ℕ
  pub offload_puts : ℕ

-- `struct xhci_sideband`, with a name for its address. `eps i` says whether entry i is set: it then
-- points to endpoint i of the device.
pub record Sideband : Type 0 where
  pub id : ℕ
  pub has_xhci : Bool
  pub has_vdev : Bool
  pub eps : ℕ → Bool
  pub ir : Option ℕ

pub record State : Type 0 where
  pub sb : Sideband
  pub dev : VirtDevice

-- `ep->sideband == sb`, with the test for a null pointer
abbrev pub is_owner : ℕ → Option ℕ → Bool
is_owner id none = false
is_owner id (some owner) = owner == id

abbrev pub is_set {ℓ} : {A : Type ℓ} → Option A → Bool
is_set none = false
is_set (some a) = true

-- `__xhci_sideband_remove_endpoint`: after the stop command both pointers are cleared.
pub drop_endpoint : State → ℕ → State
drop_endpoint s i = record {
  sb = record (s.sb) { eps = update s.sb.eps i false };
  dev = record (s.dev) { ep_sideband = update s.dev.ep_sideband i none };
}

-- `__xhci_sideband_remove_interrupter`
pub drop_interrupter : State → State
drop_interrupter s = if not (is_set s.sb.ir) then s else record {
  sb = record (s.sb) { ir = none };
  dev = if s.dev.attached then record (s.dev) { offload_puts = s.dev.offload_puts + 1 } else s.dev;
}

unfoldable pub add_endpoint : State → ℕ → State × Ret
add_endpoint s i =
    if not s.sb.has_vdev
    then (s, err enodev)
    else if s.dev.has_streams i
    then (s, err einval)
    else if s.sb.eps i || is_set (s.dev.ep_sideband i)
    then (s, err ebusy)
    else (
      record {
        sb = record (s.sb) { eps = update s.sb.eps i true };
        dev = record (s.dev) { ep_sideband = update s.dev.ep_sideband i (some s.sb.id) };
      },
      ok 0,
    )

-- `ep` is the entry of `sb->eps`, which is also the endpoint of the device.
abbrev pub holds : State → ℕ → Bool
holds s i = s.sb.eps i && is_owner s.sb.id (s.dev.ep_sideband i)

unfoldable pub remove_endpoint : State → ℕ → State × Ret
unfolding drop_endpoint
remove_endpoint s i = if not (holds s i) then (s, err enodev) else (drop_endpoint s i, ok 0)

-- `stopped` is what `xhci_stop_endpoint_sync` returns.
unfoldable pub stop_endpoint : State → ℕ → Ret → Ret
stop_endpoint s i stopped = if not (holds s i) then err einval else stopped

-- Whether a table is returned; `table` says whether `xhci_ring_to_sgtable` could build it.
unfoldable pub get_endpoint_buffer : State → ℕ → Bool → Bool
get_endpoint_buffer s i table = holds s i && s.dev.has_ring i && table

unfoldable pub get_event_buffer : State → Bool → Bool
get_event_buffer s table = is_set s.sb.ir && table

-- `created` is the interrupter number that `xhci_create_secondary_interrupter` gives, if any, and
-- `got` what `usb_offload_get` returns.
unfoldable pub create_interrupter : State → Option ℕ → Ret → State × Ret
create_interrupter s created got =
    if not s.sb.has_xhci
    then (s, err enodev)
    else if not s.sb.has_vdev
    then (s, err enodev)
    else if is_set s.sb.ir
    then (s, err ebusy)
    else elim created [
      | none ↦ (s, err enomem)
      | some intr_num ↦ (
        record {
          sb = record (s.sb) { ir = some intr_num };
          dev = elim got [
            | ok n ↦ record (s.dev) { offload_gets = s.dev.offload_gets + 1 }
            | err e ↦ s.dev
          ];
        },
        got,
      )
    ]

unfoldable pub remove_interrupter : State → State
unfolding drop_interrupter
remove_interrupter s = drop_interrupter s

unfoldable pub interrupter_id : State → Ret
interrupter_id s = elim s.sb.ir [ none ↦ err enodev | some n ↦ ok n ]

-- `xhci_sideband_register`, for a device with a slot and the type XHCI_SIDEBAND_VENDOR or not
-- (`supported`). `allocated` is the outcome of `kzalloc_node`, `present` whether the controller has a
-- device in the slot, and `id` the address of the new instance.
unfoldable pub register : VirtDevice → ℕ → Bool → Bool → Bool → Option State
register dev id supported allocated present =
    if not supported
    then none
    else if not allocated
    then none
    else if not present || is_set dev.sideband
    then none
    else some (record {
      sb = record { id = id; has_xhci = true; has_vdev = true; eps = λ i. false; ir = none };
      dev = record dev { sideband = some id };
    })

-- The loop of `xhci_sideband_unregister` over the endpoints below n.
unfoldable pub drop_endpoints : ℕ → State → State
unfolding drop_endpoint
drop_endpoints zero s = s
drop_endpoints (suc n) s = let t = drop_endpoints n s in if t.sb.eps n then drop_endpoint t n else t

-- `xhci_sideband_unregister` of a registered instance, up to `kfree`.
unfoldable pub unregister : State → State
unfolding drop_interrupter
unregister s =
    if not s.sb.has_vdev
    then s
    else let t = drop_interrupter (drop_endpoints ep_ctx_per_dev s) in
      record {
        sb = record (t.sb) { has_vdev = false; has_xhci = false };
        dev = record (t.dev) { sideband = none };
      }
