-- ===== src/Sideband/Lifecycle.antt =====
-- Endpoints and interrupters come and go (source-reference/kernel/usb-host/xhci-sideband.c).
use audioreach_usb_offload_r.Prelude.{ℕ, ◌+◌, ◌≡◌, ◌≢◌, ◌↔◌, true, false, Option, none, some, arith}
use audioreach_usb_offload_r.Stream.{Ret, ok, err, enodev, ebusy}
use audioreach_usb_offload_r.Sideband.{
  State, holds, add_endpoint, remove_endpoint, create_interrupter, remove_interrupter,
}
use audioreach_usb_offload_r.Sideband.Links.{IsLinked}

-- An endpoint that has been added is held, a second request for it is refused as busy, and removing it
-- succeeds once and is then refused.
pub add_endpoint-remove_endpoint :
    (s : State) (i : ℕ)
    → (add_endpoint s i).1 ≡ ok 0
    → let t = (add_endpoint s i).0 in
      (holds t i ≡ true)
      × ((add_endpoint t i).1 ≡ err ebusy)
      × ((remove_endpoint t i).1 ≡ ok 0)
      × ((remove_endpoint (remove_endpoint t i).0 i).1 ≡ err enodev)
unfolding add_endpoint remove_endpoint
add_endpoint-remove_endpoint s i h = (ground arith, ground arith, ground arith, ground arith)

-- For a linked instance, adding an endpoint succeeds exactly if the instance is registered, the
-- endpoint has no streams, and no instance has it.
pub add_endpoint_iff :
    (s : State) (i : ℕ)
    → IsLinked s
    → ((add_endpoint s i).1 ≡ ok 0)
      ↔ ((s.sb.has_vdev ≡ true) × (s.dev.has_streams i ≡ false) × (s.dev.ep_sideband i ≡ none))
unfolding add_endpoint
add_endpoint_iff s i v = (λ h. ground (arith, v.linked i), λ h. ground (arith, v.linked i))

-- Whether another endpoint j is held does not change when endpoint i is added or removed.
pub other_endpoint :
    (s : State) (i j : ℕ)
    → i ≢ j
    → (holds (add_endpoint s i).0 j ≡ holds s j) × (holds (remove_endpoint s i).0 j ≡ holds s j)
unfolding add_endpoint remove_endpoint
other_endpoint s i j ne = (ground arith, ground arith)

-- If, on a registered instance without an interrupter, the offload count cannot be taken, the call
-- reports the error but keeps the interrupter, and the next call is refused as busy.
pub create_interrupter_keeps :
    (s : State) (intr_num e : ℕ) (created : Option ℕ) (got : Ret)
    → s.sb.has_xhci ≡ true
    → s.sb.has_vdev ≡ true
    → s.sb.ir ≡ none
    → let (t, ret) = create_interrupter s (some intr_num) (err e) in
      (ret ≡ err e)
      × (t.sb.ir ≡ some intr_num)
      × (create_interrupter t created got ≡ (t, err ebusy))
unfolding create_interrupter
create_interrupter_keeps s intr_num e created got x d n = (ground arith, ground arith, ground arith)

-- On an attached device without an interrupter, a creation that succeeds followed by the removal
-- counts one offload taken and one given back, and leaves no interrupter.
pub create_interrupter-remove_interrupter :
    (s : State) (intr_num n : ℕ) (created : Option ℕ)
    → s.dev.attached ≡ true
    → s.sb.ir ≡ none
    → (create_interrupter s created (ok n)).1 ≡ ok n
    → let t = remove_interrupter (create_interrupter s created (ok n)).0 in
      (t.dev.offload_gets ≡ s.dev.offload_gets + 1)
      × (t.dev.offload_puts ≡ s.dev.offload_puts + 1)
      × (t.sb.ir ≡ none)
unfolding create_interrupter remove_interrupter
create_interrupter-remove_interrupter s intr_num n created a e h =
    (ground arith, ground arith, ground arith)
