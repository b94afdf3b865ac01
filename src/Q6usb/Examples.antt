-- ===== src/Q6usb/Examples.antt =====
-- Two USB devices at the back end (upstream-src/sound/soc/qcom/qdsp6/q6usb.c).
use audioreach_usb_offload_r.Prelude.{
  Sat, ℕ, ◌-◌, ◌≡◌, refl, true, false, ◌&&◌, none, some, [], ◌∷◌, get_elem?, ◌==◌, if◌then◌else◌,
  arith,
}
use audioreach_usb_offload_r.Stream.{ok}
use audioreach_usb_offload_r.Apm.{playback}
use audioreach_usb_offload_r.Q6usb.{
  UsbDevice, PortData, last_entry, alsa_connection_cb, HwEnv, hw_params, card_route,
  update_offload_route,
}
use audioreach_usb_offload_r.Q6usb.Devices.{connect-disconnect, hw_params-route}

abbrev device : ℕ → UsbDevice
device n = record {
  id = n;
  card_idx = n;
  chip_idx = n;
  sdev = record { num_playback = 2; ppcm_idx = 0 ∷ 3 ∷ [] };
}

abbrev one : PortData
one = record { devices = device 1 ∷ []; hs_jack = some 0; reported = λ j. true }

abbrev two : PortData
two = record one { devices = device 1 ∷ device 2 ∷ [] }

connect-disconnect_example : Sat (alsa_connection_cb one true (device 2) true) (λ r.
    (last_entry r.0.devices ≡ some (device 2))
    × Sat (alsa_connection_cb r.0 true (device 2) false) (λ q. q.0.devices ≡ one.devices))
connect-disconnect_example = connect-disconnect one (device 2) refl

abbrev env : HwEnv
env = record { supported_format = λ n. ok 0; afe_port = ok 0; send_dev_param = λ card pcm. ok 0 }

hw_params-route_example :
    (pcm : ℕ) × (get_elem? (0 ∷ 3 ∷ []) (2 - 1) ≡ some pcm)
    × ((i j : ℕ)
        → env.supported_format 2 ≡ ok i
        → env.afe_port ≡ ok j
        → hw_params two env ≡ some (env.send_dev_param 2 pcm))
    × ((card q : ℕ)
        → update_offload_route two 0 [] [] card q playback card_route
          ≡ some (if card == 2 && q == pcm then some 0 else none, ok 0))
hw_params-route_example = hw_params-route two (device 2) env 0 [] [] refl (omega arith, refl)
