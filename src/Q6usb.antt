-- ===== src/Q6usb.antt =====
-- The USB back end of upstream-src/sound/soc/qcom/qdsp6/q6usb.c: which USB devices are connected, which
-- of them is used for offloading, and what the headset jack shows. `none` is a fault: an access outside
-- an array or a list operation on a device that is not, or already, in the list.
pub mod Devices
mod Examples
use audioreach_usb_offload_r.Prelude.{
  and_then, ℕ, zero, suc, ◌+◌, ◌-◌, ◌%◌, Bool, true, false, not, ◌&&◌, ◌||◌, Option, none, some,
  List, [], ◌∷◌, ◌++◌, get_elem?, ◌==◌, if◌then◌else◌,
}
use audioreach_usb_offload_r.Stream.{Ret, ok, err, einval, enodev, u32}
use audioreach_usb_offload_r.Sideband.{update}
use audioreach_usb_offload_r.Apm.{Direction, playback, capture}
use audioreach_usb_offload_r.Offload.Handler.{Sdev}

-- `struct snd_soc_usb_device`, with a name for its address.
pub record UsbDevice : Type 0 where
  pub id : ℕ
  pub card_idx : ℕ
  pub chip_idx : ℕ
  pub sdev : Sdev

-- `struct q6usb_port_data` and, for each jack, whether the last report for it was SND_JACK_USB.
pub record PortData : Type 0 where
  pub devices : List UsbDevice
  pub hs_jack : Option ℕ
  pub reported : ℕ → Bool

abbrev pub is_in : ℕ → List UsbDevice → Bool
is_in id [] = false
is_in id (d ∷ ds) = d.id == id || is_in id ds

-- `list_del`
abbrev pub list_del : ℕ → List UsbDevice → List UsbDevice
list_del id [] = []
list_del id (d ∷ ds) = let rest = list_del id ds in if d.id == id then ds else d ∷ rest

-- `list_last_entry`, none for the empty list.
abbrev pub last_entry : List UsbDevice → Option UsbDevice
last_entry [] = none
last_entry (d ∷ []) = some d
last_entry (d ∷ e ∷ ds) = last_entry (e ∷ ds)

abbrev pub is_empty : List UsbDevice → Bool
is_empty [] = true
is_empty (d ∷ ds) = false

-- `snd_jack_report` for the headset jack, if there is one.
abbrev pub report : PortData → Bool → PortData
report p usb = elim p.hs_jack [
  | none ↦ p
  | some j ↦ record p { reported = update p.reported j usb }
]

-- `q6usb_alsa_connection_cb`
unfoldable pub alsa_connection_cb : PortData → Bool → UsbDevice → Bool → Option (PortData × Ret)
alsa_connection_cb p has_component sdev is_connected =
    if not has_component
    then some (p, err enodev)
    else if is_connected
    then (if is_in sdev.id p.devices
        then none
        else some (record (report p true) { devices = p.devices ++ (sdev ∷ []) }, ok 0))
    else if not (is_in sdev.id p.devices)
    then none
    else some (report (record p { devices = list_del sdev.id p.devices }) false, ok 0)

-- `q6usb_component_disable_jack`
unfoldable pub disable_jack : PortData → PortData
disable_jack p = record (report p false) { hs_jack = none }

-- `q6usb_component_enable_jack`
unfoldable pub enable_jack : PortData → ℕ → PortData
enable_jack p j = record p {
  reported = update p.reported j (not (is_empty p.devices));
  hs_jack = some j;
}

-- `q6usb_component_set_jack`
unfoldable pub set_jack : PortData → Option ℕ → PortData
unfolding enable_jack disable_jack
set_jack p none = disable_jack p
set_jack p (some j) = enable_jack p j

-- `sdev->ppcm_idx[sdev->num_playback - 1]`, where the index is -1 without a PCM.
abbrev pub last_pcm : UsbDevice → Option ℕ
last_pcm d =
    if d.sdev.num_playback == 0 then none else get_elem? d.sdev.ppcm_idx (d.sdev.num_playback - 1)

-- What the calls of `q6usb_hw_params` answer: whether a format is supported, by the chip, the AFE port,
-- and sending a card and a PCM to the DSP.
pub record HwEnv : Type 0 where
  pub supported_format : ℕ → Ret
  pub afe_port : Ret
  pub send_dev_param : ℕ → ℕ → Ret

abbrev pub token_sent : HwEnv → UsbDevice → Option Ret
token_sent env d = and_then (last_pcm d) (λ pcm. some (env.send_dev_param d.card_idx pcm))

-- `q6usb_hw_params`: the return value. Without an AFE port the DSP is not told, and that is no error.
unfoldable pub hw_params : PortData → HwEnv → Option Ret
hw_params p env = elim (last_entry p.devices) [
  | none ↦ some (err einval)
  | some d ↦ elim (env.supported_format d.chip_idx) [
    | err e ↦ some (err e)
    | ok i ↦ elim env.afe_port [ err e ↦ some (ok 0) | ok j ↦ token_sent env d ]
  ]
]

-- A path of the audio graph: whether its sink is named "USB Mixer", and `connect`.
pub record DapmPath : Type 0 where
  pub is_usb_mixer : Bool
  pub connect : Bool

-- `q6usb_usb_mixer_enabled`, on the sink paths of a widget.
unfoldable pub usb_mixer_enabled : List DapmPath → Bool
usb_mixer_enabled [] = false
usb_mixer_enabled (p ∷ ps) = p.is_usb_mixer && p.connect || usb_mixer_enabled ps

-- A widget of the card: whether its name starts with "MultiMedia", and for each of its sinks the
-- sink's paths.
pub record Widget : Type 0 where
  pub id : ℕ
  pub is_front_end : Bool
  pub sinks : List (List DapmPath)

-- `q6usb_get_pcm_id_from_widget`: the runtimes with the widget and the number of each; none for -1.
unfoldable pub get_pcm_id_from_widget : List (ℕ × ℕ) → ℕ → Option ℕ
get_pcm_id_from_widget [] w = none
get_pcm_id_from_widget (r ∷ rs) w =
    let rest = get_pcm_id_from_widget rs w in if r.0 == w then some r.1 else rest

abbrev pub any_enabled : List (List DapmPath) → Bool
any_enabled [] = false
any_enabled (s ∷ ss) = usb_mixer_enabled s || any_enabled ss

-- `q6usb_get_pcm_id`
unfoldable pub get_pcm_id : List (ℕ × ℕ) → List Widget → Option ℕ
unfolding usb_mixer_enabled get_pcm_id_from_widget
get_pcm_id rtds [] = none
get_pcm_id rtds (w ∷ ws) =
    let rest = get_pcm_id rtds ws in
    if w.is_front_end && any_enabled w.sinks then get_pcm_id_from_widget rtds w.id else rest

-- SND_SOC_USB_KCTL_CARD_ROUTE and SND_SOC_USB_KCTL_PCM_ROUTE
pub data Kctl : Type 0 where
  card_route pcm_route : Kctl

abbrev pub route_index : ℕ → List (ℕ × ℕ) → List Widget → Kctl → Option ℕ
route_index number rtds ws card_route = some number
route_index number rtds ws pcm_route = get_pcm_id rtds ws

-- `q6usb_update_offload_route`: the route, none for -1, and the return value.
unfoldable pub update_offload_route :
    PortData → ℕ → List (ℕ × ℕ) → List Widget → ℕ → ℕ → Direction → Kctl → Option (Option ℕ × Ret)
unfolding get_pcm_id
update_offload_route p number rtds ws card pcm capture path = some (none, err enodev)
update_offload_route p number rtds ws card pcm playback path = elim (last_entry p.devices) [
  | none ↦ some (none, err enodev)
  | some d ↦
      if not (card == d.card_idx)
      then some (none, ok 0)
      else and_then (last_pcm d)
          (λ last. some (if pcm == last then route_index number rtds ws path else none, ok 0))
]
