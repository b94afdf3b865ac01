-- ===== src/Q6usb/Devices.antt =====
-- The devices of the USB back end (upstream-src/sound/soc/qcom/qdsp6/q6usb.c) as the offload driver
-- (upstream-src/sound/usb/qcom/qc_audio_offload.c) connects and disconnects them.
use audioreach_usb_offload_r.Prelude.{
  Sat, ℕ, ◌-◌, ◌<◌, ◌≡◌, refl, ap, ◌∙◌, Bool, true, false, ◌&&◌, none, some, List, [], ◌∷◌, ◌++◌,
  length, get_elem?, get_elem?-some, ◌==◌, if◌then◌else◌, arith,
}
use audioreach_usb_offload_r.Stream.{ok}
use audioreach_usb_offload_r.Apm.{playback}
use audioreach_usb_offload_r.Offload.Handler.{Sdev}
use audioreach_usb_offload_r.Sideband.{is_set}
use audioreach_usb_offload_r.Offload.Handler.{Card}
use audioreach_usb_offload_r.Offload.Request.{SndStream, Chip, get_pcm_num}
use audioreach_usb_offload_r.Offload.Session.{ProbeEnv, probe_card}
use audioreach_usb_offload_r.Offload.Session.Pcms.{playback_devices, fill_avail_pcms_lem}
use audioreach_usb_offload_r.Q6usb.{
  UsbDevice, PortData, is_in, list_del, last_entry, report, alsa_connection_cb, last_pcm, HwEnv,
  hw_params, Widget, card_route, update_offload_route,
}

list_del-snoc :
    (ds : List UsbDevice) (d : UsbDevice)
    → is_in d.id ds ≡ false
    → list_del d.id (ds ++ (d ∷ [])) ≡ ds
list_del-snoc [] d h = ground arith
list_del-snoc (e ∷ ds) d h = ground (arith, list_del-snoc ds d, h)

is_in-snoc : (ds : List UsbDevice) (d : UsbDevice) → is_in d.id (ds ++ (d ∷ [])) ≡ true
is_in-snoc [] d = ground arith
is_in-snoc (e ∷ ds) d = ground (arith, is_in-snoc ds d)

last_entry-snoc : (ds : List UsbDevice) (d : UsbDevice) → last_entry (ds ++ (d ∷ [])) ≡ some d
last_entry-snoc [] d = refl
last_entry-snoc (e ∷ []) d = refl
last_entry-snoc (e ∷ f ∷ ds) d = last_entry-snoc (f ∷ ds) d

report_devices : (p : PortData) (b : Bool) → (report p b).devices ≡ p.devices
report_devices p b = ground arith

-- A device that is not in the list becomes the selected one when it is connected, and when it is
-- disconnected again the list, and with it the selection, is as before.
pub connect-disconnect :
    (p : PortData) (d : UsbDevice)
    → is_in d.id p.devices ≡ false
    → Sat (alsa_connection_cb p true d true) (λ r.
      (last_entry r.0.devices ≡ some d)
      × Sat (alsa_connection_cb r.0 true d false) (λ q. q.0.devices ≡ p.devices))
unfolding alsa_connection_cb
connect-disconnect p d new =
    rw (new, Sat)
      (
        last_entry-snoc p.devices d,
        rw (is_in-snoc p.devices d, Sat)
            (report_devices
                (record (report p true) { devices = list_del d.id (p.devices ++ (d ∷ [])) }) false
              ∙ list_del-snoc p.devices d new),
      )

-- An array with an entry for each of the PCMs, of which there is one.
abbrev pub IsSdev : Sdev → Type 0
IsSdev s = (0 < s.num_playback) × (length s.ppcm_idx ≡ s.num_playback)

last_pcm-some :
    (d : UsbDevice)
    → IsSdev d.sdev
    → (pcm : ℕ) × (get_elem? d.sdev.ppcm_idx (d.sdev.num_playback - 1) ≡ some pcm)
      × (last_pcm d ≡ some pcm)
last_pcm-some d (pos, len) =
    let some_pcm : (d.sdev.num_playback == 0) ≡ false = ground arith in
    let (pcm, e) =
      get_elem?-some d.sdev.ppcm_idx (d.sdev.num_playback - 1) (rw len (omega arith)) in
    (pcm, e, rw some_pcm e)

-- Of the device connected last, whose array has an entry for each of its PCMs, `hw_params` tells the
-- DSP the card and the last of the PCMs, if the format is supported and the AFE port is there, and
-- for exactly this card and PCM the mixer is told the card of the back end as the route.
pub hw_params-route :
    (p : PortData) (d : UsbDevice) (env : HwEnv) (number : ℕ) (rtds : List (ℕ × ℕ))
    (ws : List Widget)
    → last_entry p.devices ≡ some d
    → IsSdev d.sdev
    → (pcm : ℕ) × (get_elem? d.sdev.ppcm_idx (d.sdev.num_playback - 1) ≡ some pcm)
      × ((i j : ℕ)
          → env.supported_format d.chip_idx ≡ ok i
          → env.afe_port ≡ ok j
          → hw_params p env ≡ some (env.send_dev_param d.card_idx pcm))
      × ((card q : ℕ)
          → update_offload_route p number rtds ws card q playback card_route
            ≡ some (if card == d.card_idx && q == pcm then some number else none, ok 0))
unfolding hw_params update_offload_route
hw_params-route p d env number rtds ws last ok_sdev =
    let (pcm, at_last, e) = last_pcm-some d ok_sdev in
    (pcm, at_last, λ i j f a. ground (arith, last, f, a, e), λ card q. ground (arith, last, e))

length-playback_devices :
    (device : SndStream → ℕ) (l : List SndStream)
    → length (playback_devices device l) ≡ get_pcm_num l 0
unfolding playback_devices get_pcm_num
length-playback_devices device [] = refl
length-playback_devices device (str ∷ l) = ground (arith, length-playback_devices device l)

-- The probe of the last interface of a card, which has a stream that can play, and has no device if
-- it has no chip: if it leaves a device, the array of its PCMs has an entry for each of them, and
-- there is one.
pub probe_card-IsSdev :
    (card : Card) (chip : Chip) (env : ProbeEnv) (sdev : Sdev)
    → (is_set card.chip ≡ false → card.sdev ≡ none)
    → 0 < get_pcm_num chip.pcm_list 0
    → env.last_iface ≡ true
    → (probe_card card chip env).sdev ≡ some sdev
    → IsSdev sdev
unfolding probe_card
probe_card-IsSdev card chip env sdev fresh pos last e =
    let filled =
      ap length (fill_avail_pcms_lem env.device chip.pcm_list)
      ∙ length-playback_devices env.device chip.pcm_list in
    ground (arith, fresh, e, last, filled)
