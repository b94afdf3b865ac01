-- ===== src/Offload/Session/Examples.antt =====
-- A card of upstream-src/sound/usb/qcom/qc_audio_offload.c that is probed, suspended and disconnected.
use audioreach_usb_offload_r.Offload.Request.{get_pcm_num}
use audioreach_usb_offload_r.Offload.Session.{fill_avail_pcms}
use audioreach_usb_offload_r.Offload.Session.Pcms.{playback_devices, fill_avail_pcms_lem}
use audioreach_usb_offload_r.Prelude.{ℕ, ◌≡◌, refl, Bool, true, false, none, some, List, [], ◌∷◌}
use audioreach_usb_offload_r.Stream.{ok, high}
use audioreach_usb_offload_r.Sideband.{State, VirtDevice, register}
use audioreach_usb_offload_r.Sideband.Links.{register-IsLinked}
use audioreach_usb_offload_r.Offload.{UaudioDev, init_qmi_dev, zero_info}
use audioreach_usb_offload_r.Offload.Request.{Subs, SndStream, Chip}
use audioreach_usb_offload_r.Offload.Handler.{Card, Service}
use audioreach_usb_offload_r.Offload.Session.{Wait, ProbeEnv, probe_card}
use audioreach_usb_offload_r.Offload.Session.Cards.{IsCard, probe_card-IsCard}

abbrev vdev : VirtDevice
vdev = record {
  has_streams = λ i. false;
  has_ring = λ i. true;
  ep_sideband = λ i. none;
  sideband = none;
  attached = true;
  offload_gets = 0;
  offload_puts = 0;
}

abbrev side : State
side = record {
  sb = record { id = 40; has_xhci = true; has_vdev = true; eps = λ i. false; ir = none };
  dev = record vdev { sideband = some 40 };
}

side-registered : register vdev 40 true true true ≡ some side
unfolding register
side-registered = refl

abbrev subs : ℕ → Subs
subs ep_num = record {
  substream = record {
    slot_id = 1;
    speed = high;
    direction = 0;
    iface = 1;
    num_interfaces = 2;
    data_endpoint = record { pipe = 32897; ep_num = 1; ep_index = 2; found = true };
    sync_endpoint = none;
  };
  ep_num = ep_num;
  opened = false;
  wired = true;
  has_audiofmt = true;
}

abbrev streams : List SndStream
streams =
    record { pcm_index = 0; playback = subs 0; capture = subs 1 }
    ∷ record { pcm_index = 1; playback = subs 1; capture = subs 0 }
    ∷ []

abbrev chip : Chip
chip = record {
  shutdown = false;
  system_suspend = false;
  has_ctrl_intf = true;
  pcm_devs = 2;
  pcm_list = streams;
}

abbrev dev : Bool → UaudioDev
dev in_use = record {
  has_udev = true;
  has_ctrl_intf = true;
  usb_core_id = 0;
  in_use = in_use;
  kref = 1;
  num_intf = 2;
  info = some (record zero_info { in_use = true } ∷ zero_info ∷ []);
}

abbrev card : Bool → Card
card in_use = record { dev = dev in_use; side = side; chip = some chip; sdev = none; held = 0 }

abbrev service : Bool → Service
service in_use = record {
  client_connected = true;
  client_node = 5;
  client_port = 6;
  qdev = some init_qmi_dev;
  cards = λ n. card in_use;
  coherent = [];
}

card-IsCard : IsCard (card false)
card-IsCard = record {
  side_linked = register-IsLinked vdev 40 true true true (λ i. refl) side-registered;
  registered = refl;
}

-- The array of indexes cannot be allocated, so the card is given up again.
abbrev probing : ProbeEnv
probing = record {
  priv_data = true;
  sdev_allocated = true;
  vdev = vdev;
  sb_id = 40;
  sb_supported = true;
  sb_allocated = true;
  vdev_present = true;
  last_iface = true;
  ppcm_allocated = false;
  device = λ str. str.pcm_index;
}

probe_card-IsCard_example : IsCard (probe_card (card false) chip probing)
probe_card-IsCard_example = probe_card-IsCard (card false) chip probing (λ i. refl) card-IsCard

-- The wait times out.
abbrev wait : Wait
wait = record { arrives = []; waited = ok 0; late = [] }

fill_avail_pcms_lem_example :
    fill_avail_pcms (λ str. str.pcm_index) (get_pcm_num streams 0) 0 streams
    ≡ playback_devices (λ str. str.pcm_index) streams
fill_avail_pcms_lem_example = fill_avail_pcms_lem (λ str. str.pcm_index) streams
