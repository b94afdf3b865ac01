-- ===== src/Offload/Scene.antt =====
-- A card with one playback stream for upstream-src/sound/usb/qcom/qc_audio_offload.c, with an
-- environment in which every call succeeds.
use audioreach_usb_offload_r.Prelude.{true, false, none, some, [], ◌∷◌}
use audioreach_usb_offload_r.Stream.{ok, high}
use audioreach_usb_offload_r.Sideband.{State}
use audioreach_usb_offload_r.Offload.{init_qmi_dev, UaudioDev, Ctx, Substream}
use audioreach_usb_offload_r.Offload.Setup.{uac_version_2, invalid_size, EndpointEnv}
use audioreach_usb_offload_r.Offload.Response.{ResponseEnv, Call}

abbrev pub side : State
side = record {
  sb = record { id = 40; has_xhci = true; has_vdev = true; eps = λ i. false; ir = none };
  dev = record {
    has_streams = λ i. false;
    has_ring = λ i. true;
    ep_sideband = λ i. none;
    sideband = some 40;
    attached = true;
    offload_gets = 0;
    offload_puts = 0;
  };
}

abbrev pub ctx : Ctx
ctx = record { qdev = init_qmi_dev; side = side; coherent = [] }

abbrev pub substream : Substream
substream = record {
  slot_id = 1;
  speed = high;
  direction = 0;
  iface = 1;
  num_interfaces = 2;
  data_endpoint = record { pipe = 32897; ep_num = 1; ep_index = 2; found = true };
  sync_endpoint = none;
}

abbrev pub dev : UaudioDev
dev = record {
  has_udev = false;
  has_ctrl_intf = true;
  usb_core_id = 0;
  in_use = false;
  kref = 0;
  num_intf = 0;
  info = none;
}

abbrev pub endpoint_env : EndpointEnv
endpoint_env = record { ring_dma = some 65536; allocated = true }

-- Every answer is good.
abbrev pub env : ResponseEnv
env = record {
  desc = record {
    has_iface = true;
    protocol = uac_version_2;
    as_general = none;
    fmt_sz = 2;
    full_adc = false;
    max_packet = invalid_size;
  };
  private_data = true;
  data_ep = endpoint_env;
  sync_ep = endpoint_env;
  controller = ok 0;
  event = record { created = some 1; offload_got = ok 0; event_dma = some 131072 };
  buffer = record {
    buffer = some (196608, 7);
    sgs = record { extent = 4096; maps = true } ∷ [];
    buf_allocated = true;
  };
  info_allocated = true;
}

abbrev pub call : ResponseEnv → Call
call answers = record {
  dev = dev;
  subs = substream;
  usb_token = 0;
  xfer_buff_size = 4096;
  card_num = 0;
  info_idx = 0;
  env = answers;
}
