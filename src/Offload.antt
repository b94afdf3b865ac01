-- ===== src/Offload.antt =====
-- The state of the USB audio offload driver, upstream-src/sound/usb/qcom/qc_audio_offload.c: the
-- structs that it keeps for the QMI service, for each card and for each interface in use.
pub mod Iommu
pub mod Setup
pub mod Rings
pub mod Response
pub mod Request
pub mod Handler
pub mod Format
pub mod Session
mod Scene
mod Examples
use audioreach_usb_offload_r.Prelude.{
  ℕ, Bool, true, false, Option, none, some, List, [], ◌+◌, ◌*◌, ◌-◌, ◌==◌, if◌then◌else◌,
}
use audioreach_usb_offload_r.Iova.{IovaPool, init_pool, page_size}
use audioreach_usb_offload_r.Stream.{UsbSpeed, QmiSpeed, invalid_v01}
use audioreach_usb_offload_r.Sideband.{State}

-- SNDRV_CARDS: the number of sound cards of the kernel configuration.
abbrev pub sndrv_cards : ℕ
sndrv_cards = 32

abbrev pub iova_base : ℕ
iova_base = 0x1000

abbrev pub iova_xfer_ring_base : ℕ
iova_xfer_ring_base = iova_base + page_size * (sndrv_cards + 1)

abbrev pub iova_xfer_buf_base : ℕ
iova_xfer_buf_base = iova_xfer_ring_base + page_size * sndrv_cards * 32

abbrev pub iova_xfer_ring_max : ℕ
iova_xfer_ring_max = iova_xfer_buf_base - page_size

abbrev pub iova_xfer_buf_max : ℕ
iova_xfer_buf_max = 0xfffff000 - page_size

-- `struct uaudio_qmi_dev`: the two pools, the cards in use and whether the event ring is mapped;
-- `sid` is the stream identifier of `struct q6usb_offload`.
pub record UaudioQmiDev : Type 0 where
  pub sid : ℕ
  pub xfer_ring : IovaPool
  pub xfer_buf : IovaPool
  pub card_slot : ℕ → Bool
  pub er_mapped : Bool

-- `qc_usb_audio_offload_init_qmi_dev`, where its allocation succeeds
unfoldable pub init_qmi_dev : UaudioQmiDev
unfolding init_pool
init_qmi_dev = record {
  sid = 0;
  xfer_ring = init_pool iova_xfer_ring_base iova_xfer_ring_max;
  xfer_buf = init_pool iova_xfer_buf_base iova_xfer_buf_max;
  card_slot = λ card. false;
  er_mapped = false;
}

-- `struct intf_info`; a null pointer is 0.
pub record IntfInfo : Type 0 where
  pub data_xfer_ring_va : ℕ
  pub data_xfer_ring_size : ℕ
  pub sync_xfer_ring_va : ℕ
  pub sync_xfer_ring_size : ℕ
  pub xfer_buf_iova : ℕ
  pub xfer_buf_size : ℕ
  pub xfer_buf_dma : ℕ
  pub xfer_buf_cpu : ℕ
  pub data_ep_pipe : ℕ
  pub sync_ep_pipe : ℕ
  pub data_ep_idx : ℕ
  pub sync_ep_idx : ℕ
  pub intf_num : ℕ
  pub pcm_card_num : ℕ
  pub pcm_dev_num : ℕ
  pub direction : ℕ
  pub in_use : Bool

-- `kzalloc` clears it.
abbrev pub zero_info : IntfInfo
zero_info = record {
  data_xfer_ring_va = 0;
  data_xfer_ring_size = 0;
  sync_xfer_ring_va = 0;
  sync_xfer_ring_size = 0;
  xfer_buf_iova = 0;
  xfer_buf_size = 0;
  xfer_buf_dma = 0;
  xfer_buf_cpu = 0;
  data_ep_pipe = 0;
  sync_ep_pipe = 0;
  data_ep_idx = 0;
  sync_ep_idx = 0;
  intf_num = 0;
  pcm_card_num = 0;
  pcm_dev_num = 0;
  direction = 0;
  in_use = false;
}

-- `struct uaudio_dev`. `has_udev` and `has_ctrl_intf` say whether a pointer is set;
-- `info` is the array, `in_use` the atomic flag and `kref` the count of streams.
pub record UaudioDev : Type 0 where
  pub has_udev : Bool
  pub has_ctrl_intf : Bool
  pub usb_core_id : ℕ
  pub in_use : Bool
  pub kref : ℕ
  pub num_intf : ℕ
  pub info : Option (List IntfInfo)

-- What the driver works on while it sets a stream up for one card: the service's device, the
-- sideband of the card, and the coherent buffers that are allocated, by their DMA address.
pub record Ctx : Type 0 where
  pub qdev : UaudioQmiDev
  pub side : State
  pub coherent : List ℕ

-- `struct mem_info_v01`
pub record MemInfo : Type 0 where
  pub dma : ℕ
  pub size : ℕ
  pub iova : ℕ

abbrev pub no_mem : MemInfo
no_mem = record { dma = 0; size = 0; iova = 0 }

-- What the driver reads of a `struct snd_usb_endpoint`: its pipe, its number, the index that the
-- xHCI driver gives it, and whether `usb_pipe_endpoint` finds it.
pub record Endpoint : Type 0 where
  pub pipe : ℕ
  pub ep_num : ℕ
  pub ep_index : ℕ
  pub found : Bool

-- What it reads of a `struct snd_usb_substream` and its device.
pub record Substream : Type 0 where
  pub slot_id : ℕ
  pub speed : UsbSpeed
  pub direction : ℕ
  pub iface : ℕ
  pub num_interfaces : ℕ
  pub data_endpoint : Endpoint
  pub sync_endpoint : Option Endpoint

-- The parts of `struct qmi_uaudio_stream_resp_msg_v01` that the driver fills in; a field with a
-- `_valid` flag is an option.
pub record Resp : Type 0 where
  pub data_path_delay : Option ℕ
  pub usb_audio_subslot_size : Option ℕ
  pub usb_audio_spec_revision : Option ℕ
  pub slot_id : Option ℕ
  pub has_data_ep_desc : Bool
  pub has_sync_ep_desc : Bool
  pub controller_num : Option ℕ
  pub interrupter_num : ℕ
  pub speed_info : QmiSpeed
  pub tr_data : MemInfo
  pub tr_sync : MemInfo
  pub evt_ring : MemInfo
  pub xfer_buff : MemInfo
  pub xhci_mem_info_valid : Bool

abbrev pub empty_resp : Resp
empty_resp = record {
  data_path_delay = none;
  usb_audio_subslot_size = none;
  usb_audio_spec_revision = none;
  slot_id = none;
  has_data_ep_desc = false;
  has_sync_ep_desc = false;
  controller_num = none;
  interrupter_num = 0;
  speed_info = invalid_v01;
  tr_data = no_mem;
  tr_sync = no_mem;
  evt_ring = no_mem;
  xfer_buff = no_mem;
  xhci_mem_info_valid = false;
}
