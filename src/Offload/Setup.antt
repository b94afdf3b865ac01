-- ===== src/Offload/Setup.antt =====
-- The four set-up functions of upstream-src/sound/usb/qcom/qc_audio_offload.c that
-- `prepare_qmi_response` calls: descriptors, endpoints, event ring and transfer buffer. What the xHCI
-- driver, the USB core and the allocators answer enters as arguments.
use audioreach_usb_offload_r.Prelude.{
  ℕ, Bool, true, false, not, Option, none, some, List, ◌∷◌, ◌==◌, if◌then◌else◌,
}
use audioreach_usb_offload_r.Iova.{page_size}
use audioreach_usb_offload_r.Stream.{
  Ret, ok, err, einval, enodev, enomem, prepend_sid_to_iova, xfer_buf_len,
}
use audioreach_usb_offload_r.Sideband.{
  add_endpoint, remove_endpoint, get_endpoint_buffer, create_interrupter, remove_interrupter,
  get_event_buffer,
}
use audioreach_usb_offload_r.Offload.{UaudioQmiDev, Ctx, MemInfo, no_mem, Endpoint, Resp}
use audioreach_usb_offload_r.Offload.Iommu.{
  xfer_ring, event_ring, Sg, iommu_map_pa, iommu_map_xfer_buf,
}

-- `bInterfaceProtocol`: UAC_VERSION_1, UAC_VERSION_2, UAC_VERSION_3 or another value.
pub data Protocol : Type 0 where
  uac_version_1 uac_version_2 uac_version_3 unknown_protocol : Protocol

-- `wMaxPacketSize`: one of the UAC3_BADD_EP_MAXPSIZE values for 16 or 24 bits, or another.
pub data MaxPacketSize : Type 0 where
  badd_16 badd_24 invalid_size : MaxPacketSize

-- What `uaudio_populate_uac_desc` reads of the descriptors: whether the interface exists, the delay in
-- the UAC_AS_GENERAL descriptor if there is one, `fmt_sz`, and for UAC3 the function subclass.
pub record UacDesc : Type 0 where
  pub has_iface : Bool
  pub protocol : Protocol
  pub as_general : Option ℕ
  pub fmt_sz : ℕ
  pub full_adc : Bool
  pub max_packet : MaxPacketSize

abbrev uac1_desc : Resp → ℕ → Option ℕ → Resp × Ret
uac1_desc resp fmt_sz none = (resp, err enodev)
uac1_desc resp fmt_sz (some delay) = (
  record resp {
    data_path_delay = some delay;
    usb_audio_subslot_size = some fmt_sz;
    usb_audio_spec_revision = some 0x0100;
  },
  ok 0,
)

abbrev uac3_desc : Resp → MaxPacketSize → Resp × Ret
uac3_desc resp badd_16 = (record resp { usb_audio_subslot_size = some 2 }, ok 0)
uac3_desc resp badd_24 = (record resp { usb_audio_subslot_size = some 3 }, ok 0)
uac3_desc resp invalid_size = (resp, err einval)

abbrev desc_of : Resp → UacDesc → Protocol → Resp × Ret
desc_of resp d uac_version_1 = uac1_desc resp d.fmt_sz d.as_general
desc_of resp d uac_version_2 = (
  record resp { usb_audio_subslot_size = some d.fmt_sz; usb_audio_spec_revision = some 0x0200 },
  ok 0,
)
desc_of resp d uac_version_3 =
    if d.full_adc then (resp, err einval) else uac3_desc resp d.max_packet
desc_of resp d unknown_protocol = (resp, err enodev)

unfoldable pub populate_uac_desc : Resp → UacDesc → Resp × Ret
populate_uac_desc resp d = if not d.has_iface then (resp, err enodev) else desc_of resp d d.protocol

-- The answers for one endpoint: the DMA address in the table of its ring, if the table can be built,
-- and whether the list entry for the ring's address can be allocated.
pub record EndpointEnv : Type 0 where
  pub ring_dma : Option ℕ
  pub allocated : Bool

abbrev pub is_err : Ret → Bool
is_err (ok n) = false
is_err (err e) = true

-- `iova` of the memory information, and the endpoint given up again where there is no address.
abbrev pub ring_mapped : Ctx → Endpoint → ℕ → UaudioQmiDev → ℕ → Ctx × MemInfo × Ret
ring_mapped c ep dma q iova =
    if iova == 0
    then (record c { qdev = q; side = (remove_endpoint c.side ep.ep_index).0 }, no_mem, err enomem)
    else (
      record c { qdev = q },
      record { dma = dma; size = page_size; iova = prepend_sid_to_iova iova c.qdev.sid },
      ok 0,
    )

-- `get_endpoint_buffer` and what follows. `no_mem` stands for a `mem_info` that keeps its zeros.
abbrev pub ring_found : Ctx → Endpoint → EndpointEnv → Option ℕ → Ctx × MemInfo × Ret
ring_found c ep env none =
    (record c { side = (remove_endpoint c.side ep.ep_index).0 }, no_mem, err enodev)
ring_found c ep env (some dma) =
    if get_endpoint_buffer c.side ep.ep_index true
    then (let m = iommu_map_pa c.qdev xfer_ring page_size env.allocated in
        ring_mapped c ep dma m.0 m.1)
    else (record c { side = (remove_endpoint c.side ep.ep_index).0 }, no_mem, err enodev)

unfoldable pub endpoint_setup : Ctx → Endpoint → EndpointEnv → Ctx × MemInfo × Ret
endpoint_setup c ep env =
    if not ep.found
    then (c, no_mem, err enodev)
    else let a = add_endpoint c.side ep.ep_index in
      let added = record c { side = a.0 } in
      if is_err a.1 then (added, no_mem, err enodev) else ring_found added ep env env.ring_dma

-- The answers for the event ring: the interrupter number, what `usb_offload_get` returns, and the
-- DMA address in the table of the ring.
pub record EventEnv : Type 0 where
  pub created : Option ℕ
  pub offload_got : Ret
  pub event_dma : Option ℕ

abbrev pub event_mapped : Ctx → ℕ → ℕ → Ctx × MemInfo × Ret
event_mapped c dma iova =
    if iova == 0 then (record c { side = remove_interrupter c.side }, no_mem, err enomem) else (
      c,
      record { dma = dma; size = page_size; iova = prepend_sid_to_iova iova c.qdev.sid },
      ok 0,
    )

abbrev pub event_found : Ctx → Option ℕ → Ctx × MemInfo × Ret
event_found c none = (record c { side = remove_interrupter c.side }, no_mem, err enodev)
event_found c (some dma) =
    if get_event_buffer c.side true
    then event_mapped c dma (iommu_map_pa c.qdev event_ring page_size true).1
    else (record c { side = remove_interrupter c.side }, no_mem, err enodev)

unfoldable pub event_ring_setup : Ctx → EventEnv → Ctx × MemInfo × Ret
event_ring_setup c env =
    let r = create_interrupter c.side env.created env.offload_got in
    let created = record c { side = r.0 } in
    if is_err r.1 then (created, no_mem, r.1) else event_found created env.event_dma

-- The answers for the transfer buffer: its DMA and CPU addresses, its scatter list, and the list
-- entry.
pub record BufferEnv : Type 0 where
  pub buffer : Option (ℕ × ℕ)
  pub sgs : List Sg
  pub buf_allocated : Bool

abbrev pub buffer_found : Ctx → ℕ → BufferEnv → Option (ℕ × ℕ) → Ctx × MemInfo × ℕ × Ret
buffer_found c len env none = (c, no_mem, 0, err enomem)
buffer_found c len env (some (dma, cpu)) =
    let m = iommu_map_xfer_buf c.qdev len env.sgs env.buf_allocated in
    if m.1 == 0 then (record c { qdev = m.0 }, no_mem, 0, err enomem) else (
      record c { qdev = m.0; coherent = dma ∷ c.coherent },
      record { dma = dma; size = len; iova = prepend_sid_to_iova m.1 c.qdev.sid },
      cpu,
      ok 0,
    )

-- The results are the memory information and the CPU address. A buffer that cannot be mapped is freed
-- at once, so only a mapped one is listed.
unfoldable pub transfer_buffer_setup : Ctx → ℕ → BufferEnv → Ctx × MemInfo × ℕ × Ret
transfer_buffer_setup c requested env = buffer_found c (xfer_buf_len requested) env env.buffer
