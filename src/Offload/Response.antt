-- ===== src/Offload/Response.antt =====
-- `prepare_qmi_response` of upstream-src/sound/usb/qcom/qc_audio_offload.c, in its steps; what a step
-- took is given back by the labels behind the steps, in the reverse order.
pub mod EventRing
pub mod Rollback
pub mod Failure
use audioreach_usb_offload_r.Prelude.{
  ℕ, ◌+◌, Bool, true, false, not, ◌||◌, ◌&&◌, Option, none, some, List, [], ◌∷◌, set, replicate,
  ◌==◌, if◌then◌else◌,
}
use audioreach_usb_offload_r.Iova.{page_size}
use audioreach_usb_offload_r.Stream.{
  Ret, ok, err, u8, einval, enodev, enomem, iova_mask, get_speed_info, QmiSpeed, invalid_v01,
  low_v01, full_v01, high_v01, super_v01, super_plus_v01, token_dev_num,
}
use audioreach_usb_offload_r.Sideband.{
  State, remove_endpoint, remove_interrupter, interrupter_id, update,
}
use audioreach_usb_offload_r.Offload.{
  UaudioQmiDev, UaudioDev, IntfInfo, zero_info, Ctx, MemInfo, no_mem, Endpoint, Substream, Resp,
  iova_base,
}
use audioreach_usb_offload_r.Offload.Iommu.{xfer_ring, event_ring, iommu_unmap}
use audioreach_usb_offload_r.Offload.Setup.{
  UacDesc, EndpointEnv, EventEnv, BufferEnv, is_err, populate_uac_desc, endpoint_setup,
  event_ring_setup, transfer_buffer_setup,
}

-- What one call is given and answered. `private_data` is whether `snd_soc_usb_find_priv_data` finds
-- the data of q6usb, `controller` the outcome of `usb_get_controller_id`, and `info_allocated` that
-- of the allocation of the interface array.
pub record ResponseEnv : Type 0 where
  pub desc : UacDesc
  pub private_data : Bool
  pub data_ep : EndpointEnv
  pub sync_ep : EndpointEnv
  pub controller : Ret
  pub event : EventEnv
  pub buffer : BufferEnv
  pub info_allocated : Bool

-- One call: the card's record, the substream, what the request and the caller pass, and the answers.
pub record Call : Type 0 where
  pub dev : UaudioDev
  pub subs : Substream
  pub usb_token : ℕ
  pub xfer_buff_size : ℕ
  pub card_num : ℕ
  pub info_idx : ℕ
  pub env : ResponseEnv

pub record Done : Type 0 where
  pub ctx : Ctx
  pub dev : UaudioDev
  pub resp : Resp
  pub ret : Ret

-- The label `drop_data_ep`.
unfoldable pub drop_data_ep : Ctx → Substream → Resp → Ctx
drop_data_ep c subs resp = record c {
  qdev = iommu_unmap c.qdev xfer_ring (iova_mask resp.tr_data.iova) page_size;
  side = (remove_endpoint c.side subs.data_endpoint.ep_index).0;
}

abbrev pub drop_sync : Ctx → Option Endpoint → Resp → Ctx
drop_sync c none resp = c
drop_sync c (some ep) resp = record c {
  qdev = iommu_unmap c.qdev xfer_ring (iova_mask resp.tr_sync.iova) page_size;
  side = (remove_endpoint c.side ep.ep_index).0;
}

-- The label `drop_sync_ep`, with what follows it.
unfoldable pub drop_sync_ep : Ctx → Substream → Resp → Ctx
drop_sync_ep c subs resp = drop_data_ep (drop_sync c subs.sync_endpoint resp) subs resp

-- The label `free_sec_ring`, with what follows it.
unfoldable pub free_sec_ring : Ctx → Substream → Resp → Ctx
free_sec_ring c subs resp = drop_sync_ep (record c { side = remove_interrupter c.side }) subs resp

-- The label `unmap_er`, with what follows it.
unfoldable pub unmap_er : Ctx → Substream → Resp → Ctx
unmap_er c subs resp =
    free_sec_ring (record c { qdev = iommu_unmap c.qdev event_ring iova_base page_size }) subs resp

abbrev pipe_of : Option Endpoint → ℕ
pipe_of none = 0
pipe_of (some ep) = ep.pipe

abbrev ep_num_of : Option Endpoint → ℕ
ep_num_of none = 0
ep_num_of (some ep) = ep.ep_num

-- The interface's entry for the stream.
unfoldable pub cached_info : Call → Resp → ℕ → IntfInfo
cached_info k resp cpu = record {
  data_xfer_ring_va = iova_mask resp.tr_data.iova;
  data_xfer_ring_size = page_size;
  sync_xfer_ring_va = iova_mask resp.tr_sync.iova;
  sync_xfer_ring_size = page_size;
  xfer_buf_iova = iova_mask resp.xfer_buff.iova;
  xfer_buf_size = resp.xfer_buff.size;
  xfer_buf_dma = resp.xfer_buff.dma;
  xfer_buf_cpu = cpu;
  data_ep_pipe = k.subs.data_endpoint.pipe;
  sync_ep_pipe = pipe_of k.subs.sync_endpoint;
  data_ep_idx = k.subs.data_endpoint.ep_num;
  sync_ep_idx = ep_num_of k.subs.sync_endpoint;
  intf_num = k.subs.iface;
  pcm_card_num = u8 k.card_num;
  pcm_dev_num = token_dev_num k.usb_token;
  direction = u8 k.subs.direction;
  in_use = true;
}

abbrev or_zero : Option ℕ → ℕ
or_zero none = 0
or_zero (some n) = n

abbrev infos : Option (List IntfInfo) → List IntfInfo
infos none = []
infos (some l) = l

-- The entry is cached in the device record `dev`, and the slot of the card is marked.
unfoldable pub cache : Call → Ctx → UaudioDev → Resp → ℕ → Done
cache k c dev resp cpu = record {
  ctx = record c { qdev = record (c.qdev) { card_slot = update c.qdev.card_slot k.card_num true } };
  dev = record dev {
    usb_core_id = or_zero resp.controller_num;
    info = some (set (infos dev.info) k.info_idx (cached_info k resp cpu));
  };
  resp = resp;
  ret = ok 0;
}

-- The last part: the first stream of a card allocates the array, a later one counts.
unfoldable pub publish : Call → Ctx → Resp → ℕ → Done
publish k c resp cpu =
    if k.dev.in_use
    then cache k c (record (k.dev) { kref = k.dev.kref + 1 }) resp cpu
    else if not k.env.info_allocated
    then record {
      ctx = unmap_er c k.subs resp;
      dev = record (k.dev) { kref = 1; num_intf = k.subs.num_interfaces; info = none };
      resp = resp;
      ret = err enomem;
    }
    else cache k c
        (record (k.dev) {
          kref = 1;
          num_intf = k.subs.num_interfaces;
          info = some (replicate k.subs.num_interfaces zero_info);
          has_udev = true;
          in_use = true;
        })
        resp cpu

abbrev pub is_invalid : QmiSpeed → Bool
is_invalid invalid_v01 = true
is_invalid _ = false

abbrev ret_ok : Ret → Option ℕ
ret_ok (ok n) = some n
ret_ok (err e) = none

abbrev number : Ret → ℕ
number (ok n) = n
number (err e) = 0

abbrev pub failed : Call → Ctx → Resp → Ret → Done
failed k c resp ret = record { ctx = c; dev = k.dev; resp = resp; ret = ret }

-- `er_mapped` is set once the event ring has an address.
abbrev pub er_marked : Ctx → Ctx
er_marked c = record c { qdev = record (c.qdev) { er_mapped = true } }

abbrev pub numbered : Call → Ctx → Resp → Resp
numbered k c resp = record resp {
  interrupter_num = number (interrupter_id c.side);
  speed_info = get_speed_info k.subs.speed;
}

-- The buffer, after the event ring is set up and marked as mapped.
unfoldable pub with_buffer : Call → Ctx → Resp → Done
with_buffer k c resp =
    if is_invalid (get_speed_info k.subs.speed)
    then failed k (free_sec_ring (er_marked c) k.subs (numbered k c resp)) (numbered k c resp)
        (err enodev)
    else let b = transfer_buffer_setup (er_marked c) k.xfer_buff_size k.env.buffer in
      if is_err b.3
      then failed k (free_sec_ring b.0 k.subs (numbered k c resp)) (numbered k c resp) (err enomem)
      else publish k b.0
          (record (numbered k c resp) { xfer_buff = b.1; xhci_mem_info_valid = true }) b.2

abbrev pub controlled : Call → Resp → Resp
controlled k resp = record resp { controller_num = ret_ok k.env.controller }

abbrev pub evented : Call → Resp → MemInfo → Resp
evented k resp evt_ring = record (controlled k resp) { evt_ring = evt_ring }

-- The event ring, after the endpoints.
unfoldable pub with_event : Call → Ctx → Resp → Done
with_event k c resp =
    let e = event_ring_setup c k.env.event in
    if is_err e.2
    then failed k (drop_sync_ep e.0 k.subs (controlled k resp)) (controlled k resp) e.2
    else with_buffer k e.0 (evented k resp e.1)

abbrev pub synced : Resp → MemInfo → Resp
synced resp tr_sync = record resp { tr_sync = tr_sync; has_sync_ep_desc = true }

-- The sync endpoint, if there is one, after the data endpoint.
unfoldable pub with_sync : Option Endpoint → Call → Ctx → Resp → Done
with_sync none k c resp = with_event k c resp
with_sync (some ep) k c resp =
    let s = endpoint_setup c ep k.env.sync_ep in
    if is_err s.2
    then failed k (drop_data_ep s.0 k.subs resp) resp s.2
    else with_event k s.0 (synced resp s.1)

abbrev pub described : Call → Resp → Resp
described k resp = record resp { slot_id = some k.subs.slot_id }

abbrev pub data_set : Call → Resp → MemInfo → Resp
data_set k resp tr_data = record (described k resp) { tr_data = tr_data; has_data_ep_desc = true }

-- `prepare_qmi_response` for the card that the request's token names.
unfoldable pub prepare_qmi_response : Call → Ctx → Resp → Done
prepare_qmi_response k c resp =
    if not k.dev.has_ctrl_intf
    then failed k c resp (err enodev)
    else let p = populate_uac_desc resp k.env.desc in
      if is_err p.1
      then failed k c p.0 p.1
      else if not k.env.private_data
      then failed k c (described k p.0) (err enodev)
      else let d = endpoint_setup c k.subs.data_endpoint k.env.data_ep in
        if is_err d.2
        then failed k d.0 (described k p.0) d.2
        else with_sync k.subs.sync_endpoint k d.0 (data_set k p.0 d.1)
