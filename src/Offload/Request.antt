-- ===== src/Offload/Request.antt =====
-- The parts of `handle_uaudio_stream_req` of upstream-src/sound/usb/qcom/qc_audio_offload.c: the
-- lookups that a request starts with, the two ways to start and stop the endpoints, and the clean-up.
use audioreach_usb_offload_r.Prelude.{
  and_then, ℕ, zero, suc, ◌+◌, ◌-◌, Bool, true, false, not, ◌||◌, ◌&&◌, Option, none, some, List,
  [], ◌∷◌, leb, ltb, ◌==◌, if◌then◌else◌,
}
use audioreach_usb_offload_r.Iova.{page_size}
use audioreach_usb_offload_r.Stream.{Ret, ok}
use audioreach_usb_offload_r.Sideband.{update, remove_interrupter}
use audioreach_usb_offload_r.Offload.{
  UaudioQmiDev, UaudioDev, IntfInfo, Ctx, Substream, iova_base, sndrv_cards,
}
use audioreach_usb_offload_r.Offload.Iommu.{event_ring, xfer_ring, xfer_buf, iommu_unmap}
use audioreach_usb_offload_r.Offload.Setup.{is_err}

-- A `struct snd_usb_substream` of a chip: `ep_num` is 0 where the direction is absent, `wired` says
-- whether its stream, PCM and chip pointers are set, `has_audiofmt` whether `cur_audiofmt` is.
pub record Subs : Type 0 where
  pub substream : Substream
  pub ep_num : ℕ
  pub opened : Bool
  pub wired : Bool
  pub has_audiofmt : Bool

-- A `struct snd_usb_stream` with its substreams for playback and capture.
pub record SndStream : Type 0 where
  pub pcm_index : ℕ
  pub playback : Subs
  pub capture : Subs

pub record Chip : Type 0 where
  pub shutdown : Bool
  pub system_suspend : Bool
  pub has_ctrl_intf : Bool
  pub pcm_devs : ℕ
  pub pcm_list : List SndStream

abbrev pub substream_of : SndStream → ℕ → Subs
substream_of str zero = str.playback
substream_of str (suc n) = str.capture

-- The number of streams that have an endpoint in a direction.
unfoldable pub get_pcm_num : List SndStream → ℕ → ℕ
get_pcm_num [] direction = 0
get_pcm_num (str ∷ rest) direction =
    (if (substream_of str direction).ep_num == 0 then 0 else 1) + get_pcm_num rest direction

unfoldable pub find_in : List SndStream → ℕ → ℕ → Option Subs
find_in [] pcm_idx direction = none
find_in (str ∷ rest) pcm_idx direction =
    if str.pcm_index == pcm_idx
    then some (substream_of str direction)
    else find_in rest pcm_idx direction

-- The last direction is SNDRV_PCM_STREAM_CAPTURE, 1.
unfoldable pub find_substream : Option Chip → ℕ → ℕ → Option Subs
find_substream none pcm_idx direction = none
find_substream (some chip) pcm_idx direction =
    if chip.shutdown
    then none
    else if leb chip.pcm_devs pcm_idx
    then none
    else if ltb 1 direction
    then none
    else find_in chip.pcm_list pcm_idx direction

-- `subs->opened = v` for the substream that `find_in` finds.
abbrev pub set_in : SndStream → ℕ → Bool → SndStream
set_in str zero v = record str { playback = record (str.playback) { opened = v } }
set_in str (suc n) v = record str { capture = record (str.capture) { opened = v } }

unfoldable pub set_opened : List SndStream → ℕ → ℕ → Bool → List SndStream
set_opened [] pcm_idx direction v = []
set_opened (str ∷ rest) pcm_idx direction v =
    if str.pcm_index == pcm_idx
    then set_in str direction v ∷ rest
    else str ∷ set_opened rest pcm_idx direction v

-- The loop of `info_idx_from_ifnum` over the first `num_intf` entries, from index i on.
unfoldable pub info_scan : ℕ → ℕ → List IntfInfo → ℕ → Bool → Option ℕ
info_scan zero i infos intf_num enable = none
info_scan (suc n) i [] intf_num enable = none
info_scan (suc n) i (info ∷ infos) intf_num enable =
    if enable && not info.in_use
    then some i
    else if not enable && info.intf_num == intf_num
    then some i
    else info_scan n (i + 1) infos intf_num enable

-- `info_idx_from_ifnum`; `none` is -EINVAL. A null table with `num_intf` above 0, which only a failed
-- allocation leaves, is read as -EINVAL too: a disable request for it faults either way.
unfoldable pub info_idx_from_ifnum : UaudioDev → ℕ → Bool → Option ℕ
info_idx_from_ifnum dev intf_num enable = elim dev.info [
  | none ↦ if enable then some 0 else none
  | some infos ↦ info_scan dev.num_intf 0 infos intf_num enable
]

-- What the sound driver answers while the endpoints are opened.
pub record EnableEnv : Type 0 where
  pub hw_params : Ret
  pub shutdown_now : Bool
  pub lock : Ret
  pub sync_prepare : Ret
  pub data_prepare : Ret

-- `enable_audio_stream`: whether the endpoints stay open and the device resumed, and the return
-- value. `snd_usb_hw_free` and `snd_usb_autosuspend` behind the labels undo both.
unfoldable pub enable_audio_stream : Bool → EnableEnv → Bool × Ret
enable_audio_stream has_sync env =
    if is_err env.hw_params
    then (false, env.hw_params)
    else if env.shutdown_now
    then (true, ok 0)
    else if is_err env.lock
    then (false, env.lock)
    else if has_sync && is_err env.sync_prepare
    then (false, env.sync_prepare)
    else if is_err env.data_prepare
    then (false, env.data_prepare)
    else (true, ok 0)

-- `uaudio_dev_intf_cleanup`: the rings and the buffer go back, and the entry is free. The coherent
-- buffer is freed by its DMA address.
unfoldable pub erase : ℕ → List ℕ → List ℕ
erase dma [] = []
erase dma (d ∷ ds) = if d == dma then ds else d ∷ erase dma ds

abbrev unmap_info : UaudioQmiDev → IntfInfo → UaudioQmiDev
unmap_info q info =
    iommu_unmap
      (iommu_unmap (iommu_unmap q xfer_ring info.data_xfer_ring_va info.data_xfer_ring_size)
        xfer_ring info.sync_xfer_ring_va info.sync_xfer_ring_size)
      xfer_buf info.xfer_buf_iova info.xfer_buf_size

unfoldable pub intf_cleanup : Ctx → IntfInfo → Ctx × IntfInfo
unfolding erase
intf_cleanup c info = (
  record c { qdev = unmap_info c.qdev info; coherent = erase info.xfer_buf_dma c.coherent },
  record info {
    data_xfer_ring_va = 0;
    data_xfer_ring_size = 0;
    sync_xfer_ring_va = 0;
    sync_xfer_ring_size = 0;
    xfer_buf_iova = 0;
    xfer_buf_size = 0;
    xfer_buf_cpu = 0;
    xfer_buf_dma = 0;
    in_use = false;
  },
)

-- Is a slot of the cards below n set?
unfoldable pub any_slot : ℕ → (ℕ → Bool) → Bool
any_slot zero slots = false
any_slot (suc n) slots = slots n || any_slot n slots

-- `uaudio_event_ring_cleanup_free` for card `card_num`.
unfoldable pub event_ring_cleanup_free : Ctx → ℕ → Ctx
event_ring_cleanup_free c card_num =
    let slots = update c.qdev.card_slot card_num false in
    let q = record (c.qdev) { card_slot = slots } in
    if any_slot sndrv_cards slots then record c { qdev = q } else record c {
      qdev = iommu_unmap q event_ring iova_base page_size;
      side = remove_interrupter c.side;
    }

-- The loop of `uaudio_dev_cleanup` over the entries in use; `none` is a read behind the last of them.
unfoldable pub cleanup_infos : ℕ → Ctx → List IntfInfo → Option Ctx
unfolding intf_cleanup
cleanup_infos zero c infos = some c
cleanup_infos (suc n) c [] = none
cleanup_infos (suc n) c (info ∷ infos) =
    cleanup_infos n (if info.in_use then (intf_cleanup c info).0 else c) infos

abbrev pub info_list : Option (List IntfInfo) → List IntfInfo
info_list none = []
info_list (some l) = l

-- `uaudio_dev_cleanup`; `none` is a fault: a table that is null or too short for `num_intf`.
unfoldable pub dev_cleanup : Ctx → UaudioDev → ℕ → Option (Ctx × UaudioDev)
unfolding cleanup_infos event_ring_cleanup_free
dev_cleanup c dev card_num =
    if not dev.has_udev
    then some (c, dev)
    else and_then (cleanup_infos dev.num_intf c (info_list dev.info)) (λ d. some (
      event_ring_cleanup_free d card_num,
      record dev { num_intf = 0; info = none; has_udev = false },
    ))

-- `kref_put` with `uaudio_dev_release`.
unfoldable pub dev_put : Ctx → UaudioDev → ℕ → Ctx × UaudioDev
unfolding event_ring_cleanup_free
dev_put c dev card_num =
    if dev.kref == 1
    then (event_ring_cleanup_free c card_num, record dev { kref = 0; in_use = false })
    else (c, record dev { kref = dev.kref - 1 })
