-- ===== src/Offload/Session.antt =====
-- Cards that come and go in upstream-src/sound/usb/qcom/qc_audio_offload.c: probe, disconnect and
-- suspend of a sound card, and the disconnect indication. `none` is a fault: an access through a null
-- pointer.
pub mod Cards
pub mod Pcms
pub mod Stop
mod Examples
use audioreach_usb_offload_r.Prelude.{
  and_then, ℕ, zero, suc, ◌+◌, ◌-◌, Bool, true, false, not, ◌||◌, ◌&&◌, Option, none, some, List,
  [], ◌∷◌, leb, ltb, ◌==◌, if◌then◌else◌,
}
use audioreach_usb_offload_r.Stream.{Ret, ok, err}
use audioreach_usb_offload_r.Sideband.{
  State, VirtDevice, remove_endpoint, register, unregister, is_set,
}
use audioreach_usb_offload_r.Offload.{UaudioQmiDev, UaudioDev, IntfInfo, Ctx, sndrv_cards}
use audioreach_usb_offload_r.Offload.Request.{
  Subs, SndStream, Chip, get_pcm_num, find_substream, dev_cleanup,
}
use audioreach_usb_offload_r.Offload.Handler.{
  Card, Service, Sdev, Req, HandlerEnv, Reply, fault, replied, set_card,
}
use audioreach_usb_offload_r.Offload.Handler.Dispatch.{handle_uaudio_stream_req}

-- A request of the client: its node and port, the message and the answers to it.
pub record Incoming : Type 0 where
  pub node : ℕ
  pub port : ℕ
  pub req : Req
  pub env : HandlerEnv

-- The requests are handled one after another.
abbrev state_of : Reply → Option Service
state_of fault = none
state_of (replied s ret) = some s

unfoldable pub serve : Service → List Incoming → Option Service
serve s [] = some s
serve s (m ∷ ms) = elim (state_of (handle_uaudio_stream_req s m.node m.port m.req m.env)) [
  | none ↦ none
  | some t ↦ serve t ms
]

-- The locks are dropped while the driver waits for the DSP: `arrives` is what is handled meanwhile,
-- `waited` what `wait_event_interruptible_timeout` returns, 0 for a timeout, and `late` what is
-- handled after the wait, and what it does to `in_use`, before `qdev_mutex` is taken again.
pub record Wait : Type 0 where
  pub arrives : List Incoming
  pub waited : Ret
  pub late : List Incoming

abbrev pub set_in_use : Service → ℕ → Bool → Service
set_in_use s n v =
    let card = s.cards n in set_card s n (record card { dev = record (card.dev) { in_use = v } })

abbrev pub awaited : Service → ℕ → Ret → Service
awaited s n (ok zero) = set_in_use s n false
awaited s n (ok (suc k)) = s
awaited s n (err e) = set_in_use s n false

-- `uaudio_send_disconnect_ind` for card n: the state, and the value returned. A failure to send is
-- only logged.
unfoldable pub send_disconnect_ind : Service → ℕ → Wait → Option (Service × Ret)
unfolding serve
send_disconnect_ind s n wait =
    if not (s.cards n).dev.in_use
    then some (s, ok 0)
    else if not (s.cards n).dev.has_udev
    then none
    else elim (serve s wait.arrives) [
      | none ↦ none
      | some t ↦ elim (serve (awaited t n wait.waited) wait.late) [
        | none ↦ none
        | some u ↦ some (u, wait.waited)
      ]
    ]

-- The globals with what `uaudio_dev_cleanup` leaves of them and of card n.
abbrev pub cleaned : Service → ℕ → Ctx × UaudioDev → Service
cleaned s n d =
    let card = s.cards n in
    record (set_card s n (record card { dev = d.1; side = d.0.side })) {
      qdev = some d.0.qdev;
      coherent = d.0.coherent;
    }

-- `uaudio_dev_cleanup` on the globals.
unfoldable pub cleanup_card : Service → ℕ → Option Service
cleanup_card s n = if not (s.cards n).dev.has_udev then some s else elim s.qdev [
  | none ↦ none
  | some q ↦
      let c : Ctx = record { qdev = q; side = (s.cards n).side; coherent = s.coherent } in
      and_then (dev_cleanup c (s.cards n).dev n) (λ d. some (cleaned s n d))
]

-- From the label `done` of the disconnect handler on: the last interface unregisters the card.
unfoldable pub disconnected : Service → ℕ → ℕ → Service
disconnected s n num_interfaces =
    if not (num_interfaces == 1)
    then s
    else let card = s.cards n in
      set_card s n (record card { side = unregister card.side; chip = none; sdev = none })

abbrev then_done : ℕ → ℕ → Option Service → Option Service
then_done n num_interfaces none = none
then_done n num_interfaces (some s) = some (disconnected s n num_interfaces)

abbrev then_cleanup : ℕ → Option (Service × Ret) → Option Service
then_cleanup n none = none
then_cleanup n (some (s, ret)) = cleanup_card s n

-- `qc_usb_audio_offload_disconnect` for the chip of card n.
unfoldable pub offload_disconnect : Service → ℕ → ℕ → Wait → Option Service
unfolding disconnected cleanup_card send_disconnect_ind
offload_disconnect s n num_interfaces wait =
    if leb sndrv_cards n
    then some s
    else if not (is_set (s.cards n).chip)
    then some s
    else if not (s.cards n).dev.has_udev
    then some (disconnected s n num_interfaces)
    else then_done n num_interfaces (then_cleanup n (send_disconnect_ind s n wait))

-- `qc_usb_audio_offload_suspend`
unfoldable pub offload_suspend : Service → ℕ → Wait → Option Service
unfolding send_disconnect_ind
offload_suspend s n wait =
    if leb sndrv_cards n
    then some s
    else elim (send_disconnect_ind s n wait) [ none ↦ none | some r ↦ some r.0 ]

-- The loop of `qc_usb_audio_offload_fill_avail_pcms` from index `idx` on, as the entries that it
-- writes. `device` is the PCM device number of a stream.
unfoldable pub fill_avail_pcms : (SndStream → ℕ) → ℕ → ℕ → List SndStream → List ℕ
fill_avail_pcms device num_playback idx [] = []
fill_avail_pcms device num_playback idx (str ∷ rest) =
    let skipped = fill_avail_pcms device num_playback idx rest in
    let after = fill_avail_pcms device num_playback (idx + 1) rest in
    if str.playback.ep_num == 0
    then if leb num_playback idx then [] else skipped
    else if leb num_playback (idx + 1)
    then device str ∷ []
    else device str ∷ after

-- What probe is given: whether q6usb has its data, the allocations, the device that the sideband is
-- registered for with its answers, and whether this is the last interface of the card.
pub record ProbeEnv : Type 0 where
  pub priv_data : Bool
  pub sdev_allocated : Bool
  pub vdev : VirtDevice
  pub sb_id : ℕ
  pub sb_supported : Bool
  pub sb_allocated : Bool
  pub vdev_present : Bool
  pub last_iface : Bool
  pub ppcm_allocated : Bool
  pub device : SndStream → ℕ

-- The card once its sideband is there, up to the return.
abbrev pub populated : Card → Chip → Sdev → State → ProbeEnv → Card
populated card chip sdev side env =
    let num = get_pcm_num chip.pcm_list 0 in
    if not env.last_iface
    then record card { side = side; chip = some chip; sdev = some sdev }
    else if not env.ppcm_allocated
    then record card { side = unregister side; chip = none; sdev = none }
    else record card {
      side = side;
      chip = some chip;
      sdev = some (record {
        num_playback = num;
        ppcm_idx = fill_avail_pcms env.device num 0 chip.pcm_list;
      });
    }

abbrev no_sdev : Sdev
no_sdev = record { num_playback = 0; ppcm_idx = [] }

abbrev sdev_of : Option Sdev → Sdev
sdev_of none = no_sdev
sdev_of (some sdev) = sdev

unfoldable pub probe_card : Card → Chip → ProbeEnv → Card
unfolding fill_avail_pcms
probe_card card chip env =
    if is_set card.chip
    then populated card chip (sdev_of card.sdev) card.side env
    else if not env.sdev_allocated
    then card
    else elim (register env.vdev env.sb_id env.sb_supported env.sb_allocated env.vdev_present) [
      | none ↦ record card { sdev = none; chip = none }
      | some side ↦ populated card chip no_sdev side env
    ]

-- `qc_usb_audio_offload_probe`
unfoldable pub offload_probe : Service → ℕ → Chip → ProbeEnv → Service
unfolding probe_card
offload_probe s n chip env =
    if not env.priv_data || get_pcm_num chip.pcm_list 0 == 0
    then s
    else set_card s n (probe_card (s.cards n) chip env)
