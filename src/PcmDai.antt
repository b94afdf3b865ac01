-- ===== src/PcmDai.antt =====
-- The PCM streams of source-reference/kernel/qdsp6/q6apm-dai.c: what is queued for the DSP when the
-- application has written or a buffer is done, and where the stream is. `none` is a fault in the graph.
pub mod Ack
pub mod Pointer
mod Examples
use audioreach_usb_offload_r.Prelude.{
  ◌++◌, and_then, ℕ, zero, suc, ◌+◌, ◌-◌, ◌*◌, ◌/◌, Bool, true, false, Option, none, some, List, [],
  ◌∷◌, ltb, ◌==◌, if◌then◌else◌,
}
use audioreach_usb_offload_r.Iova.{u64}
use audioreach_usb_offload_r.Stream.{Ret, ok, err, einval, u32}
use audioreach_usb_offload_r.Apm.{
  Graph, Direction, playback, capture, DataPacket, Sending, write_async, read, get_hw_pointer,
}
use audioreach_usb_offload_r.Apm.Callback.{ClientEvent, write_done, read_done, eos_done}

-- `enum stream_state`
pub data StreamState : Type 0 where
  idle stopped running : StreamState

-- `struct q6apm_dai_rtd`, as the functions of a PCM stream use it while the stream is set up.
pub record DaiRtd : Type 0 where
  pub graph : Graph
  pub state : StreamState
  pub pcm_count : ℕ
  pub queue_ptr : ℕ

abbrev pub no_timestamp : ℕ
no_timestamp = 65280

-- A difference of `snd_pcm_uframes_t`, in periods, as an `int`; 0 stands for a negative one too, for
-- which the loop does nothing.
abbrev pub avail_periods : ℕ → ℕ → ℕ → ℕ
avail_periods appl_ptr queue_ptr period_size =
    let n = u32 (u64 (appl_ptr + 18446744073709551616 - queue_ptr) / period_size) in
    if ltb n 2147483648 then n else 0

abbrev pub queued : DaiRtd → ℕ → Graph → DaiRtd
queued s period_size g = record s { graph = g; queue_ptr = u64 (s.queue_ptr + period_size) }

-- The loop of `q6apm_dai_ack`: the packets that are handed over. `outcome i` is what write i meets.
unfoldable pub ack_loop :
    DaiRtd → ℕ → (ℕ → Sending) → ℕ → ℕ → Option (DaiRtd × List DataPacket × Ret)
unfolding write_async
ack_loop s period_size outcome i zero = some (s, [], ok 0)
ack_loop s period_size outcome i (suc n) =
    and_then (write_async s.graph s.pcm_count no_timestamp (outcome i)) (λ r. elim r.2 [
      | err e ↦ some (record s { graph = r.0 }, r.1, err e)
      | ok j ↦
          and_then (ack_loop (queued s period_size r.0) period_size outcome (i + 1) n)
            (λ q. some (q.0, r.1 ++ q.1, q.2))
    ])

-- `q6apm_dai_ack`
unfoldable pub dai_ack :
    DaiRtd → Direction → ℕ → ℕ → (ℕ → Sending) → Option (DaiRtd × List DataPacket × Ret)
unfolding ack_loop
dai_ack s capture appl_ptr period_size outcome = some (s, [], ok 0)
dai_ack s playback appl_ptr period_size outcome =
    ack_loop s period_size outcome 0 (avail_periods appl_ptr s.queue_ptr period_size)

-- `event_handler`: after a read the next one is queued while the stream runs.
unfoldable pub event_handler : DaiRtd → ClientEvent → Option (DaiRtd × List DataPacket)
unfolding read
event_handler s (eos_done token) = some (record s { state = stopped }, [])
event_handler s (write_done token) = some (s, [])
event_handler s (read_done token) = elim s.state [
  | running ↦ and_then (read s.graph) (λ r. some (record s { graph = r.0 }, r.1 ∷ []))
  | idle ↦ some (s, [])
  | stopped ↦ some (s, [])
]

-- The commands of `q6apm_dai_trigger`.
pub data Trigger : Type 0 where
  start resume pause_release stop suspend pause_push other_trigger : Trigger

-- `q6apm_dai_trigger`
unfoldable pub dai_trigger : DaiRtd → Trigger → DaiRtd × Ret
dai_trigger s start = (s, ok 0)
dai_trigger s resume = (s, ok 0)
dai_trigger s pause_release = (s, ok 0)
dai_trigger s stop = (record s { state = stopped }, ok 0)
dai_trigger s suspend = (s, ok 0)
dai_trigger s pause_push = (s, ok 0)
dai_trigger s other_trigger = (s, err einval)

-- `q6apm_dai_pointer`, in frames.
unfoldable pub dai_pointer : DaiRtd → Direction → ℕ → ℕ
unfolding get_hw_pointer
dai_pointer s dir period_size =
    let ptr = u64 (get_hw_pointer s.graph dir * period_size) in if ptr == 0 then 0 else ptr - 1
