-- ===== src/ComprDai.antt =====
-- The compressed streams of source-reference/kernel/qdsp6/q6apm-dai.c: how many bytes the application
-- has handed over, how many have been sent to the DSP and how many it has taken. The 64-bit counters
-- are numbers, which do not come near 2 ^ 64. `none` is a fault in the graph.
pub mod Sent
mod Examples
use audioreach_usb_offload_r.Prelude.{
  and_then, ℕ, zero, suc, ◌+◌, ◌-◌, ◌*◌, ◌/◌, ◌%◌, Bool, true, false, not, ◌&&◌, ◌||◌, Option, none,
  some, List, [], ◌∷◌, ltb, leb, ◌==◌, if◌then◌else◌,
}
use Prim.Native.Nat.{bit_and}
use audioreach_usb_offload_r.Iova.{u64}
use audioreach_usb_offload_r.Stream.{Ret, ok, err, einval, u32}
use audioreach_usb_offload_r.Apm.{Graph, DataPacket, Sending, write_async}
use audioreach_usb_offload_r.Apm.Callback.{ClientEvent, write_done, read_done, eos_done}
use audioreach_usb_offload_r.PcmDai.{StreamState, idle, stopped, running, no_timestamp}

-- `struct q6apm_dai_rtd` of a compressed stream, with `partial_drain` of its `struct snd_compr_stream`.
pub record ComprRtd : Type 0 where
  pub graph : Graph
  pub state : StreamState
  pub pcm_count : ℕ
  pub pcm_size : ℕ
  pub bytes_sent : ℕ
  pub bytes_received : ℕ
  pub copied_total : ℕ
  pub next_track : Bool
  pub notify_on_drain : Bool
  pub partial_drain : Bool

-- What is done for the client: a write, one of n bytes whose packet cannot be allocated, the end of
-- the stream, a drain notification.
pub data Action : Type 0 where
  writes : DataPacket → Action
  loses : ℕ → Action
  sends_eos notifies_drain : Action

abbrev pub is_running : StreamState → Bool
is_running idle = false
is_running stopped = false
is_running running = true

abbrev last_buffer_flag : ℕ
last_buffer_flag = 1073741824

-- The action of a write of n bytes, by the packet that was handed over.
abbrev pub write_action : ℕ → List DataPacket → Action
write_action n [] = loses n
write_action n (p ∷ ps) = writes p

-- `q6apm_write_async` of n bytes, which count as sent whatever it returns.
abbrev pub sent : ComprRtd → ℕ → ℕ → Sending → List Action → Option (ComprRtd × List Action)
sent s n wflags x more =
    and_then (write_async s.graph n wflags x) (λ r.
      some (record s { graph = r.0; bytes_sent = s.bytes_sent + n }, write_action n r.1 ∷ more))

-- The bytes that wait, where the difference of the counters wraps around.
abbrev pub avail : ComprRtd → ℕ
avail s = u64 (s.bytes_received + 18446744073709551616 - s.bytes_sent)

-- A whole fragment if more waits, else all that waits; the second part is `is_last_buffer`.
abbrev pub next_write : ComprRtd → ℕ × Bool
next_write s =
    if ltb s.pcm_count (avail s)
    then (s.pcm_count, false)
    else (u32 (avail s), s.partial_drain || s.notify_on_drain)

abbrev pub after_write : ComprRtd → Sending → ℕ × Bool → Option (ComprRtd × List Action)
after_write s x (n, is_last) =
    if n == 0
    then some (s, [])
    else sent s n (if s.partial_drain && is_last then last_buffer_flag else 0) x
        (if s.notify_on_drain && is_last then sends_eos ∷ [] else [])

-- `event_handler_compr`; x is what its write meets.
unfoldable pub event_handler_compr :
    ComprRtd → ClientEvent → Sending → Option (ComprRtd × List Action)
unfolding write_async
event_handler_compr s (eos_done token) x =
    if s.notify_on_drain
    then some (record s { notify_on_drain = false }, notifies_drain ∷ [])
    else some (record s { state = stopped }, [])
event_handler_compr s (write_done token) x =
    let t = record s { copied_total = s.copied_total + token / 65536 } in
    if is_running t.state then after_write t x (next_write t) else some (t, [])
event_handler_compr s (read_done token) x = some (s, [])

-- ALIGN(x, a), which clears the bits of a - 1.
abbrev pub align : ℕ → ℕ → ℕ
align x a = x + (a - 1) - bit_and (x + (a - 1)) (a - 1)

-- The start of the next track: the counters move to the next fragment.
abbrev pub tracked : ComprRtd → ComprRtd
tracked s =
    if s.next_track
    then record s {
      next_track = false;
      bytes_received = align s.bytes_received s.pcm_count;
      copied_total = align s.copied_total s.pcm_count;
      bytes_sent = align s.bytes_sent s.pcm_count;
    }
    else s

abbrev pub kicked : ComprRtd → Sending → Option (ComprRtd × List Action)
kicked s x = sent s (if ltb (avail s) s.pcm_count then u32 (avail s) else s.pcm_count) 0 x []

-- `q6apm_compr_copy` of `count` bytes, once they have been copied: if nothing is in flight, the DSP is
-- sent what waits.
unfoldable pub compr_copy : ComprRtd → ℕ → Sending → Option (ComprRtd × List Action)
unfolding write_async
compr_copy s count x =
    let in_flight = u64 (s.bytes_received + 18446744073709551616 - s.copied_total) in
    let t = tracked s in
    let u = record t { bytes_received = t.bytes_received + count } in
    if is_running u.state && in_flight == 0 then kicked u x else some (u, [])

-- `q6apm_dai_compr_ack`
unfoldable pub compr_ack : ComprRtd → ℕ → ComprRtd
compr_ack s count = record s { bytes_received = s.bytes_received + count }

-- The commands of `q6apm_dai_compr_trigger`.
pub data ComprTrigger : Type 0 where
  starts stops suspends next_tracks drains other_command : ComprTrigger

-- `q6apm_dai_compr_trigger`: the start writes a fragment that does not count as sent.
unfoldable pub compr_trigger :
    ComprRtd → ComprTrigger → Sending → Option (ComprRtd × List Action × Ret)
unfolding write_async
compr_trigger s starts x =
    and_then (write_async s.graph s.pcm_count no_timestamp x)
      (λ r. some (record s { graph = r.0 }, write_action s.pcm_count r.1 ∷ [], r.2))
compr_trigger s stops x = some (s, [], ok 0)
compr_trigger s suspends x = some (s, [], ok 0)
compr_trigger s next_tracks x = some (record s { next_track = true }, [], ok 0)
compr_trigger s drains x = some (record s { notify_on_drain = true }, [], ok 0)
compr_trigger s other_command x = some (s, [], err einval)

-- `q6apm_dai_compr_pointer`: the bytes taken, and the offset in the ring.
unfoldable pub compr_pointer : ComprRtd → ℕ × ℕ
compr_pointer s = (s.copied_total, s.copied_total % s.pcm_size)
