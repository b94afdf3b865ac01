-- ===== src/Apm.antt =====
-- The graphs of source-reference/kernel/qdsp6/q6apm.c: the buffers of a stream that the CPU and the DSP
-- share, and the data commands. `none` is a fault: an access through a null pointer or outside an array.
pub mod Callback
pub mod Command
pub mod Memory
pub mod Buffers
pub mod Tokens
pub mod Remap
pub mod Regions
pub mod Graphs
mod Examples
use audioreach_usb_offload_r.Prelude.{
  and_then, ℕ, zero, suc, ◌+◌, ◌*◌, ◌/◌, ◌%◌, ◌^◌, Bool, true, false, not, ◌&&◌, ◌||◌, Option, none,
  some, List, [], ◌∷◌, ◌++◌, get_elem?, leb, ltb, ◌==◌, if◌then◌else◌,
}
use Prim.Native.Nat.{bit_or}
use audioreach_usb_offload_r.Iova.{u64}
use audioreach_usb_offload_r.Stream.{Ret, ok, err, einval, enomem, u32}

-- `struct audio_buffer`
pub record AudioBuffer : Type 0 where
  pub phys : ℕ
  pub size : ℕ

-- `struct audioreach_graph_data`; `buf` is none where the pointer is null.
pub record GraphData : Type 0 where
  pub buf : Option (List AudioBuffer)
  pub num_periods : ℕ
  pub dsp_buf : ℕ
  pub mem_map_handle : ℕ
  pub hw_ptr : ℕ

-- The operation codes that `graph_callback` and the commands here tell apart.
pub data Opcode : Type 0 where
  no_opcode write_buffer_done map_regions_rsp read_buffer_done eos_rendered basic_rsp : Opcode
  unmap_regions map_regions media_format set_cfg other_opcode : Opcode

-- `struct q6apm_graph`: the two directions, the last result, whether `ar_graph` and `cb` are set, and
-- the instances of the shared memory modules that `q6apm_find_module_by_mid` finds.
pub record Graph : Type 0 where
  pub rx : GraphData
  pub tx : GraphData
  pub result_opcode : Opcode
  pub result_status : ℕ
  pub has_ar_graph : Bool
  pub has_cb : Bool
  pub rx_iid : Option ℕ
  pub tx_iid : Option ℕ

-- SNDRV_PCM_STREAM_PLAYBACK and SNDRV_PCM_STREAM_CAPTURE
pub data Direction : Type 0 where
  playback capture : Direction

abbrev pub data_of : Graph → Direction → GraphData
data_of g playback = g.rx
data_of g capture = g.tx

abbrev pub set_data : Graph → Direction → GraphData → Graph
set_data g playback d = record g { rx = d }
set_data g capture d = record g { tx = d }

-- The entries of `buf` from index `cnt` on; an entry is left zero where the period is empty.
unfoldable pub later_buffers : ℕ → ℕ → ℕ → ℕ → List AudioBuffer
later_buffers phys period_sz cnt zero = []
later_buffers phys period_sz cnt (suc n) =
    (if ltb 0 period_sz
      then record { phys = u64 (phys + cnt * period_sz); size = u32 period_sz }
      else record { phys = 0; size = 0 })
    ∷ later_buffers phys period_sz (cnt + 1) n

-- The array of `periods` buffers; entry 0 is written whatever the length.
unfoldable pub buffers : ℕ → ℕ → ℕ → Option (List AudioBuffer)
unfolding later_buffers
buffers phys period_sz zero = none
buffers phys period_sz (suc n) =
    some (record { phys = phys; size = u32 period_sz } ∷ later_buffers phys period_sz 1 n)

-- `audioreach_graph_free_buf`: both directions lose their buffers.
abbrev pub freed : GraphData → GraphData
freed d = record d { num_periods = 0; buf = none }

unfoldable pub graph_free_buf : Graph → Graph
graph_free_buf g = record g { rx = freed g.rx; tx = freed g.tx }

abbrev pub etimedout : ℕ
etimedout = 110

-- The address of buffer i.
abbrev pub phys_of : GraphData → ℕ → Option ℕ
phys_of d i = elim d.buf [
  | none ↦ none
  | some bufs ↦ elim (get_elem? bufs i) [ none ↦ none | some b ↦ some b.phys ]
]

-- DATA_CMD_WR_SH_MEM_EP_DATA_BUFFER_V2 and its counterpart for reads; `dest` is the instance.
pub record DataPacket : Type 0 where
  pub token : ℕ
  pub dest : Option ℕ
  pub buf_addr : ℕ
  pub buf_size : ℕ
  pub mem_map_handle : ℕ
  pub flags : ℕ

-- The index of the buffer for the next command.
abbrev pub next_buf : GraphData → ℕ
next_buf d = if leb d.num_periods (d.dsp_buf + 1) then 0 else d.dsp_buf + 1

-- The buffer in the lower 16 bits of the token, the length in the upper ones.
abbrev pub write_token : ℕ → ℕ → ℕ
write_token dsp_buf len = bit_or dsp_buf (u32 (len * 2 ^ 16))

abbrev writing : Graph → ℕ → ℕ → Option ℕ → Option (Graph × DataPacket)
writing g len wflags none = none
writing g len wflags (some phys) = some (
  record g { rx = record (g.rx) { dsp_buf = next_buf g.rx } },
  record {
    token = write_token g.rx.dsp_buf len;
    dest = g.rx_iid;
    buf_addr = phys;
    buf_size = len;
    mem_map_handle = g.rx.mem_map_handle;
    flags = wflags;
  },
)

-- The part of `q6apm_write_async` behind the allocation: the packet, and the next buffer.
unfoldable pub write_packet : Graph → ℕ → ℕ → Option (Graph × DataPacket)
write_packet g len wflags = writing g len wflags (phys_of g.rx g.rx.dsp_buf)

-- What a write meets: whether its packet can be allocated, and what `gpr_send_port_pkt` returns.
pub record Sending : Type 0 where
  pub allocated : Bool
  pub sent : Ret

-- `q6apm_write_async`: the packet that it hands to `gpr_send_port_pkt`, if there is one, and the value
-- that it returns.
unfoldable pub write_async : Graph → ℕ → ℕ → Sending → Option (Graph × List DataPacket × Ret)
unfolding write_packet
write_async g len wflags x =
    if not x.allocated
    then some (g, [], err enomem)
    else and_then (write_packet g len wflags) (λ r. some (r.0, r.1 ∷ [], x.sent))

abbrev reading : Graph → Option (List AudioBuffer) → Option (Graph × DataPacket)
reading g none = none
reading g (some bufs) = elim (get_elem? bufs g.tx.dsp_buf) [
  | none ↦ none
  | some b ↦ some (
    record g { tx = record (g.tx) { dsp_buf = next_buf g.tx } },
    record {
      token = g.tx.dsp_buf;
      dest = g.tx_iid;
      buf_addr = b.phys;
      buf_size = b.size;
      mem_map_handle = g.tx.mem_map_handle;
      flags = 0;
    },
  )
]

-- `q6apm_read`, where its packet can be allocated: the packet that it hands to `gpr_send_port_pkt`,
-- whose outcome changes nothing.
unfoldable pub read : Graph → Option (Graph × DataPacket)
read g = reading g g.tx.buf

-- `q6apm_get_hw_pointer`
unfoldable pub get_hw_pointer : Graph → Direction → ℕ
get_hw_pointer g dir = (data_of g dir).hw_ptr
