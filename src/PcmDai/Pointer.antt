-- ===== src/PcmDai/Pointer.antt =====
-- The position that a PCM stream reports (source-reference/kernel/qdsp6/q6apm-dai.c).
use audioreach_usb_offload_r.Prelude.{ℕ, ◌+◌, ◌-◌, ◌*◌, ◌≤◌, ◌<◌, ◌≡◌, ap, ◌∙◌, true, some, arith}
use audioreach_usb_offload_r.Iova.{u64}
use audioreach_usb_offload_r.Apm.{Graph, playback, write_buffer_done, write_token, get_hw_pointer}
use audioreach_usb_offload_r.Apm.Callback.{
  Response, lower_32_bits, upper_32_bits, graph_callback, told, write_done,
}
use audioreach_usb_offload_r.Apm.Buffers.{IsMapped}
use audioreach_usb_offload_r.Apm.Tokens.{write_async-completion}
use audioreach_usb_offload_r.PcmDai.{DaiRtd, dai_pointer}

period_le : (i n p : ℕ) → i < n → (i + 1) * p ≤ n * p
period_le i n p h = grind arith

-- When the DSP reports the write of buffer i of a mapped region done, at the address of the buffer,
-- the stream stands at the last frame of period i, which lies in the buffer of the stream; for at
-- most 2 ^ 16 periods of at least one frame, and fewer than 2 ^ 64 frames.
pub completion-pointer :
    (s : DaiRtd) (r : Response) (phys sz periods i len p : ℕ)
    → IsMapped s.graph.rx phys sz periods
    → i < periods
    → periods ≤ 65536
    → s.graph.has_ar_graph ≡ true
    → r.opcode ≡ write_buffer_done
    → r.token ≡ write_token i len
    → r.buf_addr_lsw ≡ lower_32_bits (phys + i * sz)
    → r.buf_addr_msw ≡ upper_32_bits (phys + i * sz)
    → 0 < p
    → periods * p < 18446744073709551616
    → (h : Graph) × (graph_callback s.graph r ≡ some (h, told s.graph (write_done r.token)))
      × (dai_pointer (record s { graph = h }) playback p ≡ (i + 1) * p - 1)
      × ((i + 1) * p - 1 < periods * p)
unfolding dai_pointer get_hw_pointer
completion-pointer s r phys sz periods i len p v lt few a o t lo hi pos small =
    let (h, c, at, bytes) =
      write_async-completion s.graph r phys sz periods i len v lt few a o t lo hi in
    let le = period_le i periods p lt in
    let some_frames : p ≤ (i + 1) * p = grind arith in
    let whole : u64 (h.rx.hw_ptr * p) ≡ (i + 1) * p =
      ap (λ n. u64 (n * p)) at ∙ omega (arith, le, small) in
    (h, c, ground (arith, whole, some_frames, pos), omega (arith, le, some_frames, pos))
