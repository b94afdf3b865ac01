-- ===== src/PcmDai/Examples.antt =====
-- A playback stream of four periods of 480 frames (source-reference/kernel/qdsp6/q6apm-dai.c).
use audioreach_usb_offload_r.Prelude.{
  ℕ, ◌+◌, ◌-◌, ◌*◌, ◌<◌, ◌≡◌, refl, true, none, some, [], ◌∷◌, arith,
}
use audioreach_usb_offload_r.Apm.{
  AudioBuffer, Graph, playback, no_opcode, write_buffer_done, write_token, buffers, later_buffers,
}
use audioreach_usb_offload_r.Apm.Callback.{Response, graph_callback, told, write_done}
use audioreach_usb_offload_r.Apm.Buffers.{IsMapped}
use audioreach_usb_offload_r.PcmDai.{DaiRtd, running, dai_pointer}
use audioreach_usb_offload_r.PcmDai.Ack.{At, positions, acks, periods_from, acks-round_robin}
use audioreach_usb_offload_r.PcmDai.Pointer.{completion-pointer}

abbrev period : ℕ → AudioBuffer
period n = record { phys = 65536 + n * 1920; size = 1920 }

abbrev stream : DaiRtd
stream = record {
  graph = record {
    rx = record {
      buf = some (period 0 ∷ period 1 ∷ period 2 ∷ period 3 ∷ []);
      num_periods = 4;
      dsp_buf = 0;
      mem_map_handle = 7;
      hw_ptr = 0;
    };
    tx = record { buf = none; num_periods = 0; dsp_buf = 0; mem_map_handle = 0; hw_ptr = 0 };
    result_opcode = no_opcode;
    result_status = 0;
    has_ar_graph = true;
    has_cb = true;
    rx_iid = some 16384;
    tx_iid = none;
  };
  state = running;
  pcm_count = 1920;
  queue_ptr = 0;
}

stream-IsMapped : IsMapped stream.graph.rx 65536 1920 4
unfolding buffers later_buffers
stream-IsMapped = record {
  region = record {
    some_bytes = omega arith;
    some_periods = omega arith;
    small_size = omega arith;
    fits = omega arith;
  };
  filled = refl;
  counted = refl;
  inside = omega arith;
}

stream-At : At stream 480 65536 1920 4 0
stream-At = record { mapped = stream-IsMapped; buffer = refl; queue = refl }

-- Two periods and a bit, then to the end of the sixth.
acks-round_robin_example :
    (t : DaiRtd) × (acks stream 480 (positions 480 0 ((2, 7) ∷ (4, 0) ∷ []))
      ≡ some (t, periods_from stream.graph 1920 65536 1920 4 0 6))
    × At t 480 65536 1920 4 6
acks-round_robin_example =
    acks-round_robin stream 480 65536 1920 4 0 ((2, 7) ∷ (4, 0) ∷ []) stream-At
      ((omega arith, omega arith, omega arith), ((omega arith, omega arith, omega arith), tt))

abbrev second_done : Response
second_done = record {
  opcode = write_buffer_done;
  token = write_token 1 1920;
  result_opcode = no_opcode;
  status = 0;
  buf_addr_lsw = 65536 + 1920;
  buf_addr_msw = 0;
  mem_map_handle = 7;
}

completion-pointer_example :
    (h : Graph) × (graph_callback stream.graph second_done
      ≡ some (h, told stream.graph (write_done second_done.token)))
    × (dai_pointer (record stream { graph = h }) playback 480 ≡ (1 + 1) * 480 - 1)
    × ((1 + 1) * 480 - 1 < 4 * 480)
completion-pointer_example =
    completion-pointer stream second_done 65536 1920 4 1 1920 480 stream-IsMapped (omega arith)
      (omega arith) refl refl refl refl refl (omega arith) (omega arith)
