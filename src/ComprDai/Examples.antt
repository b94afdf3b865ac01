-- ===== src/ComprDai/Examples.antt =====
-- A compressed stream of four fragments of 8192 bytes (source-reference/kernel/qdsp6/q6apm-dai.c).
use audioreach_usb_offload_r.Prelude.{
  Sat, ℕ, Bool, ◌+◌, ◌*◌, ◌≡◌, refl, true, false, none, some, List, [], ◌∷◌, arith,
}
use audioreach_usb_offload_r.Stream.{ok}
use audioreach_usb_offload_r.Apm.{
  AudioBuffer, Sending, no_opcode, write_token, buffers, later_buffers,
}
use audioreach_usb_offload_r.Apm.Callback.{write_done}
use audioreach_usb_offload_r.Apm.Buffers.{IsMapped}
use audioreach_usb_offload_r.PcmDai.{running}
use audioreach_usb_offload_r.ComprDai.{ComprRtd}
use audioreach_usb_offload_r.ComprDai.Sent.{
  ComprEvent, calls_back, copies, IsCounted, written, lost, compr_run, compr_run-Accounts,
}

abbrev fragment : ℕ → AudioBuffer
fragment n = record { phys = 65536 + n * 8192; size = 8192 }

abbrev track : ComprRtd
track = record {
  graph = record {
    rx = record {
      buf = some (fragment 0 ∷ fragment 1 ∷ fragment 2 ∷ fragment 3 ∷ []);
      num_periods = 4;
      dsp_buf = 0;
      mem_map_handle = 7;
      hw_ptr = 0;
    };
    tx = record { buf = none; num_periods = 0; dsp_buf = 0; mem_map_handle = 0; hw_ptr = 0 };
    result_opcode = no_opcode;
    result_status = 0;
    has_ar_graph = true;
    has_cb = true;
    rx_iid = some 16384;
    tx_iid = none;
  };
  state = running;
  pcm_count = 8192;
  pcm_size = 32768;
  bytes_sent = 0;
  bytes_received = 0;
  copied_total = 0;
  next_track = false;
  notify_on_drain = false;
  partial_drain = false;
}

track-IsMapped : IsMapped track.graph.rx 65536 8192 4
unfolding buffers later_buffers
track-IsMapped = record {
  region = record {
    some_bytes = omega arith;
    some_periods = omega arith;
    small_size = omega arith;
    fits = omega arith;
  };
  filled = refl;
  counted = refl;
  inside = omega arith;
}

abbrev met : Bool → Sending
met allocated = record { allocated = allocated; sent = ok 0 }

-- Two copies, and the completion of the first fragment, after which a packet cannot be allocated.
abbrev events : List ComprEvent
events =
    copies 12288 (met true)
    ∷ copies 4096 (met true)
    ∷ calls_back (write_done (write_token 0 8192)) (met false)
    ∷ []

compr_run-Accounts_example :
    Sat
      (compr_run track events)
      (λ r. IsCounted 65536 8192 4 r.0 × (r.0.bytes_sent ≡ 0 + written r.1 + lost r.1))
compr_run-Accounts_example =
    compr_run-Accounts track events 65536 8192 4 (refl, track-IsMapped, omega arith)
