-- ===== src/Apm/Examples.antt =====
-- A graph with a ring of four periods at 65536, and two clients of graph 3
-- (source-reference/kernel/qdsp6/q6apm.c).
use audioreach_usb_offload_r.Prelude.{
  Sat, All, Bool, false, ℕ, ◌+◌, ◌*◌, ◌/◌, ◌%◌, ◌≤◌, ◌<◌, ◌≡◌, ◌↔◌, refl, true, Option, none, some,
  List, [], ◌∷◌, ◌==◌, arith,
}
use audioreach_usb_offload_r.Stream.{Ret, ok, err}
use audioreach_usb_offload_r.Apm.{
  AudioBuffer, GraphData, Graph, no_opcode, write_buffer_done, map_regions_rsp, playback, buffers,
  later_buffers, freed, graph_free_buf, write_token, write_async, Sending,
}
use audioreach_usb_offload_r.Apm.Callback.{Response, write_done, told, graph_callback, callbacks}
use audioreach_usb_offload_r.Apm.Command.{Exchange, send_cmd_sync}
use audioreach_usb_offload_r.Apm.Memory.{map_memory_regions, unmap_memory_regions}
use audioreach_usb_offload_r.Apm.Buffers.{
  IsRegion, IsMapped, write_many, handed, round_robin, write_many-round_robin,
}
use audioreach_usb_offload_r.Apm.Tokens.{write_async-completion}
use audioreach_usb_offload_r.Apm.Remap.{remap-write_async}
use audioreach_usb_offload_r.Apm.Regions.{
  Region, map_regions_cmd, address_of, IsWithin, map_regions_cmd-IsWithin,
}
use audioreach_usb_offload_r.Apm.Graphs.{
  ArGraph, Apm, Command, open_graph, start_graph, CmdEnv, set_graph, get_audioreach_graph,
  graph_open, graph_mgmt_cmd, graph_start, graph_stop,
}
use audioreach_usb_offload_r.Apm.Graphs.Protocol.{
  DspState, closed, Views, IsApm, opens, starts, client_call, dsp_run, Run, here, next,
}
use audioreach_usb_offload_r.Apm.Graphs.Refine.{Run-refines}
use audioreach_usb_offload_r.Apm.Graphs.Starts.{graph_start-silent}

abbrev buffer : ℕ → AudioBuffer
buffer n = record { phys = 65536 + n * 4096; size = 4096 }

abbrev no_data : GraphData
no_data = record { buf = none; num_periods = 0; dsp_buf = 0; mem_map_handle = 0; hw_ptr = 0 }

abbrev ring : Graph
ring = record {
  rx = record {
    buf = some (buffer 0 ∷ buffer 1 ∷ buffer 2 ∷ buffer 3 ∷ []);
    num_periods = 4;
    dsp_buf = 3;
    mem_map_handle = 7;
    hw_ptr = 0;
  };
  tx = no_data;
  result_opcode = no_opcode;
  result_status = 0;
  has_ar_graph = true;
  has_cb = true;
  rx_iid = some 16384;
  tx_iid = none;
}

region : IsRegion 65536 4096 4
region = record {
  some_bytes = omega arith;
  some_periods = omega arith;
  small_size = omega arith;
  fits = omega arith;
}

ring-IsMapped : IsMapped ring.rx 65536 4096 4
unfolding buffers later_buffers
ring-IsMapped = record { region = region; filled = refl; counted = refl; inside = omega arith }

abbrev done : Response
done = record {
  opcode = write_buffer_done;
  token = write_token 2 65536;
  result_opcode = no_opcode;
  status = 0;
  buf_addr_lsw = 65536 + 8192;
  buf_addr_msw = 0;
  mem_map_handle = 7;
}

-- A write that meets memory for its packet, or does not.
abbrev met : Bool → Sending
met allocated = record { allocated = allocated; sent = ok 0 }

-- The second of three writes gets no packet.
abbrev writes : List (ℕ × Sending)
writes = (100, met true) ∷ (4096, met false) ∷ (200, met true) ∷ []

write_many-round_robin_example :
    (h : Graph) × (write_many ring 0 writes
      ≡ some (h, round_robin (some 16384) 7 0 65536 4096 4 7 (100 ∷ 200 ∷ [])))
    × IsMapped h.rx 65536 4096 4
    × (h.rx.dsp_buf ≡ 9 % 4)
write_many-round_robin_example =
    write_many-round_robin writes ring 0 65536 4096 4 7 ring-IsMapped refl

map_regions_cmd-IsWithin_example :
    (r : Region) × Sat (buffers 65536 4096 4) (λ bufs.
      map_regions_cmd bufs 4096 4 true
      ≡ some (record { payload_size = 20; num_regions = 1; mregions = r ∷ [] }))
    × (address_of r ≡ 65536)
    × Sat (write_many ring 0 writes) (λ w. All (IsWithin r) w.1)
map_regions_cmd-IsWithin_example =
    map_regions_cmd-IsWithin ring 0 65536 4096 4 writes ring-IsMapped (omega arith)
      (omega arith, (omega arith, (omega arith, tt)))

write_async-completion_example :
    (h : Graph) × (graph_callback ring done ≡ some (h, told ring (write_done done.token)))
    × (h.rx.hw_ptr ≡ 2 + 1)
    × ((done.token / 65536 ≡ 65536) ↔ (65536 < 65536))
write_async-completion_example =
    write_async-completion ring done 65536 4096 4 2 65536 ring-IsMapped (omega arith) (omega arith)
      refl refl refl refl refl

-- The unmapping that no answer comes for, and the mapping of two periods that is answered.
abbrev unanswered : Exchange
unanswered = record { sent = ok 0; arrives = [] }

abbrev answered_map : Exchange
answered_map = record {
  sent = ok 0;
  arrives =
      record {
        opcode = map_regions_rsp;
        token = 0;
        result_opcode = no_opcode;
        status = 0;
        buf_addr_lsw = 0;
        buf_addr_msw = 0;
        mem_map_handle = 9;
      }
      ∷ [];
}

abbrev unmapped : Graph
unmapped = record ring { rx = freed ring.rx; tx = freed ring.tx }

abbrev remapped : Graph
remapped = record unmapped {
  rx = record (unmapped.rx) {
    buf = some (buffer 0 ∷ buffer 1 ∷ []);
    num_periods = 2;
    mem_map_handle = 9;
  };
  result_opcode = map_regions_rsp;
}

unmapped_lem : unmap_memory_regions ring playback true unanswered ≡ some (unmapped, err 110)
unfolding unmap_memory_regions send_cmd_sync callbacks graph_free_buf
unmapped_lem = refl

remapped_lem :
    map_memory_regions unmapped playback 65536 4096 2 true true answered_map ≡ some (remapped, ok 0)
unfolding map_memory_regions send_cmd_sync callbacks graph_callback buffers later_buffers
    graph_free_buf
remapped_lem = refl

two_periods : IsRegion 65536 4096 2
two_periods = record {
  some_bytes = omega arith;
  some_periods = omega arith;
  small_size = omega arith;
  fits = omega arith;
}

remap-write_async_example :
    (3 < 2
      → (h : Graph) × (write_many remapped 0 writes
          ≡ some (h, round_robin (some 16384) 9 0 65536 4096 2 3 (handed writes))))
    × (2 ≤ 3 → write_async remapped 100 0 (met true) ≡ none)
remap-write_async_example =
    remap-write_async ring unmapped remapped 65536 4096 2 unanswered answered_map (err 110) 100 0
      (met true) writes refl (λ e. omega arith) two_periods unmapped_lem remapped_lem

abbrev counts_of : ℕ → ℕ → Option ArGraph
counts_of started stopped = some (record { refcount = 1; started = started; stopped = stopped })

abbrev topology : Apm
topology = record { known = λ n. n == 3; graphs = λ n. none }

abbrev opened_3 : Apm
opened_3 = set_graph topology 3 (counts_of 0 0)

abbrev started_3 : Apm
started_3 = set_graph opened_3 3 (counts_of 1 0)

opened-Run : Run topology opened_3 (open_graph 3 ∷ [])
unfolding client_call graph_open get_audioreach_graph
opened-Run = next (opens 3) (open_graph 3 ∷ []) here refl refl

started-Run : Run topology started_3 (open_graph 3 ∷ start_graph 3 ∷ [])
unfolding client_call graph_start graph_mgmt_cmd
started-Run =
    next (starts 3) (start_graph 3 ∷ []) opened-Run
      (record { refcount = 1; started = 0; stopped = 0 }, refl) refl

Run-refines_example :
    (e : ℕ → DspState) × (dsp_run (λ n. closed) (open_graph 3 ∷ start_graph 3 ∷ []) ≡ some e)
    × Views started_3 e
    × IsApm started_3
Run-refines_example = Run-refines topology (λ n. closed) (λ n. tt) (λ n. refl) started-Run

-- A start whose command cannot be sent.
abbrev unsent : CmdEnv
unsent = record { pkt_allocated = true; sent = err 22; answered = none }

-- A command that the DSP answers without an error.
abbrev answered : CmdEnv
answered = record { pkt_allocated = true; sent = ok 0; answered = some 0 }

unsent_lem : (graph_mgmt_cmd (start_graph 3) unsent).1 ≡ err 22
unfolding graph_mgmt_cmd
unsent_lem = refl

graph_start-silent_example :
    ((b : Apm) × (cs : List Command) × (graph_start opened_3 3 unsent ≡ some (b, cs, err 22))
      × ((y : CmdEnv) → (c : Apm) × (graph_start b 3 y ≡ some (c, [], ok 0))))
    × ((b : Apm) × (cs : List Command) × (ret : Ret) × (graph_stop opened_3 3 answered
          ≡ some (b, cs, ret))
        × ((y : CmdEnv) → (c : Apm) × (graph_start b 3 y ≡ some (c, [], ok 0))))
graph_start-silent_example =
    graph_start-silent opened_3 3 (record { refcount = 1; started = 0; stopped = 0 }) unsent
      answered 22 refl refl unsent_lem
