-- ===== src/Apm/Memory.antt =====
-- Mapping and unmapping the buffers of a stream (`q6apm_map_memory_regions` and
-- `q6apm_unmap_memory_regions` of source-reference/kernel/qdsp6/q6apm.c).
use audioreach_usb_offload_r.Prelude.{
  ℕ, Bool, true, false, not, Option, none, some, List, ◌==◌, if◌then◌else◌,
}
use audioreach_usb_offload_r.Stream.{Ret, ok, err, enomem}
use audioreach_usb_offload_r.Apm.{
  AudioBuffer, Graph, Direction, data_of, set_data, buffers, graph_free_buf, map_regions_rsp,
  unmap_regions, map_regions,
}
use audioreach_usb_offload_r.Apm.Command.{Exchange, send_cmd_sync}

abbrev undone : Option (Graph × Ret) → Option (Graph × Ret)
undone none = none
undone (some (g, ok n)) = some (g, ok n)
undone (some (g, err e)) = some (graph_free_buf g, err e)

abbrev map_buffers :
    Graph → Direction → ℕ → Bool → Exchange → Option (List AudioBuffer) → Option (Graph × Ret)
map_buffers g dir periods pkt_allocated x none = none
map_buffers g dir periods pkt_allocated x (some bufs) =
    let filled =
      set_data g dir (record (data_of g dir) { buf = some bufs; num_periods = periods }) in
    undone (
      if pkt_allocated
      then send_cmd_sync filled map_regions map_regions_rsp x
      else some (filled, err enomem))

abbrev has_buf : Option (List AudioBuffer) → Bool
has_buf none = false
has_buf (some l) = true

-- `q6apm_map_memory_regions` with `audioreach_map_memory_regions`, which sends the command.
unfoldable pub map_memory_regions :
    Graph → Direction → ℕ → ℕ → ℕ → Bool → Bool → Exchange → Option (Graph × Ret)
unfolding buffers graph_free_buf send_cmd_sync
map_memory_regions g dir phys period_sz periods allocated pkt_allocated x =
    if has_buf (data_of g dir).buf
    then some (g, ok 0)
    else if not allocated
    then some (g, err enomem)
    else map_buffers g dir periods pkt_allocated x (buffers phys period_sz periods)

abbrev after_unmap : Option (Graph × Ret) → Option (Graph × Ret)
after_unmap none = none
after_unmap (some (g, rc)) = some (graph_free_buf g, rc)

-- `q6apm_unmap_memory_regions`
unfoldable pub unmap_memory_regions : Graph → Direction → Bool → Exchange → Option (Graph × Ret)
unfolding graph_free_buf send_cmd_sync
unmap_memory_regions g dir pkt_allocated x =
    if (data_of g dir).mem_map_handle == 0
    then some (g, ok 0)
    else if not pkt_allocated
    then some (g, err enomem)
    else after_unmap (send_cmd_sync g unmap_regions unmap_regions x)
