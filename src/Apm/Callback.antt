-- ===== src/Apm/Callback.antt =====
-- What arrives from the DSP (`graph_callback` of source-reference/kernel/qdsp6/q6apm.c).
use audioreach_usb_offload_r.Prelude.{
  ℕ, ◌+◌, ◌/◌, ◌%◌, Bool, not, ◌&&◌, Option, none, some, List, [], ◌∷◌, ◌++◌, ◌==◌, if◌then◌else◌,
}
use audioreach_usb_offload_r.Apm.{
  Opcode, Graph, phys_of, write_buffer_done, map_regions_rsp, read_buffer_done, eos_rendered,
  basic_rsp, unmap_regions, map_regions, media_format, set_cfg,
}

-- A packet from the DSP: what `graph_callback` reads of the header and of the payload.
pub record Response : Type 0 where
  pub opcode : Opcode
  pub token : ℕ
  pub result_opcode : Opcode
  pub status : ℕ
  pub buf_addr_lsw : ℕ
  pub buf_addr_msw : ℕ
  pub mem_map_handle : ℕ

-- What the graph's client is called with.
pub data ClientEvent : Type 0 where
  write_done read_done eos_done : ℕ → ClientEvent

abbrev pub lower_32_bits : ℕ → ℕ
lower_32_bits n = n % 4294967296

abbrev pub upper_32_bits : ℕ → ℕ
upper_32_bits n = n / 4294967296 % 4294967296

abbrev is_addr : Response → ℕ → Bool
is_addr r phys = lower_32_bits phys == r.buf_addr_lsw && upper_32_bits phys == r.buf_addr_msw

abbrev pub told : Graph → ClientEvent → List ClientEvent
told g event = if g.has_cb then event ∷ [] else []

abbrev answered : Graph → Response → Graph
answered g r = record g { result_opcode = r.opcode; result_status = r.status }

-- A completed write or read: the pointer moves whatever the address, the client hears of it where
-- the address is the one of the buffer.
abbrev write_completed : Graph → Response → ℕ → Option ℕ → Option (Graph × List ClientEvent)
write_completed g r token none = none
write_completed g r token (some phys) =
    let moved = record g { rx = record (g.rx) { hw_ptr = token + 1 } } in
    if is_addr r phys
    then some (answered moved r, told g (write_done r.token))
    else some (moved, [])

abbrev read_completed : Graph → Response → Option ℕ → Option (Graph × List ClientEvent)
read_completed g r none = none
read_completed g r (some phys) =
    let moved = record g { tx = record (g.tx) { hw_ptr = r.token + 1 } } in
    if is_addr r phys then some (answered moved r, told g (read_done r.token)) else some (moved, [])

abbrev handle_set : Graph → ℕ → ℕ → Graph
handle_set g token handle =
    if token == 0
    then record g { rx = record (g.rx) { mem_map_handle = handle } }
    else record g { tx = record (g.tx) { mem_map_handle = handle } }

-- GPR_BASIC_RSP_RESULT, by the command that it answers.
abbrev basic_result : Graph → Response → Opcode → Graph
basic_result g r unmap_regions = record (handle_set g r.token 0) {
  result_opcode = unmap_regions;
  result_status = 0;
}
basic_result g r map_regions = record g { result_opcode = map_regions; result_status = r.status }
basic_result g r media_format = record g { result_opcode = media_format; result_status = r.status }
basic_result g r set_cfg = record g { result_opcode = set_cfg; result_status = r.status }
basic_result g r _ = g

abbrev callback_of : Graph → Response → Opcode → Option (Graph × List ClientEvent)
callback_of g r write_buffer_done =
    if not g.has_ar_graph
    then some (g, [])
    else write_completed g r (r.token % 65536) (phys_of g.rx (r.token % 65536))
callback_of g r map_regions_rsp = some (
  record (handle_set g r.token r.mem_map_handle) {
    result_opcode = map_regions_rsp;
    result_status = 0;
  },
  [],
)
callback_of g r read_buffer_done =
    if not g.has_ar_graph then some (g, []) else read_completed g r (phys_of g.tx r.token)
callback_of g r eos_rendered = some (g, told g (eos_done r.token))
callback_of g r basic_rsp = some (basic_result g r r.result_opcode, [])
callback_of g r _ = some (g, [])

-- `graph_callback`: the state and the calls to the client. APM_WRITE_TOKEN_MASK takes 16 bits.
unfoldable pub graph_callback : Graph → Response → Option (Graph × List ClientEvent)
graph_callback g r = callback_of g r r.opcode

-- The packets that arrive while a command is waited for.
unfoldable pub callbacks : Graph → List Response → Option (Graph × List ClientEvent)
unfolding graph_callback
callbacks g [] = some (g, [])
callbacks g (r ∷ rs) = elim (graph_callback g r) [
  | none ↦ none
  | some (h, events) ↦ elim (callbacks h rs) [
    | none ↦ none
    | some (k, more) ↦ some (k, events ++ more)
  ]
]
