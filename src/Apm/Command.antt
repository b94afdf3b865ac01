-- ===== src/Apm/Command.antt =====
-- The wait for the response to a command (`audioreach_send_cmd_sync` of
-- upstream-src/sound/soc/qcom/qdsp6/audioreach.c).
use audioreach_usb_offload_r.Prelude.{
  Bool, true, false, not, ◌||◌, Option, none, some, List, ltb, if◌then◌else◌,
}
use audioreach_usb_offload_r.Stream.{Ret, ok, err, einval}
use audioreach_usb_offload_r.Apm.{
  Opcode, Graph, etimedout, no_opcode, map_regions_rsp, unmap_regions, map_regions,
}
use audioreach_usb_offload_r.Apm.Callback.{Response, ClientEvent, callbacks}

-- A command to the DSP: what `gpr_send_port_pkt` returns, and what arrives in the five seconds after.
pub record Exchange : Type 0 where
  pub sent : Ret
  pub arrives : List Response

abbrev is_opcode : Opcode → Opcode → Bool
is_opcode map_regions_rsp map_regions_rsp = true
is_opcode unmap_regions unmap_regions = true
is_opcode map_regions map_regions = true
is_opcode _ _ = false

abbrev waited : Graph → Bool → Ret
waited g done =
    if not done then err etimedout else if ltb 0 g.result_status then err einval else ok 0

abbrev replied : Opcode → Opcode → Option (Graph × List ClientEvent) → Option (Graph × Ret)
replied cmd rsp none = none
replied cmd rsp (some (g, events)) =
    some (g, waited g (is_opcode cmd g.result_opcode || is_opcode rsp g.result_opcode))

-- `audioreach_send_cmd_sync` for command `cmd` with the response code `rsp`.
unfoldable pub send_cmd_sync : Graph → Opcode → Opcode → Exchange → Option (Graph × Ret)
unfolding callbacks
send_cmd_sync g cmd rsp x =
    let cleared = record g { result_opcode = no_opcode; result_status = 0 } in
    elim x.sent [
      | err e ↦ some (cleared, err e)
      | ok n ↦ replied cmd rsp (callbacks cleared x.arrives)
    ]
