-- ===== src/Topology.antt =====
-- The graphs that the topology file declares (upstream-src/sound/soc/qcom/qdsp6/audioreach.h), and how
-- source-reference/kernel/qdsp6/topology.c makes a module from its tokens. `none` is a fault: an
-- access outside an array.
mod Steps
pub mod Links
pub mod Tables
pub mod Widgets
use audioreach_usb_offload_r.Prelude.{
  and_then, ℕ, zero, suc, ◌+◌, Bool, true, false, not, ◌&&◌, Option, none, some, List, [], ◌∷◌,
  get_elem?, set, replicate, length, ltb, ◌==◌, if◌then◌else◌,
}

abbrev pub ar_max_mod_links : ℕ
ar_max_mod_links = 8

-- `struct audioreach_module`: the identity, the ports and the links, whose arrays have
-- AR_MAX_MOD_LINKS entries.
pub record Module : Type 0 where
  pub module_id : ℕ
  pub instance_id : ℕ
  pub max_ip_port : ℕ
  pub max_op_port : ℕ
  pub num_connections : ℕ
  pub src_mod_inst_id : ℕ
  pub src_mod_op_port_id : List ℕ
  pub dst_mod_inst_id : List ℕ
  pub dst_mod_ip_port_id : List ℕ

-- `struct audioreach_container`, `struct audioreach_sub_graph` and `struct audioreach_graph_info`
pub record Container : Type 0 where
  pub container_id : ℕ
  pub capability_id : ℕ
  pub graph_pos : ℕ
  pub stack_size : ℕ
  pub proc_domain : ℕ
  pub num_modules : ℕ
  pub modules_list : List Module

pub record SubGraph : Type 0 where
  pub sub_graph_id : ℕ
  pub perf_mode : ℕ
  pub direction : ℕ
  pub scenario_id : ℕ
  pub container_list : List Container

pub record GraphInfo : Type 0 where
  pub src_mod_inst_id : ℕ
  pub src_mod_op_port_id : ℕ
  pub dst_mod_inst_id : ℕ
  pub dst_mod_ip_port_id : ℕ
  pub sg_list : List SubGraph

-- The tokens of a module with their values; the three arrays of links have their index.
pub data Token : Type 0 where
  module_id instance_id max_ip_ports max_op_ports src_instance_id other : ℕ → Token
  src_op_port_id dst_instance_id dst_in_port_id : ℕ → ℕ → Token

-- The local variables of `audioreach_parse_common_tokens`.
pub record Parsed : Type 0 where
  pub module_id : ℕ
  pub max_ip_port : ℕ
  pub max_op_port : ℕ
  pub src_mod_inst_id : ℕ
  pub src_mod_op_port_id : List ℕ
  pub dst_mod_inst_id : List ℕ
  pub dst_mod_ip_port_id : List ℕ

-- One token. The instance token, which allocates the module, and unknown ones leave these variables.
unfoldable pub token_read : Parsed → Token → Parsed
token_read p (module_id v) = record p { module_id = v }
token_read p (max_ip_ports v) = record p { max_ip_port = v }
token_read p (max_op_ports v) = record p { max_op_port = v }
token_read p (src_instance_id v) = record p { src_mod_inst_id = v }
token_read p (src_op_port_id i v) = record p { src_mod_op_port_id = set p.src_mod_op_port_id i v }
token_read p (dst_instance_id i v) = record p { dst_mod_inst_id = set p.dst_mod_inst_id i v }
token_read p (dst_in_port_id i v) = record p { dst_mod_ip_port_id = set p.dst_mod_ip_port_id i v }
token_read p (instance_id v) = p
token_read p (other v) = p

unfoldable pub tokens_read : Parsed → List Token → Parsed
unfolding token_read
tokens_read p [] = p
tokens_read p (t ∷ ts) = tokens_read (token_read p t) ts

abbrev zeros : List ℕ
zeros = replicate ar_max_mod_links 0

abbrev pub initial : Parsed
initial = record {
  module_id = 0;
  max_ip_port = 0;
  max_op_port = 0;
  src_mod_inst_id = 0;
  src_mod_op_port_id = zeros;
  dst_mod_inst_id = zeros;
  dst_mod_ip_port_id = zeros;
}

-- The write `xs[i] = v`.
abbrev pub put_elem : List ℕ → ℕ → ℕ → Option (List ℕ)
put_elem xs i v = if ltb i (length xs) then some (set xs i v) else none

-- Link `id` of the module.
abbrev pub linked : Module → ℕ → ℕ → ℕ → ℕ → Option (Module × ℕ)
linked m id src dst ip = and_then (put_elem m.src_mod_op_port_id id src) (λ srcs.
    and_then (put_elem m.dst_mod_inst_id id dst) (λ dsts.
      and_then (put_elem m.dst_mod_ip_port_id id ip) (λ ips. some (
        record m {
          src_mod_op_port_id = srcs;
          dst_mod_inst_id = dsts;
          dst_mod_ip_port_id = ips;
          num_connections = id + 1;
        },
        id + 1,
      ))))

-- Port `pn`, if its three values are set.
abbrev pub port_linked : Parsed → Module → ℕ → ℕ → Option (Module × ℕ)
port_linked p m id pn = and_then (get_elem? p.src_mod_op_port_id pn) (λ src.
    if src == 0
    then some (m, id)
    else and_then (get_elem? p.dst_mod_inst_id pn) (λ dst.
      if dst == 0
      then some (m, id)
      else and_then (get_elem? p.dst_mod_ip_port_id pn)
          (λ ip. if ip == 0 then some (m, id) else linked m id src dst ip)))

-- The loop over n ports from `pn` on.
unfoldable pub ports_linked : Parsed → Module → ℕ → ℕ → ℕ → Option (Module × ℕ)
ports_linked p m id pn zero = some (m, id)
ports_linked p m id pn (suc n) =
    and_then (port_linked p m id pn) (λ r. ports_linked p r.0 r.1 (pn + 1) n)

-- The module as it was allocated, zero but for its instance.
abbrev pub allocated : ℕ → Module
allocated inst = record {
  module_id = 0;
  instance_id = inst;
  max_ip_port = 0;
  max_op_port = 0;
  num_connections = 0;
  src_mod_inst_id = 0;
  src_mod_op_port_id = zeros;
  dst_mod_inst_id = zeros;
  dst_mod_ip_port_id = zeros;
}

-- What `audioreach_parse_common_tokens` makes of a new module with the tokens `ts`.
unfoldable pub parse_common_tokens : ℕ → List Token → Option Module
unfolding tokens_read ports_linked
parse_common_tokens inst ts =
    let p = tokens_read initial ts in
    and_then
      (ports_linked p
        (record (allocated inst) {
          module_id = p.module_id;
          max_ip_port = p.max_ip_port;
          max_op_port = p.max_op_port;
          src_mod_inst_id = p.src_mod_inst_id;
        })
        0 0 p.max_op_port)
      (λ r. some r.0)
