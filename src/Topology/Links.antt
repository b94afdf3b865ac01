-- ===== src/Topology/Links.antt =====
-- The links of a module that source-reference/kernel/qdsp6/topology.c has made.
use audioreach_usb_offload_r.Prelude.{
  Sat, Sat-map, and_then-Sat, ℕ, zero, suc, ◌+◌, ◌-◌, ◌≤◌, ◌<◌, ◌≡◌, refl, ap, ◌∙◌, false, inl, inr,
  none, some, List, length, replicate, get_elem?, ltb, ◌==◌, if◌then◌else◌, arith, Bool-cases,
}
use audioreach_usb_offload_r.Topology.{
  Module, ar_max_mod_links, Token, tokens_read, initial, ports_linked, allocated,
  parse_common_tokens,
}
use audioreach_usb_offload_r.Topology.Steps.{
  HasLinks, Step, tokens_read-IsParsed, ports_linked-Step, ports_linked-none,
}

-- The entries of an array that are not zero, of the k from index i on.
abbrev pub nonzero_from : List ℕ → ℕ → ℕ → ℕ
nonzero_from xs i zero = 0
nonzero_from xs i (suc k) = elim (get_elem? xs i) [
  | none ↦ nonzero_from xs (i + 1) k
  | some v ↦ let rest = nonzero_from xs (i + 1) k in if v == 0 then rest else suc rest
]

-- The arrays have their length, the ports are within them, and the number of connections is that of
-- the destinations that are set.
abbrev pub IsModule : Module → Type 0
IsModule m =
    (length m.src_mod_op_port_id ≡ ar_max_mod_links)
    × (length m.dst_mod_inst_id ≡ ar_max_mod_links)
    × (length m.dst_mod_ip_port_id ≡ ar_max_mod_links)
    × (m.max_op_port ≤ ar_max_mod_links)
    × (nonzero_from m.dst_mod_inst_id 0 m.max_op_port ≡ m.num_connections)

pub nonzero_from-set :
    (xs : List ℕ) (i k v : ℕ)
    → get_elem? xs i ≡ some v
    → (v == 0) ≡ false
    → nonzero_from xs i (suc k) ≡ suc (nonzero_from xs (i + 1) k)
nonzero_from-set xs i k v e nz = ground (arith, e, nz)

pub nonzero_from-unset :
    (xs : List ℕ) (i k : ℕ)
    → get_elem? xs i ≡ some 0
    → nonzero_from xs i (suc k) ≡ nonzero_from xs (i + 1) k
nonzero_from-unset xs i k e = ground (arith, e)

get_elem?-replicate : (n a j : ℕ) → j < n → get_elem? (replicate n a) j ≡ some a
get_elem?-replicate zero a j h = elim h [ ]
get_elem?-replicate (suc n) a zero h = refl
get_elem?-replicate (suc n) a (suc j) h = get_elem?-replicate n a j (omega arith)

-- The entries that are set come first, so there are as many as links.
nonzero_from_lem :
    (xs : List ℕ) (id i k : ℕ)
    → ((j : ℕ) → j < id → (v : ℕ) × (get_elem? xs j ≡ some v) × ((v == 0) ≡ false))
    → ((j : ℕ) → id ≤ j → j < ar_max_mod_links → get_elem? xs j ≡ some 0)
    → i + k ≤ ar_max_mod_links
    → id ≤ i + k
    → nonzero_from xs i k ≡ id - i
nonzero_from_lem xs id i zero below above le ge = omega arith
nonzero_from_lem xs id i (suc k) below above le ge =
    let later = nonzero_from_lem xs id (i + 1) k below above (omega arith) (omega arith) in
    elim (Bool-cases (ltb i id)) [
      | inl lt ↦
          let (v, at_i, nz) = below i (ground arith) in
          nonzero_from-set xs i k v at_i nz ∙ ap suc later ∙ ground arith
      | inr ge_i ↦
          nonzero_from-unset xs i k (above i (ground arith) (omega arith)) ∙ later ∙ ground arith
    ]

linked-IsModule :
    (m : Module) (r : Module × ℕ)
    → Step m (0 + m.max_op_port) r
    → m.max_op_port ≤ ar_max_mod_links
    → IsModule r.0 × (r.0.instance_id ≡ m.instance_id)
linked-IsModule m (k, id) (v, le, same, inst) bound =
    let count =
      nonzero_from_lem k.dst_mod_inst_id id 0 m.max_op_port v.below v.above (omega arith)
        (omega arith) in
    (
      (
        v.srcs,
        v.dsts,
        v.ips,
        rw same bound,
        ap (nonzero_from k.dst_mod_inst_id 0) same ∙ count ∙ ground (arith, v.count),
      ),
      inst,
    )

-- The module that is made has the instance that it was made for.
pub parse_common_tokens-IsModule_at :
    (inst : ℕ) (ts : List Token)
    → (tokens_read initial ts).max_op_port ≤ ar_max_mod_links
    → Sat (parse_common_tokens inst ts) (λ m. IsModule m × (m.instance_id ≡ inst))
unfolding parse_common_tokens
parse_common_tokens-IsModule_at inst ts le =
    let p = tokens_read initial ts in
    let m : Module = record (allocated inst) {
      module_id = p.module_id;
      max_ip_port = p.max_ip_port;
      max_op_port = p.max_op_port;
      src_mod_inst_id = p.src_mod_inst_id;
    } in
    let read = tokens_read-IsParsed initial ts (record { srcs = refl; dsts = refl; ips = refl }) in
    let none_linked : HasLinks m 0 = record {
      srcs = refl;
      dsts = refl;
      ips = refl;
      count = refl;
      below = λ j h. elim h [ ];
      above = λ j h l. get_elem?-replicate ar_max_mod_links 0 j l;
    } in
    and_then-Sat (ports_linked p m 0 0 p.max_op_port) (λ r. some r.0) (Step m (0 + p.max_op_port)) _
      (ports_linked-Step p m 0 0 p.max_op_port read none_linked (omega arith) (omega (arith, le)))
      (λ r s. linked-IsModule m r s le)

-- A module whose tokens give it at most AR_MAX_MOD_LINKS output ports is made without an access
-- outside an array: its ports are in bounds, and it has as many connections as destinations are set.
pub parse_common_tokens-IsModule :
    (inst : ℕ) (ts : List Token)
    → (tokens_read initial ts).max_op_port ≤ ar_max_mod_links
    → Sat (parse_common_tokens inst ts) IsModule
parse_common_tokens-IsModule inst ts le =
    Sat-map (parse_common_tokens inst ts) (λ m h. h.0) (parse_common_tokens-IsModule_at inst ts le)

-- A module whose tokens give it more output ports than AR_MAX_MOD_LINKS makes the loop over the ports
-- read outside its arrays, whatever the other tokens are.
pub parse_common_tokens-fault :
    (inst : ℕ) (ts : List Token)
    → ar_max_mod_links < (tokens_read initial ts).max_op_port
    → parse_common_tokens inst ts ≡ none
unfolding parse_common_tokens
parse_common_tokens-fault inst ts lt =
    let read = tokens_read-IsParsed initial ts (record { srcs = refl; dsts = refl; ips = refl }) in
    let p = tokens_read initial ts in
    rw (ports_linked-none p _ 0 0 p.max_op_port read (omega arith) (omega (arith, lt))) refl
