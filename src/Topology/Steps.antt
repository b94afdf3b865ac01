-- ===== src/Topology/Steps.antt =====
-- The loop over the ports of a module (source-reference/kernel/qdsp6/topology.c), link by link.
use audioreach_usb_offload_r.Prelude.{
  Sat, Sat-map, and_then-Sat, ℕ, zero, suc, ◌+◌, ◌≤◌, ◌<◌, ◌≡◌, refl, ◌∙◌, false, inl, inr, none,
  some, List, [], ◌∷◌, length, get_elem?, get_elem?-some, set, length-set, get_elem?-set_self,
  get_elem?-set_ne, ◌==◌, arith, Bool-cases, Option-cases,
}
use audioreach_usb_offload_r.Topology.{
  Module, ar_max_mod_links, Token, Parsed, token_read, tokens_read, put_elem, linked, port_linked,
  ports_linked,
}

-- The first `id` links of m are set and the others are not.
pub record HasLinks (m : Module) (id : ℕ) : Type 0 where
  pub srcs : length m.src_mod_op_port_id ≡ ar_max_mod_links
  pub dsts : length m.dst_mod_inst_id ≡ ar_max_mod_links
  pub ips : length m.dst_mod_ip_port_id ≡ ar_max_mod_links
  pub count : m.num_connections ≡ id
  pub below :
      (j : ℕ) → j < id → (v : ℕ) × (get_elem? m.dst_mod_inst_id j ≡ some v) × ((v == 0) ≡ false)
  pub above : (j : ℕ) → id ≤ j → j < ar_max_mod_links → get_elem? m.dst_mod_inst_id j ≡ some 0

-- A write to an array that is in bounds.
put_lem : (xs : List ℕ) (i v : ℕ) → i < length xs → put_elem xs i v ≡ some (set xs i v)
put_lem xs i v h = ground arith

set-below :
    (xs : List ℕ) (id j v : ℕ)
    → id < length xs
    → (v == 0) ≡ false
    → ((k : ℕ) → k < id → (w : ℕ) × (get_elem? xs k ≡ some w) × ((w == 0) ≡ false))
    → j < id + 1
    → (w : ℕ) × (get_elem? (set xs id v) j ≡ some w) × ((w == 0) ≡ false)
set-below xs id j v len ne below h = elim (Bool-cases (id == j)) [
  | inl same ↦ let e : id ≡ j = ground arith in (v, rw (← e) (get_elem?-set_self xs id v len), ne)
  | inr other ↦
      let (w, at_j, nz) = below j (ground arith) in
      (w, get_elem?-set_ne xs v (λ e. ground arith) ∙ at_j, nz)
]

-- What changes of a module with a step: the links and their number.
abbrev pub Step : Module → ℕ → Module × ℕ → Type 0
Step m n r =
    HasLinks r.0 r.1
    × (r.1 ≤ n)
    × (r.0.max_op_port ≡ m.max_op_port)
    × (r.0.instance_id ≡ m.instance_id)

linked-Step :
    (m : Module) (id src dst ip n : ℕ)
    → HasLinks m id
    → id ≤ n
    → n < ar_max_mod_links
    → (dst == 0) ≡ false
    → Sat (linked m id src dst ip) (Step m (n + 1))
linked-Step m id src dst ip n v le lt ne =
    let at_dst : id < length m.dst_mod_inst_id = rw v.dsts (omega arith) in
    let a = put_lem m.src_mod_op_port_id id src (rw v.srcs (omega arith)) in
    let b = put_lem m.dst_mod_inst_id id dst at_dst in
    let c = put_lem m.dst_mod_ip_port_id id ip (rw v.ips (omega arith)) in
    rw (a, b, c, Sat)
      (
        record {
          srcs = length-set m.src_mod_op_port_id id src ∙ v.srcs;
          dsts = length-set m.dst_mod_inst_id id dst ∙ v.dsts;
          ips = length-set m.dst_mod_ip_port_id id ip ∙ v.ips;
          count = refl;
          below = λ j h. set-below m.dst_mod_inst_id id j dst at_dst ne v.below h;
          above = λ j h l.
              get_elem?-set_ne m.dst_mod_inst_id dst (λ e. omega arith) ∙ v.above j (omega arith) l;
        },
        omega arith,
        refl,
        refl,
      )

-- The local arrays have their length.
pub record IsParsed (p : Parsed) : Type 0 where
  pub srcs : length p.src_mod_op_port_id ≡ ar_max_mod_links
  pub dsts : length p.dst_mod_inst_id ≡ ar_max_mod_links
  pub ips : length p.dst_mod_ip_port_id ≡ ar_max_mod_links

token_read-IsParsed : (p : Parsed) (t : Token) → IsParsed p → IsParsed (token_read p t)
unfolding token_read
token_read-IsParsed p (Token.module_id v) h = record { srcs = h.srcs; dsts = h.dsts; ips = h.ips }
token_read-IsParsed p (Token.instance_id v) h = h
token_read-IsParsed p (Token.max_ip_ports v) h = record {
  srcs = h.srcs;
  dsts = h.dsts;
  ips = h.ips;
}
token_read-IsParsed p (Token.max_op_ports v) h = record {
  srcs = h.srcs;
  dsts = h.dsts;
  ips = h.ips;
}
token_read-IsParsed p (Token.src_instance_id v) h = record {
  srcs = h.srcs;
  dsts = h.dsts;
  ips = h.ips;
}
token_read-IsParsed p (Token.other v) h = h
token_read-IsParsed p (Token.src_op_port_id i v) h = record {
  srcs = length-set p.src_mod_op_port_id i v ∙ h.srcs;
  dsts = h.dsts;
  ips = h.ips;
}
token_read-IsParsed p (Token.dst_instance_id i v) h = record {
  srcs = h.srcs;
  dsts = length-set p.dst_mod_inst_id i v ∙ h.dsts;
  ips = h.ips;
}
token_read-IsParsed p (Token.dst_in_port_id i v) h = record {
  srcs = h.srcs;
  dsts = h.dsts;
  ips = length-set p.dst_mod_ip_port_id i v ∙ h.ips;
}

pub tokens_read-IsParsed : (p : Parsed) (ts : List Token) → IsParsed p → IsParsed (tokens_read p ts)
unfolding tokens_read
tokens_read-IsParsed p [] h = h
tokens_read-IsParsed p (t ∷ ts) h =
    tokens_read-IsParsed (token_read p t) ts (token_read-IsParsed p t h)

unlinked : (m : Module) (id n : ℕ) → HasLinks m id → id ≤ n → Step m (n + 1) (m, id)
unlinked m id n v le = (v, omega arith, refl, refl)

port_linked-Step :
    (p : Parsed) (m : Module) (id pn : ℕ)
    → IsParsed p
    → HasLinks m id
    → id ≤ pn
    → pn < ar_max_mod_links
    → Sat (port_linked p m id pn) (Step m (pn + 1))
port_linked-Step p m id pn h v le lt =
    let (src, at_src) = get_elem?-some p.src_mod_op_port_id pn (rw h.srcs lt) in
    let (dst, at_dst) = get_elem?-some p.dst_mod_inst_id pn (rw h.dsts lt) in
    let (ip, at_ip) = get_elem?-some p.dst_mod_ip_port_id pn (rw h.ips lt) in
    rw (at_src, Sat)
      (elim (Bool-cases (src == 0)) [
        | inl z ↦ rw (z, Sat) (unlinked m id pn v le)
        | inr z ↦
            rw (z, at_dst, Sat)
              (elim (Bool-cases (dst == 0)) [
                | inl e ↦ rw (e, Sat) (unlinked m id pn v le)
                | inr e ↦
                    rw (e, at_ip, Sat)
                      (elim (Bool-cases (ip == 0)) [
                        | inl y ↦ rw (y, Sat) (unlinked m id pn v le)
                        | inr y ↦ rw (y, Sat) (linked-Step m id src dst ip pn v le lt e)
                      ])
              ])
      ])

pub ports_linked-Step :
    (p : Parsed) (m : Module) (id pn n : ℕ)
    → IsParsed p
    → HasLinks m id
    → id ≤ pn
    → pn + n ≤ ar_max_mod_links
    → Sat (ports_linked p m id pn n) (Step m (pn + n))
unfolding ports_linked
ports_linked-Step p m id pn zero h v le lt = (v, omega arith, refl, refl)
ports_linked-Step p m id pn (suc n) h v le lt =
    and_then-Sat (port_linked p m id pn) (λ r. ports_linked p r.0 r.1 (pn + 1) n) (Step m (pn + 1))
      (Step m (pn + suc n)) (port_linked-Step p m id pn h v le (omega arith))
      (λ r s.
        Sat-map (ports_linked p r.0 r.1 (pn + 1) n)
          (λ q k. (k.0, omega (arith, k.1), k.2 ∙ s.2, k.3 ∙ s.3))
          (ports_linked-Step p r.0 r.1 (pn + 1) n h s.0 s.1 (omega arith)))

get_elem?-none : (xs : List ℕ) (i : ℕ) → length xs ≤ i → get_elem? xs i ≡ none
get_elem?-none [] i h = refl
get_elem?-none (x ∷ xs) zero h = elim h [ ]
get_elem?-none (x ∷ xs) (suc i) h = get_elem?-none xs i (omega arith)

pub ports_linked-none :
    (p : Parsed) (m : Module) (id pn n : ℕ)
    → IsParsed p
    → pn ≤ ar_max_mod_links
    → ar_max_mod_links < pn + n
    → ports_linked p m id pn n ≡ none
unfolding ports_linked
ports_linked-none p m id pn zero h le lt = absurd (omega arith)
ports_linked-none p m id pn (suc n) h le lt = elim (Bool-cases (pn == ar_max_mod_links)) [
  | inl e ↦
      let outside = get_elem?-none p.src_mod_op_port_id pn (rw h.srcs (ground arith)) in
      rw outside refl
  | inr e ↦ elim (Option-cases (port_linked p m id pn)) [
    | inl f ↦ rw f refl
    | inr (r, f) ↦ rw f (ports_linked-none p r.0 r.1 (pn + 1) n h (ground arith) (omega arith))
  ]
]
