-- ===== src/Packet/Written.antt =====
-- The two passes over a graph agree: what is written is what has been counted
-- (upstream-src/sound/soc/qcom/qdsp6/audioreach.c).
pub mod Containers
use audioreach_usb_offload_r.Prelude.{
  Sat, Sat-map, and_then-Sat, All, ℕ, zero, suc, ◌+◌, ◌*◌, ◌≤◌, ◌≡◌, refl, ap, sym, ◌∙◌, inl, inr,
  some, List, [], ◌∷◌, ◌++◌, length, get_elem?, get_elem?-some, ◌==◌, arith, Bool-cases,
}
use audioreach_usb_offload_r.Topology.{Module, Container, SubGraph, ar_max_mod_links}
use audioreach_usb_offload_r.Topology.Links.{
  IsModule, nonzero_from, nonzero_from-set, nonzero_from-unset,
}
use audioreach_usb_offload_r.Packet.{
  section_header_size, sub_graph_data_size, container_obj_size, mod_prop_obj_size,
  module_conn_obj_size, mod_list_obj_psize, Counts, count_modules, count_containers, Open,
  connected, ports_connected, container_config, module_prop_obj, module_objs, module_list_obj,
  populate_modules, populate_containers,
}

-- The counts that the topology keeps are those of its lists.
abbrev pub IsContainer : Container → Type 0
IsContainer k = (length k.modules_list ≡ k.num_modules) × All IsModule k.modules_list

abbrev pub IsSubGraph : SubGraph → Type 0
IsSubGraph sg = All IsContainer sg.container_list

-- There are n entries of `size` bytes.
abbrev pub Entries : ℕ → ℕ → List (List ℕ) → Type 0
Entries size n l = (length l ≡ n) × All (λ w. 4 * length w ≡ size) l

module _ {ℓ κ} {A : Type ℓ} where
  pub All-snoc : (P : A → Type κ) (xs : List A) (a : A) → All P xs → P a → All P (xs ++ (a ∷ []))
  All-snoc P [] a h p = (p, tt)
  All-snoc P (x ∷ xs) a h p = (h.0, All-snoc P xs a h.1 p)

  pub All-map : (P Q : A → Type κ) (xs : List A) → ((a : A) → P a → Q a) → All P xs → All Q xs
  All-map P Q [] f h = tt
  All-map P Q (x ∷ xs) f h = (f x h.0, All-map P Q xs f h.1)

pub length-snoc {ℓ} : {A : Type ℓ} (xs : List A) (a : A) → length (xs ++ (a ∷ [])) ≡ length xs + 1
length-snoc [] a = refl
length-snoc (x ∷ xs) a = ap suc (length-snoc xs a) ∙ omega arith

pub Entries-snoc :
    (size n : ℕ) (l : List (List ℕ)) (w : List ℕ)
    → Entries size n l
    → 4 * length w ≡ size
    → Entries size (n + 1) (l ++ (w ∷ []))
Entries-snoc size n l w (len, all) h =
    (length-snoc l w ∙ ap (λ k. k + 1) len, All-snoc (λ w. 4 * length w ≡ size) l w all h)

-- What has been written agrees with what has been counted; `mods` modules have been written, and the
-- next object of the module list starts `pending` bytes after `mlobj`.
pub record Written (c : Counts) (mods pending : ℕ) (o : Open) : Type 0 where
  pub sgs : Entries sub_graph_data_size c.num_sub_graphs o.sg_cfg
  pub conts : Entries container_obj_size c.num_containers o.cont_obj
  pub props : Entries mod_prop_obj_size mods o.mod_prop_obj
  pub conns : Entries module_conn_obj_size c.num_connections o.conn_obj
  pub offset :
      o.mlobj + pending + section_header_size * c.num_containers ≡ section_header_size + c.ml_sz
  pub lists : length o.mod_list_obj ≡ c.num_containers
  pub within : All (λ (e : ℕ × List ℕ). e.0 + 4 * length e.1 ≤ o.mlobj + pending) o.mod_list_obj

abbrev pub with_connections : Counts → ℕ → Counts
with_connections c k = record c { num_connections = k }

pub connected-Written :
    (c : Counts) (mods pending : ℕ) (o : Open) (inst src dst ip : ℕ)
    → Written c mods pending o
    → Written
        (with_connections c (c.num_connections + 1))
        mods
        pending
        (connected o (inst ∷ src ∷ dst ∷ ip ∷ []))
connected-Written c mods pending o inst src dst ip h = record {
  sgs = h.sgs;
  conts = h.conts;
  props = h.props;
  conns =
      Entries-snoc module_conn_obj_size c.num_connections o.conn_obj (inst ∷ src ∷ dst ∷ ip ∷ [])
        h.conns (omega arith);
  offset = h.offset;
  lists = h.lists;
  within = h.within;
}

ports_connected-Written :
    (c : Counts) (mods pending : ℕ) (o : Open) (m : Module) (pn n k : ℕ)
    → IsModule m
    → pn + n ≤ ar_max_mod_links
    → c.num_connections + nonzero_from m.dst_mod_inst_id pn n ≡ k
    → Written c mods pending o
    → Sat (ports_connected o m pn n) (Written (with_connections c k) mods pending)
unfolding ports_connected
ports_connected-Written c mods pending o m pn zero k im le e h =
    let same : c.num_connections ≡ k = omega (arith, e) in
    record {
      sgs = h.sgs;
      conts = h.conts;
      props = h.props;
      conns = (h.conns.0 ∙ same, h.conns.1);
      offset = h.offset;
      lists = h.lists;
      within = h.within;
    }
ports_connected-Written c mods pending o m pn (suc n) k im le e h =
    let (dst, at_dst) = get_elem?-some m.dst_mod_inst_id pn (rw im.1 (omega arith)) in
    let (src, at_src) = get_elem?-some m.src_mod_op_port_id pn (rw im.0 (omega arith)) in
    let (ip, at_ip) = get_elem?-some m.dst_mod_ip_port_id pn (rw im.2 (omega arith)) in
    elim (Bool-cases (dst == 0)) [
      | inl z ↦
          let none_here : get_elem? m.dst_mod_inst_id pn ≡ some 0 = ground (arith, at_dst, z) in
          rw (at_dst, z, Sat)
            (ports_connected-Written c mods pending o m (pn + 1) n k im (omega arith)
              (ap (λ t. c.num_connections + t)
                  (sym (nonzero_from-unset m.dst_mod_inst_id pn n none_here))
                ∙ e)
              h)
      | inr z ↦
          let one_more = nonzero_from-set m.dst_mod_inst_id pn n dst at_dst z in
          rw (at_dst, z, at_src, at_ip, Sat)
            (ports_connected-Written (with_connections c (c.num_connections + 1)) mods pending _ m
              (pn + 1) n k im (omega arith) (omega (arith, one_more, e))
              (connected-Written c mods pending o m.instance_id src dst ip h))
    ]

pub populate_modules-Written :
    (c : Counts) (mods pending : ℕ) (o : Open) (ms : List Module)
    → All IsModule ms
    → Written c mods pending o
    → Sat (populate_modules o ms) (Written (count_modules c ms) (mods + length ms) pending)
unfolding populate_modules count_modules
populate_modules-Written c mods pending o [] im h = record {
  sgs = h.sgs;
  conts = h.conts;
  props = (h.props.0 ∙ omega arith, h.props.1);
  conns = h.conns;
  offset = h.offset;
  lists = h.lists;
  within = h.within;
}
populate_modules-Written c mods pending o (m ∷ ms) (im, ims) h =
    let listed : Open = record o { mod_prop_obj = o.mod_prop_obj ++ (module_prop_obj m ∷ []) } in
    let d = with_connections c (c.num_connections + m.num_connections) in
    let first : Written c (mods + 1) pending listed = record {
      sgs = h.sgs;
      conts = h.conts;
      props =
          Entries-snoc mod_prop_obj_size mods o.mod_prop_obj (module_prop_obj m) h.props
            (omega arith);
      conns = h.conns;
      offset = h.offset;
      lists = h.lists;
      within = h.within;
    } in
    and_then-Sat (ports_connected listed m 0 m.max_op_port) (λ p. populate_modules p ms)
      (Written d (mods + 1) pending) _
      (ports_connected-Written c (mods + 1) pending listed m 0 m.max_op_port
        (c.num_connections + m.num_connections) im (omega (arith, im.3))
        (ap (λ t. c.num_connections + t) im.4) first)
      (λ p w.
        Sat-map (populate_modules p ms) (λ q v. reindexed _ q v)
          (populate_modules-Written d (mods + 1) pending p ms ims w))
  where
    reindexed :
        (e : Counts) (q : Open)
        → Written e (mods + 1 + length ms) pending q
        → Written e (mods + suc (length ms)) pending q
    reindexed e q v = record {
      sgs = v.sgs;
      conts = v.conts;
      props = (v.props.0 ∙ omega arith, v.props.1);
      conns = v.conns;
      offset = v.offset;
      lists = v.lists;
      within = v.within;
    }
