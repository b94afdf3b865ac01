-- ===== src/Packet/Written/Containers.antt =====
-- A container as a whole, and all containers of a sub-graph (upstream-src/sound/soc/qcom/qdsp6/audioreach.c).
use audioreach_usb_offload_r.Prelude.{
  Sat, and_then-Sat, All, ℕ, ◌+◌, ◌*◌, ◌≤◌, ◌≡◌, refl, ap, sym, ◌∙◌, List, [], ◌∷◌, ◌++◌, length,
  arith,
}
use audioreach_usb_offload_r.Topology.{Module, Container}
use audioreach_usb_offload_r.Packet.{
  section_header_size, container_obj_size, mod_list_obj_psize, Counts, count_modules,
  count_containers, Open, container_config, module_objs, module_list_obj, populate_modules,
  populate_containers,
}
use audioreach_usb_offload_r.Packet.Written.{
  IsContainer, All-snoc, All-map, length-snoc, Entries-snoc, Written, with_connections,
  populate_modules-Written,
}

-- Counting the connections of modules leaves the other counters.
count_modules_frame :
    (c : Counts) (ms : List Module)
    → ((count_modules c ms).num_modules ≡ c.num_modules)
      × ((count_modules c ms).ml_sz ≡ c.ml_sz)
      × ((count_modules c ms).num_containers ≡ c.num_containers)
unfolding count_modules
count_modules_frame c [] = (refl, refl, refl)
count_modules_frame c (m ∷ ms) =
    count_modules_frame (with_connections c (c.num_connections + m.num_connections)) ms

length-module_objs : (ms : List Module) → length (module_objs ms) ≡ 2 * length ms
length-module_objs [] = omega arith
length-module_objs (m ∷ ms) = let ih = length-module_objs ms in omega (arith, ih)

-- A container is counted and its object and the one of its modules are written.
counted : Counts → Container → Counts
counted c k = record c {
  num_containers = c.num_containers + 1;
  num_modules = c.num_modules + k.num_modules;
  ml_sz = c.ml_sz + section_header_size + mod_list_obj_psize k.num_modules;
}

listed_container : Open → ℕ → Container → Open
listed_container o id k = record o {
  cont_obj = o.cont_obj ++ (container_config k ∷ []);
  mod_list_obj = o.mod_list_obj ++ ((o.mlobj, module_list_obj k id) ∷ []);
}

container-Written :
    (c : Counts) (o : Open) (id : ℕ) (k : Container)
    → IsContainer k
    → Written c c.num_modules 0 o
    → Written
        (counted c k)
        c.num_modules
        (mod_list_obj_psize k.num_modules)
        (listed_container o id k)
unfolding counted listed_container
container-Written c o id k (num, ims) h =
    let words = length-module_objs k.modules_list in
    let off = h.offset in
    record {
      sgs = h.sgs;
      conts =
          Entries-snoc container_obj_size c.num_containers o.cont_obj (container_config k) h.conts
            (omega arith);
      props = h.props;
      conns = h.conns;
      offset = omega (arith, off);
      lists = length-snoc o.mod_list_obj _ ∙ ap (λ t. t + 1) h.lists;
      within =
          All-snoc
            (λ (e : ℕ × List ℕ). e.0 + 4 * length e.1 ≤ o.mlobj + mod_list_obj_psize k.num_modules)
            o.mod_list_obj (o.mlobj, module_list_obj k id)
            (All-map _ _ o.mod_list_obj (λ e b. omega (arith, b)) h.within)
            (omega (arith, words, num));
    }

advanced-Written :
    (c : Counts) (mods n : ℕ) (o : Open)
    → Written c mods (mod_list_obj_psize n) o
    → mods ≡ c.num_modules
    → Written c c.num_modules 0 (record o { mlobj = o.mlobj + mod_list_obj_psize n })
advanced-Written c mods n o h e =
    let off = h.offset in
    record {
      sgs = h.sgs;
      conts = h.conts;
      props = (h.props.0 ∙ e, h.props.1);
      conns = h.conns;
      offset = omega (arith, off);
      lists = h.lists;
      within = All-map _ _ o.mod_list_obj (λ f b. omega (arith, b)) h.within;
    }

pub populate_containers-Written :
    (c : Counts) (o : Open) (id : ℕ) (ks : List Container)
    → All IsContainer ks
    → Written c c.num_modules 0 o
    → Sat
        (populate_containers o id ks)
        (Written (count_containers c ks) (count_containers c ks).num_modules 0)
unfolding populate_containers count_containers counted listed_container
populate_containers-Written c o id [] is h = h
populate_containers-Written c o id (k ∷ ks) (ik, iks) h =
    let d = count_modules (counted c k) k.modules_list in
    let psize = mod_list_obj_psize k.num_modules in
    let total = (count_modules_frame (counted c k) k.modules_list).0 in
    and_then-Sat (populate_modules (listed_container o id k) k.modules_list) _
      (Written d (c.num_modules + length k.modules_list) psize) _
      (populate_modules-Written (counted c k) c.num_modules psize (listed_container o id k)
        k.modules_list ik.1 (container-Written c o id k ik h))
      (λ p w.
        populate_containers-Written d (record p { mlobj = p.mlobj + psize }) id ks iks
          (advanced-Written d (c.num_modules + length k.modules_list) k.num_modules p w
            (ap (λ t. c.num_modules + t) ik.0 ∙ sym total)))
