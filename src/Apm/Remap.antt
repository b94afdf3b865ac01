-- ===== src/Apm/Remap.antt =====
-- What a new mapping starts from (source-reference/kernel/qdsp6/q6apm.c).
use audioreach_usb_offload_r.Prelude.{
  ℕ, zero, suc, ◌+◌, ◌≤◌, ◌<◌, ◌≡◌, ◌≢◌, refl, sym, ◌∙◌, inl, inr, true, Option, none, some, List,
  [], ◌∷◌, get_elem?, arith, Option-cases,
}
use native.Mathlib.Nat.{mod-eq_of_lt}
use audioreach_usb_offload_r.Stream.{Ret, ok}
use audioreach_usb_offload_r.Apm.{
  AudioBuffer, GraphData, Graph, playback, Opcode, graph_free_buf, buffers, later_buffers, Sending,
  write_packet, write_async, phys_of, unmap_regions, map_regions, map_regions_rsp, no_opcode,
}
use audioreach_usb_offload_r.Apm.Callback.{Response, ClientEvent, graph_callback, callbacks}
use audioreach_usb_offload_r.Apm.Command.{Exchange, send_cmd_sync}
use audioreach_usb_offload_r.Apm.Memory.{map_memory_regions, unmap_memory_regions}
use audioreach_usb_offload_r.Apm.Buffers.{
  IsRegion, IsMapped, write_many, handed, round_robin, write_many-round_robin,
}

-- The packets from the DSP leave the buffers and the index of the next one alone.
record Same (d e : GraphData) : Type 0 where
  same_buf : e.buf ≡ d.buf
  same_count : e.num_periods ≡ d.num_periods
  same_next : e.dsp_buf ≡ d.dsp_buf

graph_callback-Same :
    (g h : Graph) (r : Response) (events : List ClientEvent)
    → graph_callback g r ≡ some (h, events)
    → Same g.rx h.rx
unfolding graph_callback
graph_callback-Same g h r events e = record {
  same_buf = ground (arith, e);
  same_count = ground (arith, e);
  same_next = ground (arith, e);
}

callbacks-Same :
    (rs : List Response) (g h : Graph) (events : List ClientEvent)
    → callbacks g rs ≡ some (h, events)
    → Same g.rx h.rx
unfolding callbacks
callbacks-Same [] g h events e = record {
  same_buf = ground (arith, e);
  same_count = ground (arith, e);
  same_next = ground (arith, e);
}
callbacks-Same (r ∷ rs) g h events e = elim (Option-cases (graph_callback g r)) [
  | inl n ↦ absurd (none_some (ground (arith, e, n)))
  | inr ((k, es), s) ↦ elim (Option-cases (callbacks k rs)) [
    | inl n ↦ absurd (none_some (ground (arith, e, s, n)))
    | inr ((j, more), t) ↦
        let a = graph_callback-Same g k r es s in
        let b = callbacks-Same rs k j more t in
        let c : j ≡ h = ground (arith, e, s, t) in
        record {
          same_buf = rw (← c) (b.same_buf ∙ a.same_buf);
          same_count = rw (← c) (b.same_count ∙ a.same_count);
          same_next = rw (← c) (b.same_next ∙ a.same_next);
        }
  ]
]
  where
    none_some : ◌≡◌ {A = Option (Graph × List ClientEvent)} none (some (h, events)) → ⊥
    none_some q = cc

send_cmd_sync-Same :
    (g h : Graph) (cmd rsp : Opcode) (x : Exchange) (rc : Ret)
    → send_cmd_sync g cmd rsp x ≡ some (h, rc)
    → Same g.rx h.rx
unfolding send_cmd_sync
send_cmd_sync-Same g h cmd rsp x rc e =
    elim (Option-cases
      (callbacks (record g { result_opcode = no_opcode; result_status = 0 }) x.arrives)) [
        | inl n ↦ record {
          same_buf = ground (arith, e, n);
          same_count = ground (arith, e, n);
          same_next = ground (arith, e, n);
        }
        | inr ((k, events), s) ↦
            let a = callbacks-Same x.arrives _ k events s in
            record {
              same_buf = ground (arith, e, s, a.same_buf);
              same_count = ground (arith, e, s, a.same_count);
              same_next = ground (arith, e, s, a.same_next);
            }
      ]

-- A region that is unmapped loses its buffers, and keeps the index.
unmap_playback :
    (g u : Graph) (x : Exchange) (rc : Ret)
    → g.rx.mem_map_handle ≢ 0
    → unmap_memory_regions g playback true x ≡ some (u, rc)
    → (u.rx.buf ≡ none) × (u.rx.dsp_buf ≡ g.rx.dsp_buf)
unfolding unmap_memory_regions graph_free_buf
unmap_playback g u x rc ne e = elim (Option-cases (send_cmd_sync g unmap_regions unmap_regions x)) [
  | inl n ↦ (ground (arith, e, n, ne), ground (arith, e, n, ne))
  | inr ((h, r), s) ↦
      let a = send_cmd_sync-Same g h unmap_regions unmap_regions x r s in
      (ground (arith, e, s, ne), ground (arith, e, s, ne, a.same_next))
]

-- A mapping that succeeds has the new buffers and the old index.
map_playback :
    (g m : Graph) (phys sz periods : ℕ) (y : Exchange)
    → g.rx.buf ≡ none
    → map_memory_regions g playback phys sz periods true true y ≡ some (m, ok 0)
    → (m.rx.buf ≡ buffers phys sz periods)
      × (m.rx.num_periods ≡ periods)
      × (m.rx.dsp_buf ≡ g.rx.dsp_buf)
unfolding map_memory_regions
map_playback g m phys sz periods y gone e = elim (Option-cases (buffers phys sz periods)) [
  | inl n ↦ (ground (arith, e, n, gone), ground (arith, e, n, gone), ground (arith, e, n, gone))
  | inr (bufs, f) ↦
      let filled : Graph = record g {
        rx = record (g.rx) { buf = some bufs; num_periods = periods };
      } in
      elim (Option-cases (send_cmd_sync filled map_regions map_regions_rsp y)) [
        | inl n ↦ (
          ground (arith, e, n, gone, f),
          ground (arith, e, n, gone, f),
          ground (arith, e, n, gone, f),
        )
        | inr ((h, r), s) ↦
            let a = send_cmd_sync-Same filled h map_regions map_regions_rsp y r s in
            (
              ground (arith, e, s, gone, f, a.same_buf),
              ground (arith, e, s, gone, f, a.same_count),
              ground (arith, e, s, gone, f, a.same_next),
            )
      ]
]

later_buffers-beyond :
    (phys sz cnt n i : ℕ) → n ≤ i → get_elem? (later_buffers phys sz cnt n) i ≡ none
unfolding later_buffers
later_buffers-beyond phys sz cnt zero i le = refl
later_buffers-beyond phys sz cnt (suc n) zero le = absurd (omega arith)
later_buffers-beyond phys sz cnt (suc n) (suc i) le =
    later_buffers-beyond phys sz (cnt + 1) n i (omega arith)

buffers-beyond :
    (phys sz periods i : ℕ) (bufs : List AudioBuffer)
    → buffers phys sz periods ≡ some bufs
    → periods ≤ i
    → get_elem? bufs i ≡ none
unfolding buffers
buffers-beyond phys sz zero i bufs e le = ground (arith, e)
buffers-beyond phys sz (suc n) zero bufs e le = absurd (omega arith)
buffers-beyond phys sz (suc n) (suc i) bufs e le =
    ground (arith, e, later_buffers-beyond phys sz 1 n i (omega arith))

phys_of-beyond :
    (d : GraphData) (phys sz periods : ℕ)
    → d.buf ≡ buffers phys sz periods
    → periods ≤ d.dsp_buf
    → phys_of d d.dsp_buf ≡ none
phys_of-beyond d phys sz periods e le = elim (Option-cases (buffers phys sz periods)) [
  | inl n ↦ ground (arith, e, n)
  | inr (bufs, f) ↦ ground (arith, e, f, buffers-beyond phys sz periods d.dsp_buf bufs f le)
]

-- A playback region that is unmapped and mapped again with success: where the index of the next buffer
-- from before is still inside, the packets of any writes go round the new buffers from it on; where
-- there are no more buffers than that, the first write whose packet can be allocated reads outside
-- the array.
pub remap-write_async :
    (g u m : Graph) (phys sz periods : ℕ) (x y : Exchange) (rc : Ret) (len wflags : ℕ)
    (to : Sending) (ws : List (ℕ × Sending))
    → to.allocated ≡ true
    → g.rx.mem_map_handle ≢ 0
    → IsRegion phys sz periods
    → unmap_memory_regions g playback true x ≡ some (u, rc)
    → map_memory_regions u playback phys sz periods true true y ≡ some (m, ok 0)
    → (g.rx.dsp_buf < periods
        → (h : Graph) × (write_many m wflags ws
            ≡ some (
              h,
              round_robin m.rx_iid m.rx.mem_map_handle wflags phys sz periods g.rx.dsp_buf
                  (handed ws),
            )))
      × (periods ≤ g.rx.dsp_buf → write_async m len wflags to ≡ none)
unfolding write_packet write_async
remap-write_async g u m phys sz periods x y rc len wflags to ws works ne region e f =
    let (gone, kept) = unmap_playback g u x rc ne e in
    let (bufs, count, next) = map_playback u m phys sz periods y gone f in
    (
      λ lt.
          let mapped : IsMapped m.rx phys sz periods = record {
            region = region;
            filled = bufs;
            counted = count;
            inside = rw (next ∙ kept) lt;
          } in
          let (h, many, later, at) =
            write_many-round_robin ws m wflags phys sz periods g.rx.dsp_buf mapped
              (next ∙ kept ∙ sym (mod-eq_of_lt lt)) in
          (h, many),
      λ le. ground (arith, works, phys_of-beyond m.rx phys sz periods bufs (rw (next ∙ kept) le)),
    )
