-- ===== src/Apm/Buffers.antt =====
-- The buffers of a direction lie one after another in the region that was mapped, and writes go round
-- them (source-reference/kernel/qdsp6/q6apm.c).
use audioreach_usb_offload_r.Prelude.{
  and_then, ◌++◌, ℕ, zero, suc, ◌+◌, ◌*◌, ◌%◌, ◌≤◌, ◌<◌, ◌≡◌, refl, sym, ap, ◌∙◌, Option, some,
  List, [], ◌∷◌, get_elem?, length, leb, if◌then◌else◌, arith, Bool-cases, inl, inr,
}
use native.Mathlib.Nat.{mod_self, mod-eq_of_lt, mod-lt, mod-add-mod}
use audioreach_usb_offload_r.Apm.{
  AudioBuffer, GraphData, Graph, later_buffers, buffers, phys_of, next_buf, DataPacket, Sending,
  write_packet, write_async, write_token,
}

-- A region of `periods` buffers of `period_sz` bytes each that fits the address space.
pub record IsRegion (phys period_sz periods : ℕ) : Type 0 where
  pub some_bytes : 0 < period_sz
  pub some_periods : 0 < periods
  pub small_size : period_sz < 4294967296
  pub fits : phys + periods * period_sz ≤ 18446744073709551616

times_le : (i n sz : ℕ) → i < n → i * sz + sz ≤ n * sz
times_le i n sz h = grind arith

later_buffers-get :
    (phys sz cnt n i : ℕ)
    → i < n
    → 0 < sz
    → sz < 4294967296
    → phys + (cnt + i) * sz < 18446744073709551616
    → get_elem? (later_buffers phys sz cnt n) i
      ≡ some (record { phys = phys + (cnt + i) * sz; size = sz })
unfolding later_buffers
later_buffers-get phys sz cnt zero i lt pos small fits = absurd (omega arith)
later_buffers-get phys sz cnt (suc n) zero lt pos small fits =
    let e : cnt + 0 ≡ cnt = omega arith in rw e (ground (arith, ap (λ (k : ℕ). k * sz) e))
later_buffers-get phys sz cnt (suc n) (suc i) lt pos small fits =
    let e : cnt + suc i ≡ cnt + 1 + i = omega arith in
    rw e (later_buffers-get phys sz (cnt + 1) n i (omega arith) pos small (rw e at fits))

-- Buffer i of a region.
pub buffers-get :
    (phys sz periods i : ℕ) (bufs : List AudioBuffer)
    → IsRegion phys sz periods
    → buffers phys sz periods ≡ some bufs
    → i < periods
    → get_elem? bufs i ≡ some (record { phys = phys + i * sz; size = sz })
unfolding buffers
buffers-get phys sz zero i bufs v e lt = absurd (omega arith)
buffers-get phys sz (suc n) zero bufs v e lt = ground (arith, v.small_size)
buffers-get phys sz (suc n) (suc i) bufs v e lt =
    let c : 1 + i ≡ suc i = omega arith in
    let g =
      later_buffers-get phys sz 1 n i (omega arith) v.some_bytes v.small_size
        (omega (arith, v.fits, times_le (1 + i) (suc n) sz (omega arith), v.some_bytes)) in
    ground (arith, g, ap (λ (k : ℕ). k * sz) c)

-- A direction whose buffers are those of a region.
pub record IsMapped (d : GraphData) (phys sz periods : ℕ) : Type 0 where
  pub region : IsRegion phys sz periods
  pub filled : d.buf ≡ buffers phys sz periods
  pub counted : d.num_periods ≡ periods
  pub inside : d.dsp_buf < periods

next_round : (r p : ℕ) → r < p → (if leb p (r + 1) then 0 else r + 1) ≡ (r + 1) % p
next_round r p h = elim (Bool-cases (leb p (r + 1))) [
  | inl e ↦ let f : r + 1 ≡ p = ground arith in rw (e, f) (sym (mod_self p))
  | inr e ↦ rw e (sym (mod-eq_of_lt (ground arith)))
]

next_mod : (k p : ℕ) → 0 < p → (if leb p (k % p + 1) then 0 else k % p + 1) ≡ (k + 1) % p
next_mod k p pos = next_round (k % p) p (mod-lt k pos) ∙ mod-add-mod k p 1

pub phys_of-IsMapped :
    (d : GraphData) (phys sz periods i : ℕ)
    → IsMapped d phys sz periods
    → i < periods
    → phys_of d i ≡ some (phys + i * sz)
unfolding buffers
phys_of-IsMapped d phys sz zero i v lt = absurd (omega arith)
phys_of-IsMapped d phys sz (suc n) i v lt =
    ground (arith, v.filled, buffers-get phys sz (suc n) i _ v.region refl lt)

-- Consecutive writes, each of a length, with what they meet: the packets that are handed over.
unfoldable pub write_many : Graph → ℕ → List (ℕ × Sending) → Option (Graph × List DataPacket)
unfolding write_async
write_many g wflags [] = some (g, [])
write_many g wflags ((len, x) ∷ ws) =
    and_then (write_async g len wflags x)
      (λ r. and_then (write_many r.0 wflags ws) (λ q. some (q.0, r.1 ++ q.1)))

-- The lengths of the writes whose packets can be allocated.
abbrev pub handed : List (ℕ × Sending) → List ℕ
handed [] = []
handed ((len, x) ∷ ws) = if x.allocated then len ∷ handed ws else handed ws

-- The packets that the DSP is to be sent, from the k-th on: one buffer after another, round and round.
abbrev pub round_robin : Option ℕ → ℕ → ℕ → ℕ → ℕ → ℕ → ℕ → List ℕ → List DataPacket
round_robin dest handle wflags phys sz periods k [] = []
round_robin dest handle wflags phys sz periods k (len ∷ lens) =
    record {
      token = write_token (k % periods) len;
      dest = dest;
      buf_addr = phys + k % periods * sz;
      buf_size = len;
      mem_map_handle = handle;
      flags = wflags;
    }
    ∷ round_robin dest handle wflags phys sz periods (k + 1) lens

pub write_packet-IsMapped :
    (g : Graph) (wflags phys sz periods k len : ℕ)
    → IsMapped g.rx phys sz periods
    → g.rx.dsp_buf ≡ k % periods
    → (h : Graph) × (write_packet g len wflags
        ≡ some (
          h,
          record {
            token = write_token (k % periods) len;
            dest = g.rx_iid;
            buf_addr = phys + k % periods * sz;
            buf_size = len;
            mem_map_handle = g.rx.mem_map_handle;
            flags = wflags;
          },
        ))
      × IsMapped h.rx phys sz periods
      × (h.rx.dsp_buf ≡ (k + 1) % periods)
      × (h.rx_iid ≡ g.rx_iid)
      × (h.rx.mem_map_handle ≡ g.rx.mem_map_handle)
unfolding write_packet
write_packet-IsMapped g wflags phys sz periods k len v e =
    let next : next_buf g.rx ≡ (k + 1) % periods =
      ground (arith, v.counted, e, next_mod k periods v.region.some_periods) in
    let at =
      phys_of-IsMapped g.rx phys sz periods (k % periods) v (mod-lt k v.region.some_periods) in
    let h : Graph = record g { rx = record (g.rx) { dsp_buf = next_buf g.rx } } in
    (
      h,
      rw (e, at) refl,
      record {
        region = v.region;
        filled = v.filled;
        counted = v.counted;
        inside = rw next (mod-lt (k + 1) v.region.some_periods);
      },
      next,
      refl,
      refl,
    )

-- From a mapped region on whose next buffer is k modulo the number of periods, any number of writes
-- fault nowhere, whichever packets can be allocated and whatever becomes of those that are sent: the
-- packets that are handed over go round the buffers in order, each with the index and the address of
-- the buffer after the one before it, and a write whose packet cannot be allocated takes no buffer.
pub write_many-round_robin :
    (ws : List (ℕ × Sending)) (g : Graph) (wflags phys sz periods k : ℕ)
    → IsMapped g.rx phys sz periods
    → g.rx.dsp_buf ≡ k % periods
    → (h : Graph) × (write_many g wflags ws
        ≡ some (h, round_robin g.rx_iid g.rx.mem_map_handle wflags phys sz periods k (handed ws)))
      × IsMapped h.rx phys sz periods
      × (h.rx.dsp_buf ≡ (k + length (handed ws)) % periods)
unfolding write_many write_async
write_many-round_robin [] g wflags phys sz periods k v e =
    let z : k + 0 ≡ k = omega arith in (g, refl, v, rw z e)
write_many-round_robin ((len, x) ∷ ws) g wflags phys sz periods k v e =
    elim (Bool-cases x.allocated) [
      | inr off ↦
          let (j, many, last, there) = write_many-round_robin ws g wflags phys sz periods k v e in
          (j, rw (off, many) refl, last, rw off there)
      | inl on ↦
          let (h, w, u, i, same_iid, same_handle) =
            write_packet-IsMapped g wflags phys sz periods k len v e in
          let (j, many, last, there) =
            write_many-round_robin ws h wflags phys sz periods (k + 1) u i in
          let c : k + suc (length (handed ws)) ≡ k + 1 + length (handed ws) = omega arith in
          (j, ground (arith, on, w, many, same_iid, same_handle), last, rw (on, c) there)
    ]
