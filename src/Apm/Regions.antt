-- ===== src/Apm/Regions.antt =====
-- The packet that maps the buffers of a stream (`audioreach_map_memory_regions` of
-- upstream-src/sound/soc/qcom/qdsp6/audioreach.c), and the addresses that the data commands name in it.
use audioreach_usb_offload_r.Prelude.{
  if_intro, Sat, All, and_then, ℕ, zero, suc, ◌+◌, ◌*◌, ◌/◌, ◌%◌, ◌≤◌, ◌<◌, ◌≡◌, refl, sym, Bool,
  true, Option, none, some, List, [], ◌∷◌, if◌then◌else◌, arith,
}
use native.Mathlib.Nat.{mod-eq_of_lt, mod-lt}
use audioreach_usb_offload_r.Stream.{u32}
use audioreach_usb_offload_r.Apm.{AudioBuffer, Graph, DataPacket, Sending, buffers}
use audioreach_usb_offload_r.Apm.Callback.{lower_32_bits, upper_32_bits}
use audioreach_usb_offload_r.Apm.Buffers.{
  IsRegion, IsMapped, write_many, handed, round_robin, write_many-round_robin,
}

-- `struct apm_shared_map_region_payload`
pub record Region : Type 0 where
  pub shm_addr_lsw : ℕ
  pub shm_addr_msw : ℕ
  pub mem_size_bytes : ℕ

-- `struct apm_cmd_shared_mem_map_regions` with the regions behind it, and the size allocated for both.
pub record MapRegions : Type 0 where
  pub payload_size : ℕ
  pub num_regions : ℕ
  pub mregions : List Region

-- ALIGN(buf_sz, 4096) of a `uint32_t`
abbrev pub align_4k : ℕ → ℕ
align_4k buf_sz = u32 (buf_sz + 4095) / 4096 * 4096

-- A region for each of the first n buffers; `none` is a read behind the last of them.
unfoldable pub regions_of : List AudioBuffer → ℕ → ℕ → Option (List Region)
regions_of bufs zero buf_sz = some []
regions_of [] (suc n) buf_sz = none
regions_of (ab ∷ bufs) (suc n) buf_sz = and_then (regions_of bufs n buf_sz) (λ rs. some (
    record {
      shm_addr_lsw = lower_32_bits ab.phys;
      shm_addr_msw = upper_32_bits ab.phys;
      mem_size_bytes = buf_sz;
    }
    ∷ rs))

abbrev pub region_count : ℕ → Bool → ℕ
region_count periods is_contiguous = if is_contiguous then 1 else periods

-- The packet: one region for all the buffers where they are contiguous, otherwise one for each.
unfoldable pub map_regions_cmd : List AudioBuffer → ℕ → ℕ → Bool → Option MapRegions
unfolding regions_of
map_regions_cmd bufs period_sz periods is_contiguous =
    let num_regions = region_count periods is_contiguous in
    let buf_sz = align_4k (u32 (if is_contiguous then period_sz * periods else period_sz)) in
    and_then (regions_of bufs num_regions buf_sz) (λ rs. some (record {
      payload_size = u32 (8 + 12 * num_regions);
      num_regions = num_regions % 65536;
      mregions = rs;
    }))

-- The address that a region starts at.
abbrev pub address_of : Region → ℕ
address_of r = r.shm_addr_lsw + r.shm_addr_msw * 4294967296

-- A data command that names bytes of the region only.
abbrev pub IsWithin : Region → DataPacket → Type 0
IsWithin r p =
    (address_of r ≤ p.buf_addr) × (p.buf_addr + p.buf_size ≤ address_of r + r.mem_size_bytes)

halves : (n : ℕ) → n < 18446744073709551616 → lower_32_bits n + upper_32_bits n * 4294967296 ≡ n
halves n h = omega arith

align_4k_le : (n : ℕ) → n ≤ 4294963200 → n ≤ align_4k (u32 n)
align_4k_le n h = omega arith

in_total : (i n sz : ℕ) → i < n → i * sz + sz ≤ sz * n
in_total i n sz h = grind arith

-- The region that is announced for `periods` buffers of `sz` bytes at `phys`.
abbrev region_at : ℕ → ℕ → ℕ → Region
region_at phys sz periods = record {
  shm_addr_lsw = lower_32_bits phys;
  shm_addr_msw = upper_32_bits phys;
  mem_size_bytes = align_4k (u32 (sz * periods));
}

region_start : (phys sz periods : ℕ) → IsRegion phys sz periods → phys < 18446744073709551616
region_start phys sz periods v =
    let room = in_total 0 periods sz v.some_periods in
    let turned : sz * periods ≡ periods * sz = grind arith in
    omega (arith, v.fits, v.some_bytes, room, turned)

-- All packets that go round the buffers stay in the region.
round_robin-IsWithin :
    (dest : Option ℕ) (handle wflags phys sz periods k : ℕ) (lens : List ℕ)
    → IsRegion phys sz periods
    → sz * periods ≤ 4294963200
    → All (λ len. len ≤ sz) lens
    → All
        (IsWithin (region_at phys sz periods))
        (round_robin dest handle wflags phys sz periods k lens)
round_robin-IsWithin dest handle wflags phys sz periods k [] v total all = tt
round_robin-IsWithin dest handle wflags phys sz periods k (len ∷ lens) v total (le, all) =
    let start = halves phys (region_start phys sz periods v) in
    let size = align_4k_le (sz * periods) total in
    let room = in_total (k % periods) periods sz (mod-lt k v.some_periods) in
    (
      (omega (arith, start), omega (arith, start, le, size, room)),
      round_robin-IsWithin dest handle wflags phys sz periods (k + 1) lens v total all,
    )

handed-All :
    (sz : ℕ) (ws : List (ℕ × Sending))
    → All (λ (w : ℕ × Sending). w.0 ≤ sz) ws
    → All (λ len. len ≤ sz) (handed ws)
handed-All sz [] all = tt
handed-All sz ((len, x) ∷ ws) (le, all) =
    if_intro (All (λ k. k ≤ sz)) x.allocated (λ e. (le, handed-All sz ws all))
      (λ e. handed-All sz ws all)

-- For the buffers of a region of at most 2 ^ 32 - 4096 bytes, mapped as one: the packet describes a
-- single region, which starts at the first buffer, and its payload is as long as what is written into
-- it; and any number of writes of at most a buffer each fault nowhere, whichever packets can be
-- allocated and whatever becomes of those that are sent, and every byte that a packet names that is
-- handed over lies in that region.
pub map_regions_cmd-IsWithin :
    (g : Graph) (wflags phys sz periods : ℕ) (ws : List (ℕ × Sending))
    → IsMapped g.rx phys sz periods
    → sz * periods ≤ 4294963200
    → All (λ (w : ℕ × Sending). w.0 ≤ sz) ws
    → (r : Region) × Sat (buffers phys sz periods) (λ bufs.
        map_regions_cmd bufs sz periods true
        ≡ some (record { payload_size = 20; num_regions = 1; mregions = r ∷ [] }))
      × (address_of r ≡ phys)
      × Sat (write_many g wflags ws) (λ w. All (IsWithin r) w.1)
unfolding buffers map_regions_cmd regions_of
map_regions_cmd-IsWithin g wflags phys sz zero ws v total all =
    absurd (omega (arith, v.region.some_periods))
map_regions_cmd-IsWithin g wflags phys sz (suc n) ws v total all =
    let (h, many, later, at) =
      write_many-round_robin ws g wflags phys sz (suc n) g.rx.dsp_buf v
        (sym (mod-eq_of_lt v.inside)) in
    (
      region_at phys sz (suc n),
      refl,
      halves phys (region_start phys sz (suc n) v.region),
      rw many (
          round_robin-IsWithin _ _ wflags phys sz (suc n) g.rx.dsp_buf (handed ws) v.region total
            (handed-All sz ws all)),
    )
