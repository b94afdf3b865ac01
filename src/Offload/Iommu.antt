-- ===== src/Offload/Iommu.antt =====
-- `uaudio_iommu_map_pa`, `uaudio_iommu_map_xfer_buf` and `uaudio_iommu_unmap` of
-- upstream-src/sound/usb/qcom/qc_audio_offload.c. The page tables of the IOMMU are not part of the
-- state: `iommu_map` enters through its outcome, and `iommu_unmap` only logs a failure.
use audioreach_usb_offload_r.Prelude.{
  ℕ, ◌+◌, ◌-◌, ◌*◌, ◌/◌, Bool, false, ◌||◌, Option, none, some, List, [], ◌∷◌, ◌==◌, if◌then◌else◌,
}
use audioreach_usb_offload_r.Iova.{get_iova, put_iova, page_size}
use audioreach_usb_offload_r.Offload.{UaudioQmiDev, iova_base}

-- `enum mem_type`
pub data MemType : Type 0 where
  event_ring xfer_ring xfer_buf : MemType

abbrev unmap_region : UaudioQmiDev → MemType → ℕ → ℕ → UaudioQmiDev
unmap_region q event_ring iova iova_size = record q { er_mapped = false }
unmap_region q xfer_ring iova iova_size = record q {
  xfer_ring = put_iova q.xfer_ring iova iova_size;
}
unmap_region q xfer_buf iova iova_size = record q { xfer_buf = put_iova q.xfer_buf iova iova_size }

-- The branch that leaves the event ring alone, where it is not mapped, is the same state.
unfoldable pub iommu_unmap : UaudioQmiDev → MemType → ℕ → ℕ → UaudioQmiDev
iommu_unmap q mtype iova iova_size =
    if iova == 0 || iova_size == 0 then q else unmap_region q mtype iova iova_size

-- The address is 0 on failure. `allocated` is for the list entry of a fresh region.
unfoldable pub iommu_map_pa : UaudioQmiDev → MemType → ℕ → Bool → UaudioQmiDev × ℕ
iommu_map_pa q event_ring size allocated = (q, if q.er_mapped then 0 else iova_base)
iommu_map_pa q xfer_ring size allocated =
    let r = get_iova q.xfer_ring size allocated in (record q { xfer_ring = r.0 }, r.1)
iommu_map_pa q xfer_buf size allocated = (q, 0)

-- An entry of the scatter list: `offset + length`, and whether `iommu_map` succeeds for it.
pub record Sg : Type 0 where
  pub extent : ℕ
  pub maps : Bool

abbrev pub page_align : ℕ → ℕ
page_align n = (n + (page_size - 1)) / page_size * page_size

-- The loop over the scatter list: the length that could be mapped, or none where a map fails.
unfoldable pub map_sgs : List Sg → ℕ → Option ℕ
map_sgs [] total_len = some total_len
map_sgs (sg ∷ sgs) total_len =
    let rest = map_sgs sgs (total_len + page_align sg.extent) in if sg.maps then rest else none

abbrev is_whole : ℕ → Option ℕ → Bool
is_whole size none = false
is_whole size (some total_len) = size == total_len

unfoldable pub iommu_map_xfer_buf : UaudioQmiDev → ℕ → List Sg → Bool → UaudioQmiDev × ℕ
unfolding iommu_unmap
iommu_map_xfer_buf q size sgs allocated =
    let (p, iova) = get_iova q.xfer_buf size allocated in
    let mapped = record q { xfer_buf = p } in
    if iova == 0
    then (mapped, 0)
    else if is_whole size (map_sgs sgs 0)
    then (mapped, iova)
    else (iommu_unmap mapped xfer_buf iova size, 0)
