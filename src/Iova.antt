-- ===== src/Iova.antt =====
-- The IOVA allocator of sound/usb/qcom/qc_audio_offload.c (upstream-src): `struct iova_info`,
-- `uaudio_get_iova` and `uaudio_put_iova`. The list, the amount that is left and the next fresh
-- address, which the code takes by three pointers, are one record.
pub mod Grant
pub mod Tiling
pub mod Get
pub mod Claims
pub mod Put
pub mod Rounds
pub mod Window
pub mod Rings
pub mod Pages
mod Examples
use audioreach_usb_offload_r.Prelude.{
  ℕ, ◌+◌, ◌-◌, ◌%◌, Bool, true, false, not, ◌&&◌, Option, none, some, List, [], ◌∷◌, ◌++◌, map, leb,
  ltb, ◌==◌, if◌then◌else◌,
}

-- PAGE_SIZE: the driver maps and rounds in units of 4 KiB.
abbrev pub page_size : ℕ
page_size = 4096

-- `unsigned long`, `size_t` and `dma_addr_t` have 64 bits on arm64.
abbrev pub u64 : ℕ → ℕ
u64 n = n % 18446744073709551616

pub record IovaInfo : Type 0 where
  pub start_iova : ℕ
  pub size : ℕ
  pub in_use : Bool

-- `xfer_ring_list`, `xfer_ring_iova_size`, `curr_xfer_ring_iova` of the ring pool, and the
-- `xfer_buf_*` ones of the buffer pool.
pub record IovaPool : Type 0 where
  pub regions : List IovaInfo
  pub iova_size : ℕ
  pub curr_iova : ℕ

abbrev pub mark : IovaInfo → IovaInfo
mark r = record r { in_use = true }

abbrev pub clear : IovaInfo → IovaInfo
clear r = record r { in_use = false }

-- What the walk of `uaudio_get_iova` does at a region: the exact fit, one more part of a run of
-- free regions, the last part of such a run, or a region that cannot serve.
pub data Fit : Type 0 where
  exact part last blocked : Fit

pub fit : ℕ → ℕ → IovaInfo → Fit
fit size tmp_size r =
    if not r.in_use && r.size == size
    then exact
    else if not r.in_use && leb r.size tmp_size
    then if tmp_size - r.size == 0 then last else part
    else blocked

-- The start of the run that began with `new_info`, or of the region itself.
abbrev pub run_start : List IovaInfo → IovaInfo → ℕ
run_start [] r = r.start_iova
run_start (new_info ∷ run) r = new_info.start_iova

abbrev pub prepend : List IovaInfo → Option (ℕ × List IovaInfo) → Option (ℕ × List IovaInfo)
prepend before none = none
prepend before (some (iova, after)) = some (iova, before ++ after)

-- `list_for_each_entry` of `uaudio_get_iova`. `run` holds the free regions from `new_info` on, whose
-- sizes have been taken from `tmp_size`; the result is the address and the list from `run` on.
pub scan : ℕ → ℕ → List IovaInfo → List IovaInfo → Option (ℕ × List IovaInfo)
unfolding fit
scan size tmp_size run [] = none
scan size tmp_size run (r ∷ rest) = elim (fit size tmp_size r) [
  | exact ↦ some (r.start_iova, run ++ (mark r ∷ rest))
  | part ↦ scan size (tmp_size - r.size) (run ++ (r ∷ [])) rest
  | last ↦ some (run_start run r, map mark run ++ (mark r ∷ rest))
  | blocked ↦ prepend (run ++ (r ∷ [])) (scan size size [] rest)
]

-- A region that is not in the list yet, at the end of what has been handed out so far.
pub fresh : IovaPool → ℕ → IovaPool
fresh p size = record {
  regions = p.regions ++ (record { start_iova = p.curr_iova; size = size; in_use = true } ∷ []);
  iova_size = p.iova_size - size;
  curr_iova = u64 (p.curr_iova + size);
}

-- `uaudio_get_iova`: 0 is the failure. `allocated` is the outcome of `kzalloc_obj`. The subtraction
-- is exact, since `size` is at most `iova_size` there.
unfoldable pub get_iova : IovaPool → ℕ → Bool → IovaPool × ℕ
unfolding scan fresh
get_iova p size allocated =
    if not (size % page_size == 0)
    then (p, 0)
    else if ltb p.iova_size size
    then (p, 0)
    else if p.iova_size == 0
    then (p, 0)
    else elim (scan size size [] p.regions) [
      | some (iova, regions) ↦
          (record p { regions = regions; iova_size = p.iova_size - size }, iova)
      | none ↦ if allocated then (fresh p size, p.curr_iova) else (p, 0)
    ]

-- The second half of the body of the loop of `uaudio_put_iova`; `go` is the rest of the loop. The
-- flag of the result says whether the loop left by `done`.
abbrev pub put_part :
    ℕ → Bool → IovaInfo → List IovaInfo → (ℕ → List IovaInfo × Bool) → List IovaInfo × Bool
put_part tmp_size found r rest go =
    if found && leb r.size tmp_size
    then if tmp_size - r.size == 0
      then (clear r ∷ rest, true)
      else (clear r ∷ (go (tmp_size - r.size)).0, (go (tmp_size - r.size)).1)
    else (r ∷ (go tmp_size).0, (go tmp_size).1)

-- The loop of `uaudio_put_iova`.
pub put_scan : ℕ → ℕ → ℕ → Bool → List IovaInfo → List IovaInfo × Bool
put_scan iova size tmp_size found [] = ([], found)
put_scan iova size tmp_size found (r ∷ rest) =
    if r.start_iova == iova
    then if not r.in_use
      then (r ∷ rest, false)
      else if r.size == size
      then (clear r ∷ rest, true)
      else put_part tmp_size true (clear r) rest (λ t. put_scan iova size t true rest)
    else put_part tmp_size found r rest (λ t. put_scan iova size t found rest)

-- `uaudio_put_iova`
unfoldable pub put_iova : IovaPool → ℕ → ℕ → IovaPool
unfolding put_scan
put_iova p iova size =
    let r = put_scan iova size size false p.regions in
    record p { regions = r.0; iova_size = if r.1 then u64 (p.iova_size + size) else p.iova_size }

-- `list_add_tail` and `INIT_LIST_HEAD` of `qc_usb_audio_offload_init_qmi_dev`, for one pool.
unfoldable pub init_pool : ℕ → ℕ → IovaPool
init_pool base top = record { regions = []; iova_size = top - base; curr_iova = base }
