-- ===== src/Iova/Examples.antt =====
-- The IOVA allocator of upstream-src/sound/usb/qcom/qc_audio_offload.c on small pools.
use audioreach_usb_offload_r.Prelude.{
  ℕ, ◌+◌, ◌%◌, ◌≤◌, ◌≡◌, ◌≢◌, ◌↔◌, refl, Bool, true, false, ◌&&◌, ◌||◌, List, [], ◌∷◌, arith,
}
use audioreach_usb_offload_r.Iova.{IovaInfo, IovaPool, get_iova, put_iova, page_size, init_pool}
use audioreach_usb_offload_r.Iova.Tiling.{used, in_range, occupied}
use audioreach_usb_offload_r.Iova.Claims.{IsPool, get_iova-claims}
use audioreach_usb_offload_r.Iova.Put.{Taken}
use audioreach_usb_offload_r.Iova.Rounds.{get_iova-put_iova, get_iova_iff}
use audioreach_usb_offload_r.Iova.Window.{IsRingPool}
use audioreach_usb_offload_r.Iova.Rings.{
  RingCall, gets, puts, ring_run, ring_run-init_pool, ring_run-in_window,
}

abbrev region : ℕ → ℕ → Bool → IovaInfo
region start size in_use = record { start_iova = start; size = size; in_use = in_use }

-- Pages 1 and 2 have been handed out, and the second has come back.
abbrev pool : IovaPool
pool = record {
  regions = region 4096 4096 true ∷ region 8192 4096 false ∷ [];
  iova_size = 8192;
  curr_iova = 12288;
}

pool-IsPool : IsPool 4096 16384 pool
unfolding used
pool-IsPool = record { tiled = (refl, omega arith, (refl, omega arith, refl)); accounted = refl }

pool-IsRingPool : IsRingPool 4096 16384 pool
pool-IsRingPool = record { pool = pool-IsPool; pages = (refl, (refl, tt)); within = omega arith }

get_pool : (get_iova pool 4096 true).1 ≡ 8192
unfolding get_iova
get_pool = refl

get_pool_ne : (get_iova pool 4096 true).1 ≢ 0
get_pool_ne = omega (arith, get_pool)

-- Two neighbours that are free serve a request for their sum.
merged :
    (get_iova
      (record {
        regions = region 4096 4096 false ∷ region 8192 4096 false ∷ [];
        iova_size = 8192;
        curr_iova = 12288;
      })
      8192
      true).1
    ≡ 4096
unfolding get_iova
merged = refl

get_iova-claims_example :
    ((in_range (get_iova pool 4096 true).1 4096 8200 && occupied 8200 pool.regions) ≡ false)
    × (occupied 8200 (get_iova pool 4096 true).0.regions
        ≡ (in_range (get_iova pool 4096 true).1 4096 8200 || occupied 8200 pool.regions))
get_iova-claims_example =
    get_iova-claims 4096 16384 pool 4096 true pool-IsPool (omega arith) get_pool_ne 8200

get_iova-put_iova_example :
    IsPool 4096 16384 (put_iova (get_iova pool 4096 true).0 (get_iova pool 4096 true).1 4096)
    × ((put_iova (get_iova pool 4096 true).0 (get_iova pool 4096 true).1 4096).iova_size
        ≡ pool.iova_size)
    × ((a : ℕ)
        → occupied a (put_iova (get_iova pool 4096 true).0 (get_iova pool 4096 true).1 4096).regions
          ≡ occupied a pool.regions)
get_iova-put_iova_example =
    get_iova-put_iova 4096 16384 pool 4096 true pool-IsPool (omega arith) (omega arith)
      (omega arith) get_pool_ne

get_iova_iff_example :
    ((get_iova pool 8192 true).1 ≢ 0) ↔ ((8192 % page_size ≡ 0) × (8192 ≤ pool.iova_size))
get_iova_iff_example = get_iova_iff 4096 16384 pool 8192 pool-IsPool (omega arith) (omega arith)

pool-Taken : Taken 4096 12288 4096 4096 pool.regions
pool-Taken = record {
  pre = [];
  chunk = region 4096 4096 true ∷ [];
  post = region 8192 4096 false ∷ [];
  splits = refl;
  before = refl;
  run = (refl, omega arith, refl);
  after = (refl, omega arith, refl);
  taken = (refl, tt);
  fills = refl;
}

abbrev calls : List RingCall
calls = gets true ∷ gets true ∷ puts 4096 ∷ puts 4096 ∷ puts 77 ∷ gets true ∷ []

ring_run-init_pool_example : IsRingPool 4096 16384 (ring_run (init_pool 4096 16384) calls)
ring_run-init_pool_example = ring_run-init_pool 4096 16384 calls (omega arith) (omega arith)

calls_ne : (get_iova (ring_run (init_pool 4096 16384) calls) page_size true).1 ≢ 0
unfolding ring_run init_pool get_iova put_iova
calls_ne = omega arith

ring_run-in_window_example :
    (4096 ≤ (get_iova (ring_run (init_pool 4096 16384) calls) page_size true).1)
    × ((get_iova (ring_run (init_pool 4096 16384) calls) page_size true).1 + page_size ≤ 16384)
ring_run-in_window_example =
    ring_run-in_window 4096 16384 calls true (omega arith) (omega arith) calls_ne
