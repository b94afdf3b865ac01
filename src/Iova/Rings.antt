-- ===== src/Iova/Rings.antt =====
-- The pool of transfer rings over its life (upstream-src/sound/usb/qcom/qc_audio_offload.c): any
-- sequence of `uaudio_get_iova` and `uaudio_put_iova` with PAGE_SIZE, from
-- `qc_usb_audio_offload_init_qmi_dev` on.
use audioreach_usb_offload_r.Prelude.{
  ℕ, ◌+◌, ◌≤◌, ◌<◌, ◌≡◌, ◌≢◌, refl, Bool, false, List, [], ◌∷◌, All, arith, if◌then◌else◌,
}
use audioreach_usb_offload_r.Iova.{
  IovaInfo, IovaPool, get_iova, put_iova, put_scan, page_size, init_pool,
}
use audioreach_usb_offload_r.Iova.Tiling.{Tiled, used}
use audioreach_usb_offload_r.Iova.Window.{
  IsPage, IsRingPool, get_iova-IsRingPool, get_iova-in_window,
}

-- What giving back a page does to the walked list: whatever the address is, at most one page that
-- was in use is cleared, and the call counts it exactly then.
record Gave (b e : ℕ) (before : List IovaInfo) (r : List IovaInfo × Bool) : Type 0 where
  tiled : Tiled b r.0 e
  pages : All IsPage r.0
  counted : used r.0 + (if r.1 then page_size else 0) ≡ used before

put_scan-Gave :
    (b e iova : ℕ) (rs : List IovaInfo)
    → All IsPage rs
    → Tiled b rs e
    → Gave b e rs (put_scan iova page_size page_size false rs)
unfolding put_scan used
put_scan-Gave b e iova [] h t = record { tiled = t; pages = tt; counted = refl }
put_scan-Gave b e iova (r ∷ rs) h t =
    let ih = put_scan-Gave (b + r.size) e iova rs h.1 t.2 in ground (arith, ih)

pub put_iova-IsRingPool :
    (base top iova : ℕ) (p : IovaPool)
    → top < 18446744073709551616
    → IsRingPool base top p
    → IsRingPool base top (put_iova p iova page_size)
unfolding put_iova
put_iova-IsRingPool base top iova p small inv =
    let g = put_scan-Gave base p.curr_iova iova p.regions inv.pages inv.pool.tiled in
    record {
      pool = record { tiled = g.tiled; accounted = ground (arith, g.counted, inv.pool.accounted) };
      pages = g.pages;
      within = inv.within;
    }

-- One call on the ring pool. The address of `puts` is any at all.
pub data RingCall : Type 0 where
  gets : Bool → RingCall
  puts : ℕ → RingCall

unfoldable pub ring_step : IovaPool → RingCall → IovaPool
ring_step p (gets allocated) = (get_iova p page_size allocated).0
ring_step p (puts iova) = put_iova p iova page_size

unfoldable pub ring_run : IovaPool → List RingCall → IovaPool
unfolding ring_step
ring_run p [] = p
ring_run p (c ∷ cs) = ring_run (ring_step p c) cs

ring_step-IsRingPool :
    (base top : ℕ) (p : IovaPool) (c : RingCall)
    → top < 18446744073709551616
    → IsRingPool base top p
    → IsRingPool base top (ring_step p c)
unfolding ring_step
ring_step-IsRingPool base top p (gets allocated) small inv =
    get_iova-IsRingPool base top p allocated small inv
ring_step-IsRingPool base top p (puts iova) small inv =
    put_iova-IsRingPool base top iova p small inv

ring_run-IsRingPool :
    (base top : ℕ) (p : IovaPool) (cs : List RingCall)
    → top < 18446744073709551616
    → IsRingPool base top p
    → IsRingPool base top (ring_run p cs)
unfolding ring_run
ring_run-IsRingPool base top p [] small inv = inv
ring_run-IsRingPool base top p (c ∷ cs) small inv =
    ring_run-IsRingPool base top (ring_step p c) cs small
      (ring_step-IsRingPool base top p c small inv)

pub init_pool-IsRingPool : (base top : ℕ) → base ≤ top → IsRingPool base top (init_pool base top)
unfolding init_pool used
init_pool-IsRingPool base top le = record {
  pool = record { tiled = refl; accounted = omega arith };
  pages = tt;
  within = le;
}

-- For a window [base, top) with top below 2 ^ 64: after any sequence of one-page requests and
-- releases from the initial pool, releases of unknown addresses and repeated ones included, the
-- pool is in order: page after page from `base` up to at most `top`, with the amount left equal to
-- the window less the pages in use.
pub ring_run-init_pool :
    (base top : ℕ) (cs : List RingCall)
    → base ≤ top
    → top < 18446744073709551616
    → IsRingPool base top (ring_run (init_pool base top) cs)
ring_run-init_pool base top cs le small =
    ring_run-IsRingPool base top _ cs small (init_pool-IsRingPool base top le)

-- From the initial pool of a window [base, top) with top below 2 ^ 64, after any sequence of
-- one-page requests and releases of any addresses, a one-page request that returns an address
-- returns one that lies in the window together with its page.
pub ring_run-in_window :
    (base top : ℕ) (cs : List RingCall) (allocated : Bool)
    → base ≤ top
    → top < 18446744073709551616
    → (get_iova (ring_run (init_pool base top) cs) page_size allocated).1 ≢ 0
    → (base ≤ (get_iova (ring_run (init_pool base top) cs) page_size allocated).1)
      × ((get_iova (ring_run (init_pool base top) cs) page_size allocated).1 + page_size ≤ top)
ring_run-in_window base top cs allocated le small ne =
    get_iova-in_window base top _ allocated (ring_run-init_pool base top cs le small) ne
