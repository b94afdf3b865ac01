-- ===== src/Iova/Window.antt =====
-- The pool of transfer rings of upstream-src/sound/usb/qcom/qc_audio_offload.c: every request is one
-- page, so the addresses stay in the window. In the pool of transfer buffers they may not.
use audioreach_usb_offload_r.Prelude.{
  ℕ, ◌+◌, ◌≤◌, ◌<◌, ◌≡◌, ◌≢◌, refl, Bool, Option, none, some, List, [], ◌∷◌, ◌++◌, map, All, arith,
  Bool-cases, inl, inr,
}
use audioreach_usb_offload_r.Iova.{
  IovaInfo, IovaPool, mark, fit, scan, fresh, get_iova, page_size, prepend, exact, blocked,
}
use audioreach_usb_offload_r.Iova.Grant.{IsFree, Grant, All-append}
use audioreach_usb_offload_r.Iova.Tiling.{IsTaken, used-IsTaken, Tiled-le}
use audioreach_usb_offload_r.Iova.Get.{Got, refused, reused, extended, get_iova-Got}
use audioreach_usb_offload_r.Iova.Claims.{
  IsPool, Got-IsPool, Grant-Tiled, Grant-used, chunk-Tiled, Grant-start,
}

abbrev pub IsPage : IovaInfo → Type 0
IsPage r = r.size ≡ page_size

fit-IsPage : (r : IovaInfo) → IsPage r → IsFree r → fit page_size page_size r ≡ exact
unfolding fit
fit-IsPage r p f = ground arith

fit-IsTaken : (r : IovaInfo) → IsTaken r → fit page_size page_size r ≡ blocked
unfolding fit
fit-IsTaken r t = ground arith

prepend-eq-none :
    (before : List IovaInfo) (o : Option (ℕ × List IovaInfo)) → prepend before o ≡ none → o ≡ none
prepend-eq-none before none h = refl
prepend-eq-none before (some (i, a)) h = cc

-- A walk for one page fails only if every page is in use.
scan-none :
    (rs : List IovaInfo) → All IsPage rs → scan page_size page_size [] rs ≡ none → All IsTaken rs
unfolding scan
scan-none [] h e = tt
scan-none (r ∷ rs) h e = elim (Bool-cases r.in_use) [
  | inr free ↦ absurd (some-ne-none (rw (fit-IsPage r h.0 free, scan) at e))
  | inl taken ↦ (
    taken,
    scan-none rs h.1 (
        prepend-eq-none (r ∷ []) (scan page_size page_size [] rs)
          (rw (fit-IsTaken r taken, scan) at e)),
  )
]
  where
    some-ne-none : {x : ℕ × List IovaInfo} → some x ≡ none → ⊥
    some-ne-none e = cc

-- The pool of rings: every region is a page, and the next fresh address is within the window.
pub record IsRingPool (base top : ℕ) (p : IovaPool) : Type 0 where
  pub pool : IsPool base top p
  pub pages : All IsPage p.regions
  pub within : p.curr_iova ≤ top

All-pages-mark : (rs : List IovaInfo) → All IsPage rs → All IsPage (map mark rs)
All-pages-mark [] h = tt
All-pages-mark (r ∷ rs) h = (h.0, All-pages-mark rs h.1)

pub All-split {ℓ κ} :
    {A : Type ℓ} (P : A → Type κ) (xs ys : List A) → All P (xs ++ ys) → All P xs × All P ys
All-split P [] ys h = (tt, h)
All-split P (x ∷ xs) ys h = let (l, r) = All-split P xs ys h.1 in ((h.0, l), r)

Grant-pages :
    {before after : List IovaInfo} {size iova : ℕ}
    → Grant size before iova after
    → All IsPage before
    → All IsPage after
Grant-pages g h =
    let (pre, rest) = All-split IsPage g.pre (g.chunk ++ g.post) (rw g.splits at h) in
    let (chunk, post) = All-split IsPage g.chunk g.post rest in
    rw g.marks (
      All-append IsPage g.pre _ pre
        (All-append IsPage (map mark g.chunk) g.post (All-pages-mark g.chunk chunk) post))

-- A fresh page still fits into the window, since every page before it is in use.
fresh_within :
    (base top : ℕ) (p : IovaPool)
    → IsRingPool base top p
    → page_size ≤ p.iova_size
    → scan page_size page_size [] p.regions ≡ none
    → p.curr_iova + page_size ≤ top
fresh_within base top p inv le e = omega (
  arith,
  inv.pool.accounted,
  used-IsTaken p.regions (scan-none p.regions inv.pages e),
  Tiled-le base p.curr_iova p.regions inv.pool.tiled,
)

Got-IsRingPool :
    (base top : ℕ) (p : IovaPool) (r : IovaPool × ℕ)
    → top < 18446744073709551616
    → IsRingPool base top p
    → Got p page_size r
    → IsRingPool base top r.0
unfolding fresh
Got-IsRingPool base top p _ small inv refused = inv
Got-IsRingPool base top p _ small inv (reused iova regions le g) = record {
  pool = record {
    tiled = Grant-Tiled base p.curr_iova inv.pool.tiled g;
    accounted = omega (arith, inv.pool.accounted, Grant-used base p.curr_iova inv.pool.tiled g);
  };
  pages = Grant-pages g inv.pages;
  within = inv.within;
}
Got-IsRingPool base top p _ small inv (extended le e) =
    let fits = fresh_within base top p inv le e in
    record {
      pool = Got-IsPool base top p page_size _ inv.pool (omega arith) (omega arith) (extended le e);
      pages = All-append IsPage p.regions _ inv.pages (refl, tt);
      within = omega arith;
    }

-- The pool stays one of rings, whatever a call for one page returns.
pub get_iova-IsRingPool :
    (base top : ℕ) (p : IovaPool) (allocated : Bool)
    → top < 18446744073709551616
    → IsRingPool base top p
    → IsRingPool base top (get_iova p page_size allocated).0
get_iova-IsRingPool base top p allocated small inv =
    Got-IsRingPool base top p _ small inv (get_iova-Got p page_size allocated)

Got-in_window :
    (base top : ℕ) (p : IovaPool) (r : IovaPool × ℕ)
    → IsRingPool base top p
    → Got p page_size r
    → r.1 ≢ 0
    → (base ≤ r.1) × (r.1 + page_size ≤ top)
unfolding fresh
Got-in_window base top p _ inv refused ne = absurd (ne refl)
Got-in_window base top p _ inv (reused iova regions le g) ne = omega (
  arith,
  inv.within,
  Grant-start base p.curr_iova inv.pool.tiled g (omega arith),
  Tiled-le _ _ g.post (chunk-Tiled base p.curr_iova inv.pool.tiled g).1,
)
Got-in_window base top p _ inv (extended le e) ne =
    omega
      (arith, fresh_within base top p inv le e, Tiled-le base p.curr_iova p.regions inv.pool.tiled)

-- Every ring that is handed out lies in the window.
pub get_iova-in_window :
    (base top : ℕ) (p : IovaPool) (allocated : Bool)
    → IsRingPool base top p
    → (get_iova p page_size allocated).1 ≢ 0
    → (base ≤ (get_iova p page_size allocated).1)
      × ((get_iova p page_size allocated).1 + page_size ≤ top)
get_iova-in_window base top p allocated inv ne =
    Got-in_window base top p _ inv (get_iova-Got p page_size allocated) ne
