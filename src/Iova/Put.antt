-- ===== src/Iova/Put.antt =====
-- `uaudio_put_iova` of upstream-src/sound/usb/qcom/qc_audio_offload.c: a run of regions goes back.
use audioreach_usb_offload_r.Prelude.{
  ℕ, ◌+◌, ◌-◌, ◌<◌, ◌≡◌, refl, ◌∙◌, true, false, not, ◌&&◌, List, [], ◌∷◌, ◌++◌, map, All, leb,
  arith, ◌==◌,
}
use audioreach_usb_offload_r.Iova.{IovaInfo, IovaPool, clear, put_scan, put_iova, u64}
use audioreach_usb_offload_r.Iova.Grant.{total}
use audioreach_usb_offload_r.Iova.Tiling.{
  Tiled, IsTaken, used, in_range, occupied, used-append, occupied-append, append-Tiled,
  used-IsTaken, occupied-below, occupied-above, occupied-IsTaken, Tiled-le, map-clear-Tiled,
  used-map-clear, occupied-map-clear,
}
use audioreach_usb_offload_r.Iova.Claims.{IsPool}

-- Regions that lie below the address are passed over.
put_scan-append :
    (b iova size : ℕ) (pre rest : List IovaInfo)
    → Tiled b pre iova
    → put_scan iova size size false (pre ++ rest)
      ≡ (pre ++ (put_scan iova size size false rest).0, (put_scan iova size size false rest).1)
unfolding put_scan
put_scan-append b iova size [] rest t = refl
put_scan-append b iova size (r ∷ pre) rest t =
    let e : (r.start_iova == iova) ≡ false = ground (arith, Tiled-le (b + r.size) iova pre t.2) in
    rw (e, put_scan-append (b + r.size) iova size pre rest t.2)

-- One region behind the first: more are wanted, or it is the last.
put_scan-more :
    (iova size tmp : ℕ) (r : IovaInfo) (rest : List IovaInfo)
    → (r.start_iova == iova) ≡ false
    → r.size < tmp
    → put_scan iova size tmp true (r ∷ rest) ≡ (
      clear r ∷ (put_scan iova size (tmp - r.size) true rest).0,
      (put_scan iova size (tmp - r.size) true rest).1,
    )
unfolding put_scan
put_scan-more iova size tmp r rest e lt =
    let f : leb r.size tmp ≡ true = ground arith in
    let g : (tmp - r.size == 0) ≡ false = ground arith in rw (e, f, g)

put_scan-last :
    (iova size : ℕ) (r : IovaInfo) (rest : List IovaInfo)
    → (r.start_iova == iova) ≡ false
    → put_scan iova size r.size true (r ∷ rest) ≡ (clear r ∷ rest, true)
unfolding put_scan
put_scan-last iova size r rest e =
    let f : leb r.size r.size ≡ true = ground arith in
    let g : (r.size - r.size == 0) ≡ true = ground arith in rw (e, f, g)

-- The first region, found by its address.
put_scan-found_more :
    (iova size : ℕ) (r : IovaInfo) (rest : List IovaInfo)
    → (r.start_iova == iova) ≡ true
    → IsTaken r
    → r.size < size
    → put_scan iova size size false (r ∷ rest) ≡ (
      clear r ∷ (put_scan iova size (size - r.size) true rest).0,
      (put_scan iova size (size - r.size) true rest).1,
    )
unfolding put_scan
put_scan-found_more iova size r rest e taken lt =
    let d : (r.size == size) ≡ false = ground arith in
    let f : leb r.size size ≡ true = ground arith in
    let g : (size - r.size == 0) ≡ false = ground arith in rw (e, taken, d, f, g)

put_scan-found_last :
    (iova : ℕ) (r : IovaInfo) (rest : List IovaInfo)
    → (r.start_iova == iova) ≡ true
    → IsTaken r
    → put_scan iova r.size r.size false (r ∷ rest) ≡ (clear r ∷ rest, true)
unfolding put_scan
put_scan-found_last iova r rest e taken =
    let d : (r.size == r.size) ≡ true = ground arith in rw (e, taken, d)

-- Once the first region is found, the regions behind it are cleared until the size is used up.
put_scan-found :
    (b m iova size : ℕ) (chunk post : List IovaInfo)
    → Tiled b chunk m
    → iova < b
    → 0 < total chunk
    → put_scan iova size (total chunk) true (chunk ++ post) ≡ (map clear chunk ++ post, true)
put_scan-found b m iova size [] post t lt pos = absurd (omega arith)
put_scan-found b m iova size (r ∷ []) post t lt pos =
    let k : r.size + 0 ≡ r.size = omega arith in
    rw k (put_scan-last iova size r post (ground arith))
put_scan-found b m iova size (r ∷ s ∷ chunk) post t lt pos =
    let k : total (r ∷ s ∷ chunk) - r.size ≡ total (s ∷ chunk) = omega arith in
    let ih =
      put_scan-found (b + r.size) m iova size (s ∷ chunk) post t.2 (omega arith) (omega arith) in
    put_scan-more iova size (total (r ∷ s ∷ chunk)) r (s ∷ (chunk ++ post)) (ground arith)
      (omega arith)
    ∙ rw (k, ih)

-- The run that starts at the address is cleared, and the call counts it.
put_scan-run :
    (m iova : ℕ) (chunk post : List IovaInfo)
    → Tiled iova chunk m
    → All IsTaken chunk
    → 0 < total chunk
    → put_scan iova (total chunk) (total chunk) false (chunk ++ post)
      ≡ (map clear chunk ++ post, true)
put_scan-run m iova [] post t taken pos = absurd (omega arith)
put_scan-run m iova (r ∷ []) post t taken pos =
    let k : r.size + 0 ≡ r.size = omega arith in
    rw k (put_scan-found_last iova r post (ground arith) taken.0)
put_scan-run m iova (r ∷ s ∷ chunk) post t taken pos =
    let k : total (r ∷ s ∷ chunk) - r.size ≡ total (s ∷ chunk) = omega arith in
    put_scan-found_more iova (total (r ∷ s ∷ chunk)) r (s ∷ (chunk ++ post)) (ground arith) taken.0
      (omega arith)
    ∙ rw (
      k,
      put_scan-found (iova + r.size) m iova (total (r ∷ s ∷ chunk)) (s ∷ chunk) post t.2
          (omega arith) (omega arith),
    )

-- A run in use that starts at `iova` and is `size` long, in a tiling.
pub record Taken (base e iova size : ℕ) (rs : List IovaInfo) : Type 0 where
  pub pre : List IovaInfo
  pub chunk : List IovaInfo
  pub post : List IovaInfo
  pub splits : rs ≡ pre ++ (chunk ++ post)
  pub before : Tiled base pre iova
  pub run : Tiled iova chunk (iova + size)
  pub after : Tiled (iova + size) post e
  pub taken : All IsTaken chunk
  pub fills : total chunk ≡ size

pub put_scan-Taken :
    (base e iova size : ℕ) (rs : List IovaInfo) (h : Taken base e iova size rs)
    → 0 < size
    → put_scan iova size size false rs ≡ (h.pre ++ (map clear h.chunk ++ h.post), true)
put_scan-Taken base e iova size rs h pos =
    let step : put_scan iova size size false (h.chunk ++ h.post)
        ≡ (map clear h.chunk ++ h.post, true) =
      rw h.fills at
        (put_scan-run (iova + size) iova h.chunk h.post h.run h.taken (omega (arith, h.fills))) in
    rw (h.splits, put_scan-append base iova size h.pre (h.chunk ++ h.post) h.before, step)

module _ (base top iova size : ℕ) (p : IovaPool) (inv : IsPool base top p)
    (h : Taken base p.curr_iova iova size p.regions) (pos : 0 < size)
    (small : top < 18446744073709551616) where
  open h use {pre, chunk, post, splits, fills}

  used_before : used p.regions ≡ used pre + (size + used post)
  used_before = rw splits (
      omega (
        arith,
        used-append pre (chunk ++ post),
        used-append chunk post,
        used-IsTaken chunk h.taken,
        fills,
      ))

  pub put_iova_lem : put_iova p iova size ≡ record {
    regions = pre ++ (map clear chunk ++ post);
    iova_size = p.iova_size + size;
    curr_iova = p.curr_iova;
  }
  unfolding put_iova
  put_iova_lem =
      let e : u64 (p.iova_size + size) ≡ p.iova_size + size =
        omega (arith, inv.accounted, used_before) in
      rw (put_scan-Taken base p.curr_iova iova size p.regions h pos, e)

  -- On a pool in order with top below 2 ^ 64, giving back a run that is in use and not empty keeps
  -- the pool in order: the tiling stays, and the amount left grows by what is no longer in use.
  pub put_iova-IsPool : IsPool base top (put_iova p iova size)
  put_iova-IsPool = rw put_iova_lem (record {
    tiled = append-Tiled base iova p.curr_iova pre _ h.before (
        append-Tiled iova (iova + size) p.curr_iova (map clear chunk) post
          (map-clear-Tiled _ _ chunk h.run) h.after);
    accounted = omega (
      arith,
      inv.accounted,
      used_before,
      used-append pre (map clear chunk ++ post),
      used-append (map clear chunk) post,
      used-map-clear chunk,
    );
  })

  -- On a pool in order with top below 2 ^ 64, after a run in use that is not empty has been given
  -- back, exactly its addresses are no longer in use.
  pub put_iova-occupied :
      (a : ℕ)
      → occupied a (put_iova p iova size).regions
        ≡ (not (in_range iova size a) && occupied a p.regions)
  put_iova-occupied a =
      rw
        (
          put_iova_lem,
          splits,
          occupied-append a pre (map clear chunk ++ post),
          occupied-append a (map clear chunk) post,
          occupied-append a pre (chunk ++ post),
          occupied-append a chunk post,
          occupied-map-clear a chunk,
          occupied-IsTaken a iova (iova + size) chunk h.run h.taken,
          fills,
        )
        (ground (
          arith,
          occupied-above a base iova pre h.before,
          occupied-below a (iova + size) p.curr_iova post h.after,
        ))
