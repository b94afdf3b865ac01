-- ===== src/Iova/Grant.antt =====
-- What the walk of `uaudio_get_iova` finds (upstream-src/sound/usb/qcom/qc_audio_offload.c): a run of
-- neighbouring free regions whose sizes add up to the request.
use mathlib.Core.List.{append_assoc, map-append}
use audioreach_usb_offload_r.Prelude.{
  ℕ, ◌+◌, ◌-◌, ◌≤◌, ◌≡◌, refl, sym, false, Option, none, some, List, [], ◌∷◌, ◌++◌, map, All, inl,
  inr, ◌⊎◌, arith,
}
use audioreach_usb_offload_r.Iova.{
  IovaInfo, Fit, exact, part, last, blocked, fit, mark, run_start, prepend, scan,
}

abbrev pub IsFree : IovaInfo → Type 0
IsFree r = r.in_use ≡ false

-- The sum of the sizes of a run.
abbrev pub total : List IovaInfo → ℕ
total [] = 0
total (r ∷ rs) = r.size + total rs

abbrev pub start_of : List IovaInfo → ℕ
start_of [] = 0
start_of (r ∷ rs) = r.start_iova

-- `after` is `before` with a run of free regions of the requested total marked as in use.
pub record Grant (size : ℕ) (before : List IovaInfo) (iova : ℕ) (after : List IovaInfo)
    : Type 0 where
  pub pre : List IovaInfo
  pub chunk : List IovaInfo
  pub post : List IovaInfo
  pub splits : before ≡ pre ++ (chunk ++ post)
  pub marks : after ≡ pre ++ (map mark chunk ++ post)
  pub free : All IsFree chunk
  pub fills : total chunk ≡ size
  pub starts : iova ≡ start_of chunk

pub total-append : (xs ys : List IovaInfo) → total (xs ++ ys) ≡ total xs + total ys
total-append [] ys = omega arith
total-append (x ∷ xs) ys = omega (arith, total-append xs ys)

pub All-append {ℓ κ} :
    {A : Type ℓ} (P : A → Type κ) (xs ys : List A) → All P xs → All P ys → All P (xs ++ ys)
All-append P [] ys hx hy = hy
All-append P (x ∷ xs) ys hx hy = (hx.0, All-append P xs ys hx.1 hy)

fit-exact : (size tmp : ℕ) (r : IovaInfo) → fit size tmp r ≡ exact → IsFree r × (r.size ≡ size)
unfolding fit
fit-exact size tmp r h = ground arith

fit-part : (size tmp : ℕ) (r : IovaInfo) → fit size tmp r ≡ part → IsFree r × (r.size ≤ tmp)
unfolding fit
fit-part size tmp r h = ground arith

fit-last : (size tmp : ℕ) (r : IovaInfo) → fit size tmp r ≡ last → IsFree r × (r.size ≡ tmp)
unfolding fit
fit-last size tmp r h = ground arith

run_start-start_of :
    (run : List IovaInfo) (r : IovaInfo) → run_start run r ≡ start_of (run ++ (r ∷ []))
run_start-start_of [] r = refl
run_start-start_of (n ∷ run) r = refl

pub Fit-cases : (f : Fit) → (f ≡ exact) ⊎ ((f ≡ part) ⊎ ((f ≡ last) ⊎ (f ≡ blocked)))
Fit-cases exact = inl refl
Fit-cases part = inr (inl refl)
Fit-cases last = inr (inr (inl refl))
Fit-cases blocked = inr (inr (inr refl))

Grant-prepend :
    (size : ℕ) (pre before : List IovaInfo) (iova : ℕ) (after : List IovaInfo)
    → Grant size before iova after
    → Grant size (pre ++ before) iova (pre ++ after)
Grant-prepend size pre before iova after g = record {
  pre = pre ++ g.pre;
  chunk = g.chunk;
  post = g.post;
  splits = rw g.splits (sym (append_assoc pre g.pre _));
  marks = rw g.marks (sym (append_assoc pre g.pre _));
  free = g.free;
  fills = g.fills;
  starts = g.starts;
}

-- The two ends of the walk.
Grant-exact :
    (size : ℕ) (run rest : List IovaInfo) (r : IovaInfo)
    → IsFree r
    → r.size ≡ size
    → Grant size (run ++ (r ∷ rest)) r.start_iova (run ++ (mark r ∷ rest))
Grant-exact size run rest r f e = record {
  pre = run;
  chunk = r ∷ [];
  post = rest;
  splits = refl;
  marks = refl;
  free = (f, tt);
  fills = omega arith;
  starts = refl;
}

Grant-last :
    (size tmp : ℕ) (run rest : List IovaInfo) (r : IovaInfo)
    → All IsFree run
    → total run + tmp ≡ size
    → IsFree r
    → r.size ≡ tmp
    → Grant size (run ++ (r ∷ rest)) (run_start run r) (map mark run ++ (mark r ∷ rest))
Grant-last size tmp run rest r fs t f e = record {
  pre = [];
  chunk = run ++ (r ∷ []);
  post = rest;
  splits = sym (append_assoc run (r ∷ []) rest);
  marks = rw (map-append mark run (r ∷ [])) (sym (append_assoc (map mark run) (mark r ∷ []) rest));
  free = All-append IsFree run (r ∷ []) fs (f, tt);
  fills = omega (arith, total-append run (r ∷ []));
  starts = run_start-start_of run r;
}

prepend-eq-some :
    (before : List IovaInfo) (o : Option (ℕ × List IovaInfo)) (iova : ℕ) (after : List IovaInfo)
    → prepend before o ≡ some (iova, after)
    → (rest : List IovaInfo) × (o ≡ some (iova, rest)) × (after ≡ before ++ rest)
prepend-eq-some before none iova after h = cc
prepend-eq-some before (some (i, a)) iova after h = (a, ground arith, ground arith)

Grant-some :
    {size : ℕ} {before : List IovaInfo} (i iova : ℕ) (a after : List IovaInfo)
    → Grant size before i a
    → ◌≡◌ {A = Option (ℕ × List IovaInfo)} (some (i, a)) (some (iova, after))
    → Grant size before iova after
Grant-some i iova a after g h = let p : i ≡ iova = cc in let q : a ≡ after = cc in rw (← p, ← q) g

-- What the walk returns is such a run, wherever it started.
pub scan-Grant :
    (size tmp : ℕ) (run rest : List IovaInfo) (iova : ℕ) (after : List IovaInfo)
    → All IsFree run
    → total run + tmp ≡ size
    → scan size tmp run rest ≡ some (iova, after)
    → Grant size (run ++ rest) iova after
unfolding scan
scan-Grant size tmp run [] iova after fs t h = cc
scan-Grant size tmp run (r ∷ rest) iova after fs t h = elim (Fit-cases (fit size tmp r)) [
  | inl e ↦
      let (f, s) = fit-exact size tmp r e in
      Grant-some _ iova _ after (Grant-exact size run rest r f s) (rw (e, scan) at h)
  | inr (inl e) ↦
      let (f, s) = fit-part size tmp r e in
      rw (← append_assoc run (r ∷ []) rest) (
        scan-Grant size (tmp - r.size) (run ++ (r ∷ [])) rest iova after
          (All-append IsFree run (r ∷ []) fs (f, tt)) (omega (arith, total-append run (r ∷ [])))
          (rw (e, scan) at h))
  | inr (inr (inl e)) ↦
      let (f, s) = fit-last size tmp r e in
      Grant-some _ iova _ after (Grant-last size tmp run rest r fs t f s) (rw (e, scan) at h)
  | inr (inr (inr e)) ↦
      let (a, ih, eq) =
        prepend-eq-some (run ++ (r ∷ [])) (scan size size [] rest) iova after (rw (e, scan) at h) in
      rw (eq, ← append_assoc run (r ∷ []) rest)
        (Grant-prepend size (run ++ (r ∷ [])) rest iova a
          (scan-Grant size size [] rest iova a tt (omega arith) ih))
]
