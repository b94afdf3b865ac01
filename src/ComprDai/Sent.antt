-- ===== src/ComprDai/Sent.antt =====
-- A compressed stream never counts more as sent than the application has handed over
-- (source-reference/kernel/qdsp6/q6apm-dai.c).
use audioreach_usb_offload_r.Prelude.{
  and_then, Sat, and_then-Sat, ℕ, ◌+◌, ◌-◌, ◌/◌, ◌≤◌, ◌<◌, ◌≡◌, refl, sym, inl, inr, Bool, true,
  false, ◌&&◌, Option, some, List, [], ◌∷◌, ◌++◌, ltb, ◌==◌, if◌then◌else◌, arith, Bool-cases,
}
use native.Mathlib.Nat.{mod-eq_of_lt}
use audioreach_usb_offload_r.Iova.{u64}
use audioreach_usb_offload_r.Stream.{u32}
use audioreach_usb_offload_r.Apm.{Sending, write_async}
use audioreach_usb_offload_r.Apm.Callback.{ClientEvent, write_done, read_done, eos_done}
use audioreach_usb_offload_r.Apm.Buffers.{IsMapped, write_packet-IsMapped}
use audioreach_usb_offload_r.ComprDai.{
  ComprRtd, Action, writes, loses, sends_eos, notifies_drain, is_running, sent, avail, next_write,
  after_write, event_handler_compr, tracked, kicked, compr_copy, compr_ack,
}

-- What happens to a stream between two tracks, with what its write meets if there is one.
pub data ComprEvent : Type 0 where
  calls_back : ClientEvent → Sending → ComprEvent
  copies : ℕ → Sending → ComprEvent
  acknowledges : ℕ → ComprEvent

unfoldable pub compr_step : ComprRtd → ComprEvent → Option (ComprRtd × List Action)
unfolding event_handler_compr compr_copy compr_ack
compr_step s (calls_back event x) = event_handler_compr s event x
compr_step s (copies count x) = compr_copy s count x
compr_step s (acknowledges count) = some (compr_ack s count, [])

unfoldable pub compr_run : ComprRtd → List ComprEvent → Option (ComprRtd × List Action)
unfolding compr_step
compr_run s [] = some (s, [])
compr_run s (e ∷ es) =
    and_then (compr_step s e) (λ r. and_then (compr_run r.0 es) (λ q. some (q.0, r.1 ++ q.1)))

-- The bytes of the packets that are handed over.
abbrev pub written : List Action → ℕ
written [] = 0
written (writes p ∷ rest) = p.buf_size + written rest
written (loses n ∷ rest) = written rest
written (sends_eos ∷ rest) = written rest
written (notifies_drain ∷ rest) = written rest

-- The bytes of the writes whose packet cannot be allocated.
abbrev pub lost : List Action → ℕ
lost [] = 0
lost (writes p ∷ rest) = lost rest
lost (loses n ∷ rest) = n + lost rest
lost (sends_eos ∷ rest) = lost rest
lost (notifies_drain ∷ rest) = lost rest

-- A stream in the middle of a track whose graph is mapped, and which has not sent too much.
abbrev pub IsCounted : ℕ → ℕ → ℕ → ComprRtd → Type 0
IsCounted phys sz periods s =
    (s.next_track ≡ false) × IsMapped s.graph.rx phys sz periods × (s.bytes_sent ≤ s.bytes_received)

-- A step that keeps this, whose writes and losses are what has been counted as sent.
abbrev pub Accounts : ℕ → ℕ → ℕ → ComprRtd → ComprRtd × List Action → Type 0
Accounts phys sz periods s r =
    IsCounted phys sz periods r.0 × (r.0.bytes_sent ≡ s.bytes_sent + written r.1 + lost r.1)

sent-Accounts :
    (s : ComprRtd) (n wflags phys sz periods : ℕ) (x : Sending) (more : List Action)
    → IsCounted phys sz periods s
    → s.bytes_sent + n ≤ s.bytes_received
    → written more ≡ 0
    → lost more ≡ 0
    → Sat (sent s n wflags x more) (Accounts phys sz periods s)
unfolding write_async
sent-Accounts s n wflags phys sz periods x more (track, mapped, enough) le none_more none_lost =
    elim (Bool-cases x.allocated) [
      | inr off ↦ rw (off, Sat) ((track, mapped, le), omega (arith, none_more, none_lost))
      | inl on ↦
          let (h, w, m, next, iid, handle) =
            write_packet-IsMapped s.graph wflags phys sz periods s.graph.rx.dsp_buf n mapped
              (sym (mod-eq_of_lt mapped.inside)) in
          rw (on, w, Sat) ((track, m, le), omega (arith, none_more, none_lost))
    ]

avail_le :
    (s : ComprRtd) → s.bytes_sent ≤ s.bytes_received → s.bytes_sent + avail s ≤ s.bytes_received
avail_le s h = omega arith

eos_bytes : (b : Bool) → written (if b then sends_eos ∷ [] else []) ≡ 0
eos_bytes true = refl
eos_bytes false = refl

eos_lost : (b : Bool) → lost (if b then sends_eos ∷ [] else []) ≡ 0
eos_lost true = refl
eos_lost false = refl

nothing_sent :
    (s : ComprRtd) (phys sz periods : ℕ)
    → IsCounted phys sz periods s
    → Accounts phys sz periods s (s, [])
nothing_sent s phys sz periods v = (v, omega arith)

after_write-Accounts :
    (s : ComprRtd) (x : Sending) (phys sz periods n : ℕ) (is_last : Bool)
    → IsCounted phys sz periods s
    → s.bytes_sent + n ≤ s.bytes_received
    → Sat (after_write s x (n, is_last)) (Accounts phys sz periods s)
after_write-Accounts s x phys sz periods n is_last v le = elim (Bool-cases (n == 0)) [
  | inl e ↦ rw (e, Sat) (nothing_sent s phys sz periods v)
  | inr e ↦
      rw (e, Sat)
        (sent-Accounts s n _ phys sz periods x _ v le (eos_bytes (s.notify_on_drain && is_last))
          (eos_lost (s.notify_on_drain && is_last)))
]

next_write_le :
    (s : ComprRtd)
    → s.bytes_sent ≤ s.bytes_received
    → s.bytes_sent + (next_write s).0 ≤ s.bytes_received
next_write_le s h = elim (Bool-cases (ltb s.pcm_count (avail s))) [
  | inl e ↦ let lt : s.pcm_count < avail s = ground arith in rw e (omega (arith, lt, avail_le s h))
  | inr e ↦ rw e (omega (arith, avail_le s h))
]

kicked-Accounts :
    (s : ComprRtd) (x : Sending) (phys sz periods : ℕ)
    → IsCounted phys sz periods s
    → Sat (kicked s x) (Accounts phys sz periods s)
kicked-Accounts s x phys sz periods v = elim (Bool-cases (ltb (avail s) s.pcm_count)) [
  | inl e ↦ rw e (
      sent-Accounts s (u32 (avail s)) 0 phys sz periods x [] v (omega (arith, avail_le s v.2)) refl
        refl)
  | inr e ↦
      let le : s.pcm_count ≤ avail s = ground arith in
      rw e (
        sent-Accounts s s.pcm_count 0 phys sz periods x [] v (omega (arith, le, avail_le s v.2))
          refl refl)
]

event_handler_compr-Accounts :
    (s : ComprRtd) (event : ClientEvent) (x : Sending) (phys sz periods : ℕ)
    → IsCounted phys sz periods s
    → Sat (event_handler_compr s event x) (Accounts phys sz periods s)
unfolding event_handler_compr
event_handler_compr-Accounts s (eos_done token) x phys sz periods v =
    elim (Bool-cases s.notify_on_drain) [
      | inl e ↦ rw (e, Sat) (v, omega arith)
      | inr e ↦ rw (e, Sat) (v, omega arith)
    ]
event_handler_compr-Accounts s (read_done token) x phys sz periods v =
    nothing_sent s phys sz periods v
event_handler_compr-Accounts s (write_done token) x phys sz periods v =
    let t = record s { copied_total = s.copied_total + token / 65536 } in
    elim (Bool-cases (is_running s.state)) [
      | inl e ↦
          rw (e, Sat)
            (after_write-Accounts t x phys sz periods (next_write t).0 (next_write t).1 v
              (next_write_le t v.2))
      | inr e ↦ rw (e, Sat) (v, omega arith)
    ]

compr_copy-Accounts :
    (s : ComprRtd) (count : ℕ) (x : Sending) (phys sz periods : ℕ)
    → IsCounted phys sz periods s
    → Sat (compr_copy s count x) (Accounts phys sz periods s)
unfolding compr_copy
compr_copy-Accounts s count x phys sz periods v =
    let t = record s { bytes_received = s.bytes_received + count } in
    let in_track : tracked s ≡ s = rw v.0 refl in
    let more : IsCounted phys sz periods t = (v.0, v.1, omega (arith, v.2)) in
    rw in_track
      (elim (Bool-cases (
        is_running s.state
        && u64 (s.bytes_received + 18446744073709551616 - s.copied_total) == 0)) [
          | inl e ↦ rw (e, Sat) (kicked-Accounts t x phys sz periods more)
          | inr e ↦ rw (e, Sat) (more, omega arith)
        ])

compr_step-Accounts :
    (s : ComprRtd) (e : ComprEvent) (phys sz periods : ℕ)
    → IsCounted phys sz periods s
    → Sat (compr_step s e) (Accounts phys sz periods s)
unfolding compr_step compr_ack
compr_step-Accounts s (calls_back event x) phys sz periods v =
    event_handler_compr-Accounts s event x phys sz periods v
compr_step-Accounts s (copies count x) phys sz periods v =
    compr_copy-Accounts s count x phys sz periods v
compr_step-Accounts s (acknowledges count) phys sz periods v =
    ((v.0, v.1, omega (arith, v.2)), omega arith)

written-append : (xs ys : List Action) → written (xs ++ ys) ≡ written xs + written ys
written-append [] ys = omega arith
written-append (writes p ∷ xs) ys = let ih = written-append xs ys in omega (arith, ih)
written-append (loses n ∷ xs) ys = written-append xs ys
written-append (sends_eos ∷ xs) ys = written-append xs ys
written-append (notifies_drain ∷ xs) ys = written-append xs ys

lost-append : (xs ys : List Action) → lost (xs ++ ys) ≡ lost xs + lost ys
lost-append [] ys = omega arith
lost-append (writes p ∷ xs) ys = lost-append xs ys
lost-append (loses n ∷ xs) ys = let ih = lost-append xs ys in omega (arith, ih)
lost-append (sends_eos ∷ xs) ys = lost-append xs ys
lost-append (notifies_drain ∷ xs) ys = lost-append xs ys

-- For a mapped stream in the middle of a track that has not counted more as sent than it has received:
-- whatever the order of completions, copies and acknowledgements, and whatever its writes meet, it
-- faults nowhere; what it counts as sent are the bytes of the packets that were handed over together
-- with those of the writes whose packet could not be allocated; and this stays at most what it has
-- received.
pub compr_run-Accounts :
    (s : ComprRtd) (es : List ComprEvent) (phys sz periods : ℕ)
    → IsCounted phys sz periods s
    → Sat (compr_run s es) (λ r.
      IsCounted phys sz periods r.0 × (r.0.bytes_sent ≡ s.bytes_sent + written r.1 + lost r.1))
unfolding compr_run
compr_run-Accounts s [] phys sz periods v = (v, omega arith)
compr_run-Accounts s (e ∷ es) phys sz periods v =
    and_then-Sat (compr_step s e) _ (Accounts phys sz periods s) _
      (compr_step-Accounts s e phys sz periods v)
      (λ r a.
        and_then-Sat (compr_run r.0 es) _ (Accounts phys sz periods r.0) _
          (compr_run-Accounts r.0 es phys sz periods a.0)
          (λ q b. (b.0, omega (arith, a.1, b.1, written-append r.1 q.1, lost-append r.1 q.1))))
