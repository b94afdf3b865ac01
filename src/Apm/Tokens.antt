-- ===== src/Apm/Tokens.antt =====
-- The token of a write, and what the completion makes of it
-- (source-reference/kernel/qdsp6/q6apm.c).
use audioreach_usb_offload_r.Prelude.{
  ℕ, ◌+◌, ◌*◌, ◌/◌, ◌%◌, ◌^◌, ◌≤◌, ◌<◌, ◌≡◌, ◌↔◌, refl, ◌∙◌, true, some, arith, bit_or-disjoint,
}
use audioreach_usb_offload_r.Stream.{u32}
use audioreach_usb_offload_r.Apm.{Graph, write_buffer_done, phys_of, write_token}
use audioreach_usb_offload_r.Apm.Callback.{
  Response, write_done, lower_32_bits, upper_32_bits, told, graph_callback,
}
use audioreach_usb_offload_r.Apm.Buffers.{IsMapped, phys_of-IsMapped}

write_token_lem : (i len : ℕ) → i < 65536 → write_token i len ≡ i + len % 65536 * 65536
write_token_lem i len h =
    let e : u32 (len * 2 ^ 16) ≡ len % 65536 * 2 ^ 16 = omega arith in
    rw e (bit_or-disjoint 16 i (len % 65536) (omega arith))

completed :
    (g : Graph) (r : Response) (i phys : ℕ)
    → g.has_ar_graph ≡ true
    → r.opcode ≡ write_buffer_done
    → r.token % 65536 ≡ i
    → phys_of g.rx i ≡ some phys
    → r.buf_addr_lsw ≡ lower_32_bits phys
    → r.buf_addr_msw ≡ upper_32_bits phys
    → (h : Graph) × (graph_callback g r ≡ some (h, told g (write_done r.token)))
      × (h.rx.hw_ptr ≡ i + 1)
unfolding graph_callback
completed g r i phys a o t p lo hi = (
  record g {
    rx = record (g.rx) { hw_ptr = i + 1 };
    result_opcode = write_buffer_done;
    result_status = r.status;
  },
  ground (arith, a, o, t, p, lo, hi),
  refl,
)

-- The completion of a write of `len` bytes from buffer i of a mapped region with at most 2 ^ 16
-- buffers, which carries the address of the buffer, moves the pointer behind buffer i and reaches
-- the client; the number of bytes that the client takes out of the token is `len` exactly if this is
-- below 2 ^ 16.
pub write_async-completion :
    (g : Graph) (r : Response) (phys sz periods i len : ℕ)
    → IsMapped g.rx phys sz periods
    → i < periods
    → periods ≤ 65536
    → g.has_ar_graph ≡ true
    → r.opcode ≡ write_buffer_done
    → r.token ≡ write_token i len
    → r.buf_addr_lsw ≡ lower_32_bits (phys + i * sz)
    → r.buf_addr_msw ≡ upper_32_bits (phys + i * sz)
    → (h : Graph) × (graph_callback g r ≡ some (h, told g (write_done r.token)))
      × (h.rx.hw_ptr ≡ i + 1)
      × ((r.token / 65536 ≡ len) ↔ (len < 65536))
write_async-completion g r phys sz periods i len v lt small a o t lo hi =
    let token : r.token ≡ i + len % 65536 * 65536 = t ∙ write_token_lem i len (omega arith) in
    let (h, c, p) =
      completed g r i (phys + i * sz) a o (omega (arith, token))
        (phys_of-IsMapped g.rx phys sz periods i v lt) lo hi in
    (h, c, p, ((λ e. omega (arith, token)), λ e. omega (arith, token)))
