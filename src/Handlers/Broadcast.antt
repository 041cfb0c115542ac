-- ===== src/Handlers/Broadcast.antt =====
-- A round of `TAPHandle` of cs352proxy.c.
use cs352proxypart.Base.{
  ℕ, ◌≤◌, ◌≡◌, refl, ap, sym, ◌∙◌, Bool, none, some, List, [], ◌∷◌, ◌++◌, length, append_assoc,
  append-nil,
}
use cs352proxypart.Memory.{Bytes}
use cs352proxypart.Packets.{Ptr, max_data_len}
use cs352proxypart.Heap.{ok, fault}
use cs352proxypart.State.{State, Output, send}
use cs352proxypart.State.UtHash.{UtHash, ProxySocketfd}
use cs352proxypart.Links.Flood.{to_all}
use cs352proxypart.Handlers.Data.{wire_data, tap_packet-some, tap_packet-none, tcp_handle-short}
use cs352proxypart.Handlers.{write_all, tap_handle, tcp_handle}

write_all-to_all :
    {T : Type 0} (bytes : Bytes) (es : List ProxySocketfd) (s : State T)
    → write_all bytes es s ≡ ok (tt, record s { sent = s.sent ++ to_all bytes es })
unfolding write_all send
write_all-to_all bytes [] s = ap (λ l. ok (tt, record s { sent = l })) (sym (append-nil s.sent))
write_all-to_all bytes (e ∷ es) s =
    let out : Output = record { fd = e.sock_fd; bytes = bytes } in
    write_all-to_all bytes es (record s { sent = s.sent ++ out ∷ [] })
    ∙ ap (λ l. ok (tt, record s { sent = l })) (append_assoc s.sent (out ∷ []) (to_all bytes es))

-- Up to 2048 bytes from the tap device go to every socket of the table, in order, as one data
-- packet: the type, the count and the bytes.
pub tap_handle-to_all :
    {T : Type 0} (u : UtHash T) (big : Bool) (s : State T) (bytes : Bytes)
    → length bytes ≤ max_data_len
    → tap_handle u big (some bytes) s
      ≡ ok (
        tt,
        record s {
          sent = s.sent ++ to_all (wire_data (length bytes) bytes) (u.to_list s.socketfds);
        },
      )
unfolding tap_handle
tap_handle-to_all u big s bytes fits =
    rw (tap_packet-some big bytes fits)
      (write_all-to_all (wire_data (length bytes) bytes) (u.to_list s.socketfds) s)

-- After a failed `read` the proxy sends three bytes to every socket of the table all the same, and a
-- peer that receives these alone passes a count below zero to `write`.
pub tap_handle-failed :
    {S T : Type 0} (us : UtHash S) (ut : UtHash T) (sender receiver : Bool) (fuel : ℕ) (wild : Ptr)
    (junk : Bytes) (tcp_fd : ℕ) (s : State S) (t : State T)
    → (three : Bytes) × (length three ≡ 3)
      × (tap_handle us sender none s
          ≡ ok (tt, record s { sent = s.sent ++ to_all three (us.to_list s.socketfds) }))
      × (tcp_handle ut receiver fuel wild junk tcp_fd (some three) t ≡ fault)
unfolding tap_handle
tap_handle-failed us ut sender receiver fuel wild junk tcp_fd s t =
    let three = 0xAB ∷ 0xCD ∷ 0xFF ∷ [] in
    (
      three,
      refl,
      rw (tap_packet-none sender) (write_all-to_all three (us.to_list s.socketfds) s),
      tcp_handle-short ut receiver fuel wild junk tcp_fd t,
    )
