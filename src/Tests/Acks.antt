-- ===== src/Tests/Acks.antt =====
-- Concrete runs of an ACK waiter.
use dmsg.Prelude.{
  ◌<◌, ◌≡◌, refl, none, some, [], ◌∷◌, arith, ok, err, err_closed_pipe, u16_mod, if◌then◌else◌,
  lookup, nat_eq, insert,
}
use dmsg.Ioutil.AckWaiter.{
  Uint16AckWaiter, new_ack_waiter, rand_seq, begin_wait, receive, waiter_of, stop_all,
}
use dmsg.Ioutil.AckWaiter.Safety as Safety
use dmsg.Ioutil.AckWaiter.Safety.{
  new_ack_waiter-Inv, rand_seq-Inv, begin_wait-Inv, run-Safe, Safe, begins, stops_all, dones,
  receives, stops,
}
use dmsg.Ioutil.AckWaiter.Delivery.{answer, acked, begun, Holds, receive-run}
use dmsg.Ioutil.AckWaiter.Stop.{receive-stop_all}

-- The number after the last one is 0.
abbrev waiter : Uint16AckWaiter
waiter = rand_seq new_ack_waiter (255 ∷ 255 ∷ [])

waiter-Inv : Safety.Inv waiter
waiter-Inv = rand_seq-Inv new_ack_waiter (255 ∷ 255 ∷ []) new_ack_waiter-Inv

waiter_word : waiter.next_seq < u16_mod
unfolding rand_seq
waiter_word = omega arith

run-Safe_example :
    Safe (Safety.run (begins ∷ dones 65535 ∷ begins ∷ stops_all ∷ receives 0 ∷ []) waiter)
run-Safe_example =
    run-Safe (begins ∷ dones 65535 ∷ begins ∷ stops_all ∷ receives 0 ∷ []) waiter waiter-Inv

receive-run_example :
    Holds
      (λ w.
        answer (receive waiter.made w)
        ≡ (if acked waiter.next_seq (begins ∷ dones 65535 ∷ []) then some (ok tt) else none))
      (Safety.run (begins ∷ dones 65535 ∷ []) (begin_wait waiter).0)
unfolding begun
receive-run_example =
    receive-run waiter (begins ∷ dones 65535 ∷ []) waiter-Inv waiter_word (omega arith)
      (tt, (tt, tt))

abbrev pending : Uint16AckWaiter
pending = (begin_wait waiter).0

pending_waits : waiter_of waiter.next_seq pending.waiters ≡ some 0
unfolding rand_seq new_ack_waiter begin_wait waiter_of lookup insert
pending_waits = refl

receive-stop_all_example :
    Holds
      (λ w.
        (waiter_of waiter.next_seq w.waiters ≡ none)
        × (answer (receive 0 w)
            ≡ some (if (pending.chans 0).full then ok tt else err err_closed_pipe)))
      (stop_all pending)
receive-stop_all_example =
    receive-stop_all pending waiter.next_seq 0 (begin_wait-Inv waiter waiter-Inv) pending_waits
