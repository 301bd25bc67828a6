-- ===== src/Tests/Transports.antt =====
-- Concrete runs of a transport.
use dmsg.Prelude.{
  ◌<◌, ◌≤◌, ◌⊎◌, ◌≡◌, refl, true, false, some, List, [], ◌∷◌, ◌++◌, arith, ok, u16_mod, concat,
  replicate,
}
use dmsg.Frame.{
  Frame, PubKey, make_frame, fwd_type, ack_type, accept_type, disassemble, combine_pks,
  is_initiator_id,
}
use dmsg.Ioutil.Seq.{encode_seq, decode_seq}
use dmsg.Ioutil.AckWaiter.{rand_seq}
use dmsg.Transport.{Transport, Addr, new_transport}
use dmsg.Transport.Serving.{serve_frame, tp_buf_cap}
use dmsg.Transport.Writing.{begin_write, end_write, waiting}
use dmsg.Transport.Reading.{read}
use dmsg.Transport.Handshake.{accept_frame, read_accept, receives}
use dmsg.Transport.Inv.{Inv, Holds, total}
use dmsg.Transport.Safety.{
  Call, is_handed, receives_frame, reads, begins_write, closes, run, run-Inv, new_transport-Inv,
}
use dmsg.Transport.Stream.{trace, payloads, trace-payloads}
use dmsg.Transport.Acks.{Ledger, owed_all, run-Ledger, new_transport-Ledger}
use dmsg.Transport.Reads.{answer, outcome, read-answer}
use dmsg.Transport.EndToEnd.{returned, write-ack}
use dmsg.Transport.Accepts.{read_accept-accept_frame, read_accept_sound}

abbrev key_a : PubKey
key_a = replicate 33 7

abbrev key_b : PubKey
key_b = replicate 33 9

abbrev addr_a : Addr
addr_a = record { pk = key_a; port = 0 }

abbrev addr_b : Addr
addr_b = record { pk = key_b; port = 80 }

abbrev tp : Transport
tp = new_transport addr_a addr_b 6 (1 ∷ 2 ∷ [])

tp-Inv : Inv tp
tp-Inv = new_transport-Inv addr_a addr_b 6 (1 ∷ 2 ∷ [])

-- An FWD frame with the number 1 and two bytes.
abbrev nine_eight : Frame
nine_eight = 10 ∷ 0 ∷ 6 ∷ 0 ∷ 4 ∷ 0 ∷ 1 ∷ 9 ∷ 8 ∷ []

-- That frame handed over and received, a read of one byte, a Write, a Close, and the frame again.
abbrev calls : List Call
calls =
    is_handed nine_eight
    ∷ receives_frame nine_eight
    ∷ reads 1
    ∷ begins_write true (5 ∷ [])
    ∷ closes
    ∷ is_handed nine_eight
    ∷ []

trace-payloads_example :
    Holds (λ r. r.0 ++ concat r.1.buf ≡ concat tp.buf ++ payloads calls) (trace calls tp)
trace-payloads_example =
    trace-payloads calls tp (tt, (omega arith, (tt, (tt, (tt, (tt, tt)))))) tp-Inv

run-Ledger_example :
    Holds
      (λ u. Ledger ([] ++ owed_all tp.id calls) u × ((u.ack_buf ≡ []) ⊎ (tp_buf_cap ≤ total u.buf)))
      (run calls tp)
run-Ledger_example =
    run-Ledger calls [] tp (tt, (omega arith, (tt, (tt, (tt, (tt, tt)))))) tp-Inv
      (new_transport-Ledger addr_a addr_b 6 (1 ∷ 2 ∷ []))

run-Inv_example : Holds Inv (run calls tp)
run-Inv_example = run-Inv calls tp (tt, (omega arith, (tt, (tt, (tt, (tt, tt)))))) tp-Inv

read-answer_example : outcome (read 2 4 tp) ≡ some (answer 4 tp)
read-answer_example = read-answer 0 4 tp tp-Inv

write-ack_example :
    Holds
      (λ b.
        (b.0 ≡ waiting tp.ack_waiter.next_seq tp.ack_waiter.made)
        × (b.1.sent
            ≡ tp.sent
              ++ make_frame fwd_type tp.id (encode_seq tp.ack_waiter.next_seq ++ 5 ∷ []) ∷ [])
        × Holds
            (λ u.
              returned (end_write (5 ∷ []) tp.ack_waiter.next_seq tp.ack_waiter.made u)
              ≡ some (ok 1))
            (serve_frame (make_frame ack_type tp.id (encode_seq tp.ack_waiter.next_seq)) b.1))
      (begin_write true (5 ∷ []) tp)
write-ack_example = write-ack (5 ∷ []) tp tp-Inv tp_open tp_word
  where
    tp_open : tp.done ≡ false
    tp_open = unfold new_transport in refl

    tp_word : tp.ack_waiter.next_seq < u16_mod
    tp_word = unfold new_transport rand_seq decode_seq in omega arith

abbrev responder : Transport
responder = new_transport addr_b addr_a 3 (1 ∷ 2 ∷ [])

read_accept-accept_frame_example :
    (disassemble (accept_frame responder)
      ≡ some (accept_type, responder.id, combine_pks tp.local.pk tp.remote.pk))
    × (read_accept
          (receives (make_frame accept_type tp.id (combine_pks tp.local.pk tp.remote.pk)))
          tp
        ≡ some (ok tt, tp))
unfolding new_transport is_initiator_id
read_accept-accept_frame_example =
    read_accept-accept_frame responder tp refl refl refl refl (omega arith) (omega arith) refl

accepted :
    read_accept (receives (make_frame accept_type 6 (combine_pks key_a key_b))) tp
    ≡ some (ok tt, tp)
unfolding new_transport is_initiator_id
accepted =
    (read_accept-accept_frame responder tp refl refl refl refl (omega arith) (omega arith) refl).1

read_accept_sound_example :
    (combine_pks key_a key_b ≡ combine_pks tp.local.pk tp.remote.pk)
    × (is_initiator_id 6 ≡ true)
    × (tp ≡ tp)
read_accept_sound_example =
    read_accept_sound 6 (combine_pks key_a key_b) tp tp (omega arith) accepted
