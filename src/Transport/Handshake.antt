-- ===== src/Transport/Handshake.antt =====
-- transport.go: the REQUEST and ACCEPT of a new transport. JSON is a parameter: its output and what
-- its parser makes of bytes.
use dmsg.Prelude.{
  ℕ, Bool, false, not, ◌||◌, Option, none, some, List, [], ◌∷◌, ◌++◌, if◌then◌else◌, ◌==◌,
  bytes_beq, Result, ok, err, Error, err_closed_pipe, err_accept_check_failed, err_request_rejected,
  write_error, ctx_done,
}
use dmsg.Frame.{
  Frame, PubKey, make_frame, request_type, accept_type, close_type, combine_pks, split_pks,
  is_initiator_id, disassemble,
}
use dmsg.Transport.{Transport, ◌>>=◌, close, close_with_frame}

pub record HandshakePayload : Type 0 where
  pub version : List ℕ
  pub init_pk : PubKey
  pub resp_pk : PubKey
  pub port : ℕ

-- encoding/json on HandshakePayload.
pub record Json : Type 0 where
  pub marshal : HandshakePayload → List ℕ
  pub unmarshal : List ℕ → Option HandshakePayload

-- HandshakePayloadVersion, "1".
abbrev pub payload_version : List ℕ
payload_version = b'1' ∷ []

-- A write that fails closes the transport.
unfoldable pub write_or_close : Bool → Frame → Transport → Option (Result (Unit {0}) × Transport)
write_or_close wrote f tp =
    if wrote
    then some (ok tt, record tp { sent = tp.sent ++ f ∷ [] })
    else (close tp >>= λ r. some (err write_error, r.1))

unfoldable pub request_payload : ℕ → Transport → HandshakePayload
request_payload port tp = record {
  version = payload_version;
  init_pk = tp.local.pk;
  resp_pk = tp.remote.pk;
  port = port;
}

unfoldable pub write_request : Json → Bool → ℕ → Transport → Option (Result (Unit {0}) × Transport)
write_request json wrote port tp =
    write_or_close wrote (make_frame request_type tp.id (json.marshal (request_payload port tp))) tp

unfoldable pub accept_frame : Transport → Frame
accept_frame tp = make_frame accept_type tp.id (combine_pks tp.remote.pk tp.local.pk)

unfoldable pub write_accept : Bool → Transport → Option (Result (Unit {0}) × Transport)
write_accept wrote tp = write_or_close wrote (accept_frame tp) tp

-- The case that the select of ReadAccept takes.
pub data Event : Type 0 where
  is_done ctx_ends in_ch_closed : Event
  receives : Frame → Event

-- !ok || initPK != tp.local.PK || respPK != tp.remote.PK || !isInitiatorID(id)
unfoldable pub accept_ok : Transport → ℕ → Option (PubKey × PubKey) → Bool
accept_ok tp id none = false
accept_ok tp id (some (init_pk, resp_pk)) = not (
    not (bytes_beq init_pk tp.local.pk)
    || (not (bytes_beq resp_pk tp.remote.pk) || not (is_initiator_id id)))

-- An error with the transport closed, without or with a CLOSE frame.
unfoldable pub fail_closed : Error → Transport → Option (Result (Unit {0}) × Transport)
fail_closed e tp = close tp >>= λ r. some (err e, r.1)

unfoldable pub fail_with_frame : Error → Transport → Option (Result (Unit {0}) × Transport)
fail_with_frame e tp = close_with_frame tp >>= λ tp'. some (err e, tp')

unfoldable pub check_accept : ℕ × ℕ × List ℕ → Transport → Option (Result (Unit {0}) × Transport)
check_accept (ft, id, p) tp =
    if ft == accept_type
    then (if accept_ok tp id (split_pks p)
        then some (ok tt, tp)
        else fail_with_frame err_accept_check_failed tp)
    else (if ft == close_type
        then fail_closed err_request_rejected tp
        else fail_with_frame err_accept_check_failed tp)

unfoldable pub read_accept : Event → Transport → Option (Result (Unit {0}) × Transport)
read_accept is_done tp = fail_closed err_closed_pipe tp
read_accept ctx_ends tp = fail_with_frame ctx_done tp
read_accept in_ch_closed tp = fail_closed err_closed_pipe tp
read_accept (receives f) tp = disassemble f >>= λ parts. check_accept parts tp
