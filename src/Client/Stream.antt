-- ===== src/Client/Stream.antt =====
-- `_stream_request` of scripts/http_client.py, from the opened response to the result.
use qwen38_flash_next_nvidia.Client.Received.{read_failed, Detail, open_failed, no_done, no_usage}
use qwen38_flash_next_nvidia.Prelude.{
  ℕ, suc, ◌-◌, String, Bool, true, false, not, Option, none, some, List, [], ◌∷◌, Result, ok, err,
  ◌>>=◌, if◌then◌else◌, take,
}
use qwen38_flash_next_nvidia.Json.{Value}
use qwen38_flash_next_nvidia.Sse.{Text, Decoder, fresh, feed, close, DecodeError}
use qwen38_flash_next_nvidia.Client.{
  StreamResult, Failure, http_error, transport, timeout, stream_format, missing_done, invalid_usage,
  missing_usage, LoadError, started, consume_event, read_failed, Detail, open_failed, no_done,
  no_usage,
}

-- What `resp.read` returns, call by call. Empty bytes are the end as well.
pub data Reads : Type 0 where
  eof broken : Reads
  chunk : List ℕ → Reads → Reads

-- What `_open` does: HTTPError with its code and its body, decoded with "replace"; another exception,
-- as the text that `_classify_transport` gives it, and whether that has "timeout" in it; or a response
-- with its status.
pub data Opening : Type 0 where
  refused : ℕ → Text → Opening
  unreachable : Bool → Text → Opening
  opened : ℕ → Reads → Opening

module _ (loads : Text → Result LoadError Value) (shown : Value → String) (clock : ℕ → ℕ)
    (capture_raw : Bool) where
  abbrev pub consume : Text → StreamResult → Result StreamResult StreamResult
  consume = consume_event loads shown clock capture_raw

  -- The loop over the events of one chunk, left at the done sentinel.
  unfoldable pub consume_until : List Text → StreamResult → Result StreamResult StreamResult
  consume_until [] res = ok res
  consume_until (payload ∷ payloads) res = do
    res' ← consume payload res
    elim res'.saw_done [ true ↦ ok res' | false ↦ consume_until payloads res' ]

  -- The loop over the events of `close`, which has no way out.
  unfoldable pub consume_all : List Text → StreamResult → Result StreamResult StreamResult
  consume_all [] res = ok res
  consume_all (payload ∷ payloads) res = consume payload res >>= consume_all payloads

  -- A decoding error, with the result at that moment.
  abbrev pub at_result : {A : Type 0} → StreamResult → Result DecodeError A → Result StreamResult A
  at_result res (ok a) = ok a
  at_result res (err e) = err res

  -- `while True`
  unfoldable pub read_loop :
      Decoder → Reads → StreamResult → Result StreamResult (StreamResult × Decoder)
  unfolding consume_until
  read_loop d eof res = ok (res, d)
  read_loop d broken res = err res
  read_loop d (chunk [] reads) res = ok (res, d)
  read_loop d (chunk (b ∷ bytes) reads) res = do
    (events, d') ← at_result res (feed d (b ∷ bytes))
    res' ← consume_until events res
    elim res'.saw_done [ true ↦ ok (res', d') | false ↦ read_loop d' reads res' ]

  -- `if not res.saw_done`
  unfoldable pub flush : StreamResult × Decoder → Result StreamResult StreamResult
  unfolding consume_all
  flush (res, d) = elim res.saw_done [
    | true ↦ ok res
    | false ↦ do (events, d') ← at_result res (close d); consume_all events res
  ]

  -- `res.wall_s = time.perf_counter() - t0`
  abbrev pub timed : StreamResult → StreamResult
  timed res = record res { wall = clock res.readings - clock 0; readings = suc res.readings }

  -- `_fail`
  abbrev pub failed : Failure → Detail → StreamResult → StreamResult
  failed e detail res = record (timed res) { error = some e; error_detail = detail }

  abbrev pub has_invalid_usage : Option Failure → Bool
  has_invalid_usage (some invalid_usage) = true
  has_invalid_usage _ = false

  -- From the end of the `try` block on.
  unfoldable pub conclude : Result StreamResult StreamResult → StreamResult
  conclude (err res) = failed stream_format read_failed res
  conclude (ok res) =
      if not res.saw_done
      then failed missing_done no_done (timed res)
      else if has_invalid_usage res.error
      then failed invalid_usage res.error_detail (timed res)
      else elim res.usage [ none ↦ failed missing_usage no_usage (timed res) | some u ↦ timed res ]

  unfoldable pub read_response : Reads → StreamResult → Result StreamResult StreamResult
  unfolding read_loop flush
  read_response reads res = read_loop fresh reads res >>= flush

  -- `_stream_request`
  unfoldable pub stream_request : Opening → StreamResult
  unfolding read_response conclude
  stream_request (refused code body) = record (timed started) {
    error = some (http_error code);
    http_status = some code;
    raw_error_body = take 5000 body;
  }
  stream_request (unreachable true text) = failed timeout (open_failed text) started
  stream_request (unreachable false text) = failed transport (open_failed text) started
  stream_request (opened status reads) =
      conclude (read_response reads (record started { http_status = some status }))
