-- ===== src/Lib.antt =====
-- Verification of the single-GPU launcher of an NVFP4 model server and of its measuring client.
--
-- The program starts an inference server in a container from a versioned launch profile, guards
-- it, and measures it over HTTP with streamed server-sent events.
--
-- Parts and files:
--   runtime/__init__.py, the launch profile: Profile.antt has the record `Profile` and
--     `profile_from_dict`, `profile_from_json`; Profile/Checks the field checks `_require_int`,
--     `_optional_int`, `_optional_float`, `_require_enum`, `_validate_kv_calibration`;
--     Profile/Validate the body of `validate_payload`, in parts of the same order; Profile/Reason
--     the exceptions, with the message's arguments; Profile/Contract the conditions on a profile,
--     independent of the checks and their order.
--   The JSON of these: Json.antt has the documents, Json/Loads the work of `json.loads` with the
--     hooks `_object_pairs` and `_reject_constant` on the syntax that Python's parser reads, and
--     `json.dumps` as the syntax that it writes; Json/Number floats and their order.
--   scripts/http_client.py, `SSEDecoder`: Sse.antt has the decoder as a record (`_buf`, `_decoder`,
--     `_lines`) and `feed`, `close`, `_find_newline`; Sse/Codec the incremental UTF-8 decoder.
--   scripts/http_client.py, the stream: Client/Received has `StreamResult` and
--     `validate_usage_object`, Client.antt `_consume_event`, Client/Stream `_stream_request`, which
--     feeds what `resp.read` returns to the decoder and its events to `_consume_event`;
--     Client/Delivered the lines that a response delivers, independent of how they are consumed;
--     Client/Validity `row_validity`.
--   scripts/guard.py: Guard.antt has `verify_ownership`, `stop_owned`, with the calls of the
--     container engine that it makes, and the `while` loop of `run`, a turn of it at a time;
--     Guard/Inventory `read_json` and `source_inventory`, Guard/Receipt `check_receipt`, Guard/Docker
--     `build_docker_argv`, Guard/Plan `safe_path` and the checks of `run` before it touches anything,
--     Guard/Session its inner `try` and the cleanup, Guard/Run the whole of `run`. What the
--     engine and the file system answer is in the records `Host` and `Answers`, and the commands
--     that touch a container are the list of `Act`. It compiles the profile with Entrypoint.
--   scripts/guard_stop.py: Guard/Stop.antt has `main`.
--   scripts/preflight.py: Preflight.antt has `run_preflight`, `_mount_for` and `_fs_identity`, whose
--     findings are the `findings` of the guard's `Host`.
--   scripts/compare.py: Compare.antt has `check_counts`, on rows that are JSON objects, as the client
--     records them; Compare/Prose `measured_prose_rows`, Compare/Upstream
--     `require_finite_positive` and `_upstream_rate`, with the arithmetic of floats as parameters.
--   runtime/entrypoint.py: Entrypoint.antt has `_checked_sources` and `_checked_profile`,
--     Entrypoint/Command `build_env`, `build_argv` and `build_all`, Entrypoint/Plan the checks of the
--     PLE plan and `bind_ple_plan`, Entrypoint/Prepared `read_ple_plan`, `validate_prepared_result`
--     and `prepare_ple_cache`, Entrypoint/Main `main`, from the files read to the call of
--     `os.execvpe`. Every profile and lock it compiles is checked by the launch profile's code again.
--
-- State is passed explicitly, and an exception is the error of a `Result`; in the stream it carries
-- the StreamResult as it was when the exception came. A str is a list of code points where the
-- code reads it letter by letter, a String otherwise. `json.loads` of an event, `str(v)`,
-- `str.strip` and the clock are parameters; what `resp.read` and `open` do is input.
--
-- Fuel: the loop of `feed` runs on the length of the buffer. Each step cuts at least one byte, so
-- that it never runs out (`feed_loop-extend` of Sse/Chunks and `feed_loop-IsDrained` of Sse/Feeding
-- need no more).
--
-- Not modelled: JSON text (Python's parser and printer), the digest of a profile, files, sockets,
-- processes, the texts of exceptions of other code in error messages; `prepare_jit_temp`, the guard's
-- argument parser, signal handlers and record files, the probes of
-- the preflight, and the benchmark drivers.
mod Prelude
pub mod Client
pub mod Entrypoint
pub mod Compare
pub mod Preflight
pub mod Guard
pub mod Json
pub mod Profile
pub mod Sse
