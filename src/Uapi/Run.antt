-- ===== src/Uapi/Run.antt =====
-- uapi.c: `handle_wasm_run_code`, from the request to the result: the files it opens, and its three
-- threads.
pub mod Stdio
pub mod State
pub mod Threads
pub mod Runner
